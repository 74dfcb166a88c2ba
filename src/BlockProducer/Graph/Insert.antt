-- ===== src/BlockProducer/Graph/Insert.antt =====
-- `insert_pending`: its effect, its errors, and the invariant.
use miden_node.Prelude.{
  some, ◌≢◌, ◌||◌, ◌==◌, refl, ℕ, ◌≡◌, true, false, not, ◌&&◌, [], arith, Bool-cases, inl, inr,
  filter, ◌⊎◌, is_empty,
}
use miden_node.Collections.BTreeSet
use miden_node.Collections.BTreeSet.{BTreeSet, contains}
use miden_node.Collections.BTreeMap
use miden_node.Collections.BTreeMap.{contains_key}
use miden_node.BlockProducer.Graph.{
  Result, get, parents, GraphError, DependencyGraph, duplicate_key, missing_parents, ok, err,
  contains_node, link, insert_pending,
}
use miden_node.BlockProducer.Graph.WellFormed.{IsWellFormed, contains-link, contains_key-link}

module _ {ℓ} {V : Type ℓ} (g : DependencyGraph V) (key : ℕ) where
  -- The parents that are no nodes.
  abbrev absent : BTreeSet → BTreeSet
  absent ps = BTreeSet.from_iter (filter (λ p. not (contains_node g p)) ps)

  -- The graph that a successful insertion leaves.
  pub inserted : BTreeSet → DependencyGraph V
  inserted ps = record g {
    children = BTreeMap.insert key [] (link key ps g.children);
    pending = BTreeSet.insert key g.pending;
    parents = BTreeMap.insert key ps g.parents;
  }

  module _ (ps : BTreeSet) where
    contains-absent : (p : ℕ) → contains p (absent ps) ≡ (not (contains_node g p) && contains p ps)
    contains-absent p = ground (
      arith,
      BTreeSet.contains-from_iter p (filter (λ p. not (contains_node g p)) ps),
      BTreeSet.contains-filter p (λ p. not (contains_node g p)) ps,
    )

    inserted-IsWellFormed :
        contains_node g key ≡ false
        → ((p : ℕ) → contains p ps ≡ true → contains_node g p ≡ true)
        → IsWellFormed g
        → IsWellFormed (inserted ps)
    unfolding inserted
    inserted-IsWellFormed new known w = record {
      disjoint = λ k e. ground (arith, BTreeSet.contains-insert k key g.pending, w.disjoint k);
      parents_dom = λ k. ground (
        arith,
        BTreeSet.contains-insert k key g.pending,
        BTreeMap.get-insert k key ps g.parents,
        w.parents_dom k,
      );
      children_dom = λ k. ground (
        arith,
        BTreeSet.contains-insert k key g.pending,
        BTreeMap.get-insert k key [] (link key ps g.children),
        contains_key-link key ps g.children k,
        w.children_dom k,
        known k,
      );
      edges = λ p k. ground (
        arith,
        BTreeMap.get-insert p key [] (link key ps g.children),
        BTreeMap.get-insert k key ps g.parents,
        contains-link key ps g.children p k,
        BTreeSet.contains-nil k,
        BTreeSet.contains-nil p,
        w.edges p k,
        w.parents_dom k,
        w.children_dom p,
        known p,
      );
      no_loop = λ k. ground (arith, BTreeMap.get-insert k key ps g.parents, w.no_loop k, known k);
      processed_vertex = w.processed_vertex;
      processed_parents = λ p k e m. ground (
        arith,
        BTreeMap.get-insert k key ps g.parents,
        w.processed_parents p k,
        w.processed_vertex k,
      );
      roots_ready = λ k. ground (arith, BTreeMap.get-insert k key ps g.parents, w.roots_ready k);
    }

    -- The three ways in which `insert_pending` ends.
    insert_pending_cases :
        (contains_node g key ≡ true) × (insert_pending g key ps ≡ (g, err (duplicate_key key)))
        ⊎ ((p : ℕ) × (contains_node g key ≡ false)
            × (contains p (absent ps) ≡ true)
            × (insert_pending g key ps ≡ (g, err (missing_parents (absent ps)))))
        ⊎ (contains_node g key ≡ false)
          × ((p : ℕ) → contains p ps ≡ true → contains_node g p ≡ true)
          × (insert_pending g key ps ≡ (inserted ps, ok tt))
    unfolding insert_pending inserted
    insert_pending_cases = elim (Bool-cases (contains_node g key)) [
      | inl old ↦ inl (old, rw old)
      | inr new ↦ elim (Bool-cases (is_empty (absent ps))) [
        | inl none_absent ↦ inr (
            inr (
              new,
              λ p m.
                  ground
                    (arith, contains-absent p, BTreeSet.is_empty_elim (absent ps) p none_absent),
              rw (new, none_absent),
            ))
        | inr some_absent ↦
            let (p, m) = BTreeSet.is_empty_witness (absent ps) some_absent in
            inr (inl (p, new, m, rw (new, some_absent)))
      ]
    ]

    -- On a graph with the invariant it is kept, whether the insertion succeeds or is refused.
    pub insert_pending-IsWellFormed : IsWellFormed g → IsWellFormed (insert_pending g key ps).0
    insert_pending-IsWellFormed w = elim insert_pending_cases [
      | inl (old, e) ↦ rw e w
      | inr (inl (p, new, m, e)) ↦ rw e w
      | inr (inr (new, known, e)) ↦ rw e (inserted-IsWellFormed new known w)
    ]

    -- A new key with known parents is inserted: it becomes a pending node with exactly these
    -- parents, and the other nodes, their values and their parents stay as they are.
    pub insert_pending_ok :
        contains_node g key ≡ false
        → ((p : ℕ) → contains p ps ≡ true → contains_node g p ≡ true)
        → ((insert_pending g key ps).1 ≡ ok tt)
          × (parents (insert_pending g key ps).0 key ≡ some ps)
          × ((k : ℕ)
              → contains k (insert_pending g key ps).0.pending ≡ (k == key || contains k g.pending))
          × ((k : ℕ)
              → (contains_node (insert_pending g key ps).0 k ≡ (k == key || contains_node g k))
                × (get (insert_pending g key ps).0 k ≡ get g k)
                × (k ≢ key → parents (insert_pending g key ps).0 k ≡ parents g k))
    unfolding inserted
    insert_pending_ok new known = elim insert_pending_cases [
      | inl (old, e) ↦ absurd (ground arith)
      | inr (inl (p, _, m, e)) ↦ absurd (ground (arith, contains-absent p, known p))
      | inr (inr (_, _, e)) ↦ rw e (
        refl,
        ground (arith, BTreeMap.get-insert key key ps g.parents),
        λ k. BTreeSet.contains-insert k key g.pending,
        λ k. (
          ground (arith, BTreeSet.contains-insert k key g.pending),
          refl,
          λ ne. ground (arith, BTreeMap.get-insert k key ps g.parents),
        ),
      )
    ]

    -- A refused insertion changes nothing, and its error says why: the key is a node, or these are
    -- exactly the given parents that are no nodes, at least one.
    pub insert_pending_err :
        (x : GraphError)
        → (insert_pending g key ps).1 ≡ err x
        → ((insert_pending g key ps).0 ≡ g)
          × ((x ≡ duplicate_key key) × (contains_node g key ≡ true)
              ⊎ (missing : BTreeSet) × (x ≡ missing_parents missing)
                × ((p : ℕ) → contains p missing ≡ (not (contains_node g p) && contains p ps))
                × ((p : ℕ) × (contains p missing ≡ true)))
    insert_pending_err x h = elim insert_pending_cases [
      | inl (old, e) ↦ (ground arith, inl (ground arith, old))
      | inr (inl (p, new, m, e)) ↦
          (ground arith, inr (absent ps, ground arith, contains-absent, (p, m)))
      | inr (inr (new, known, e)) ↦ absurd (ground arith)
    ]

    -- How `insert_pending` ends: the key becomes a pending node with the parents, and the other
    -- nodes, values and parents stay; or nothing changes, and the error says why.
    abbrev pub Insertion : DependencyGraph V × Result (Unit {0}) GraphError → Type ℓ
    Insertion (g', r) =
        (r ≡ ok tt)
          × (contains_node g key ≡ false)
          × ((p : ℕ) → contains p ps ≡ true → contains_node g p ≡ true)
          × (parents g' key ≡ some ps)
          × ((k : ℕ)
              → (contains k g'.pending ≡ (k == key || contains k g.pending))
                × (contains_node g' k ≡ (k == key || contains_node g k))
                × (get g' k ≡ get g k)
                × (k ≢ key → parents g' k ≡ parents g k))
        ⊎ (g' ≡ g)
          × ((r ≡ err (duplicate_key key)) × (contains_node g key ≡ true)
              ⊎ (missing : BTreeSet) × (r ≡ err (missing_parents missing))
                × ((p : ℕ) → contains p missing ≡ (not (contains_node g p) && contains p ps))
                × ((p : ℕ) × (contains p missing ≡ true)))

    -- On a graph with the invariant it is kept, and either the key is new and the parents are known,
    -- and the key becomes a pending node with exactly these parents, while the other nodes, their
    -- values and their parents stay; or nothing changes, and the error says that the key is a node,
    -- or holds exactly the given parents that are no nodes, at least one.
    pub insert_pending-Insertion :
        IsWellFormed g
        → IsWellFormed (insert_pending g key ps).0 × Insertion (insert_pending g key ps)
    insert_pending-Insertion w = (
      insert_pending-IsWellFormed w,
      elim insert_pending_cases [
        | inl (old, e) ↦ inr (ground arith, inl (ground arith, old))
        | inr (inl (p, new, m, e)) ↦
            inr (ground arith, inr (absent ps, ground arith, contains-absent, (p, m)))
        | inr (inr (new, known, e)) ↦
            let (done, own, pending, rest) = insert_pending_ok new known in
            inl (
              done,
              new,
              known,
              own,
              λ k. let (node, value, kept) = rest k in (pending k, node, value, kept),
            )
      ],
    )
