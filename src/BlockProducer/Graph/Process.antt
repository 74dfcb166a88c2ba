-- ===== src/BlockProducer/Graph/Process.antt =====
-- `process_root`: its effect, its error, and the invariant.
use miden_node.Prelude.{
  ℕ, ◌≡◌, ap, refl, true, false, ◌||◌, ◌⊎◌, arith, ◌==◌, Bool-cases, inl, inr, ◌≢◌,
}
use miden_node.Collections.BTreeSet
use miden_node.Collections.BTreeSet.{BTreeSet, contains}
use miden_node.BlockProducer.Graph.{
  GraphError, Result, get, DependencyGraph, invalid_root_node, ok, err, parents_of, children_of,
  process_root, try_make_roots, all_parents_processed,
}
use miden_node.BlockProducer.Graph.WellFormed.{IsWellFormed, try_make_roots_lem}

module _ {ℓ} {V : Type ℓ} (g : DependencyGraph V) (key : ℕ) where
  -- The graph in which the children are tried as roots.
  abbrev marked : DependencyGraph V
  marked = record g {
    roots = BTreeSet.remove key g.roots;
    processed = BTreeSet.insert key g.processed;
  }

  process_root_cases :
      (contains key g.roots ≡ true)
        × (process_root g key ≡ (try_make_roots (children_of g key) marked, ok tt))
      ⊎ (contains key g.roots ≡ false) × (process_root g key ≡ (g, err (invalid_root_node key)))
  unfolding process_root
  process_root_cases = elim (Bool-cases (contains key g.roots)) [
    | inl p ↦ inl (p, rw p)
    | inr p ↦ inr (p, rw (p, BTreeSet.remove_absent key g.roots p))
  ]

  -- A parent that is processed stays so.
  all_parents_processed_mono :
      (k : ℕ) → all_parents_processed g k ≡ true → all_parents_processed marked k ≡ true
  all_parents_processed_mono k h = BTreeSet.all_intro _ (parents_of g k) (λ p m. ground (
    arith,
    BTreeSet.contains-insert p key g.processed,
    BTreeSet.all_elim (λ q. contains q g.processed) (parents_of g k) p h m,
  ))

  -- Only the children of the processed node can become ready.
  all_parents_processed-anti :
      (k : ℕ)
      → contains key (parents_of g k) ≡ false
      → all_parents_processed marked k ≡ true
      → all_parents_processed g k ≡ true
  all_parents_processed-anti k other h = BTreeSet.all_intro _ (parents_of g k) (λ p m. ground (
    arith,
    BTreeSet.contains-insert p key g.processed,
    BTreeSet.all_elim (λ q. contains q (BTreeSet.insert key g.processed)) (parents_of g k) p h m,
  ))

  -- A processed node has no unprocessed parent.
  parents_processed :
      IsWellFormed g → (k : ℕ) → contains k g.processed ≡ true → all_parents_processed g k ≡ true
  parents_processed w k h =
      BTreeSet.all_intro _ (parents_of g k) (λ p m. w.processed_parents p k h m)

  marked-IsWellFormed :
      contains key g.roots ≡ true
      → IsWellFormed g
      → IsWellFormed (try_make_roots (children_of g key) marked)
  marked-IsWellFormed root w =
      let (r, e, h) = try_make_roots_lem (children_of g key) marked in
      rw e (record {
        disjoint = w.disjoint;
        parents_dom = w.parents_dom;
        children_dom = w.children_dom;
        edges = w.edges;
        no_loop = w.no_loop;
        processed_vertex = λ k m. ground (
          arith,
          BTreeSet.contains-insert k key g.processed,
          w.processed_vertex k,
          w.roots_ready key,
        );
        processed_parents = λ p k m n. ground (
          arith,
          BTreeSet.contains-insert k key g.processed,
          BTreeSet.contains-insert p key g.processed,
          w.processed_parents p k,
          w.roots_ready key,
          BTreeSet.all_elim (λ q. contains q g.processed) (parents_of g k) p,
        );
        roots_ready = λ k. ground (
          arith,
          h k,
          BTreeSet.contains-remove k key g.roots,
          BTreeSet.contains-insert k key g.processed,
          w.roots_ready k,
          w.roots_ready key,
          w.edges key k,
          w.disjoint k,
          w.no_loop key,
          w.parents_dom k,
          BTreeSet.contains-nil key,
          all_parents_processed_mono k,
          all_parents_processed-anti k,
          w.processed_parents key k,
        );
      })

  -- On a graph with the invariant it is kept, whether the root is processed or the key is no root.
  pub process_root-IsWellFormed : IsWellFormed g → IsWellFormed (process_root g key).0
  process_root-IsWellFormed w = elim process_root_cases [
    | inl (p, e) ↦ rw e (marked-IsWellFormed p w)
    | inr (p, e) ↦ rw e w
  ]

  -- On a graph with the invariant, a root becomes processed and is no longer a root, the values
  -- and the other roots stay, and only children of it become roots; a node that is no root is
  -- refused, and nothing changes.
  pub process_root_lem :
      IsWellFormed g
      → (contains key g.roots ≡ true)
          × ((process_root g key).1 ≡ ok tt)
          × (contains key (process_root g key).0.roots ≡ false)
          × ((k : ℕ)
              → (get (process_root g key).0 k ≡ get g k)
                × (contains k (process_root g key).0.processed
                    ≡ (k == key || contains k g.processed))
                × (k ≢ key
                    → contains k g.roots ≡ true
                    → contains k (process_root g key).0.roots ≡ true)
                × (contains k (process_root g key).0.roots ≡ true
                    → contains k g.roots ≡ false
                    → contains key (parents_of g k) ≡ true))
        ⊎ (contains key g.roots ≡ false) × (process_root g key ≡ (g, err (invalid_root_node key)))
  process_root_lem w = elim process_root_cases [
    | inl (p, e) ↦
        let (r, e', h) = try_make_roots_lem (children_of g key) marked in
        inl (
          p,
          rw e refl,
          rw (e, e')
              (ground (
                arith,
                h key,
                BTreeSet.contains-remove key key g.roots,
                w.edges key key,
                w.no_loop key,
              )),
          λ k.
              rw (e, e')
                (
                  refl,
                  BTreeSet.contains-insert k key g.processed,
                  λ ne m. ground (arith, h k, BTreeSet.contains-remove k key g.roots),
                  λ m n. ground (arith, h k, BTreeSet.contains-remove k key g.roots, w.edges key k),
                ),
        )
    | inr refused ↦ inr refused
  ]

  -- How `process_root` ends: the root becomes processed; or nothing changes.
  abbrev pub Processing : DependencyGraph V × Result (Unit {0}) GraphError → Type ℓ
  Processing (g', r) =
      (contains key g.roots ≡ true)
        × (r ≡ ok tt)
        × (contains key g'.roots ≡ false)
        × ((k : ℕ)
            → (get g' k ≡ get g k)
              × (contains k g'.processed ≡ (k == key || contains k g.processed))
              × (k ≢ key → contains k g.roots ≡ true → contains k g'.roots ≡ true)
              × (contains k g'.roots ≡ true
                  → contains k g.roots ≡ false
                  → contains key (parents_of g k) ≡ true))
      ⊎ (contains key g.roots ≡ false) × (g' ≡ g) × (r ≡ err (invalid_root_node key))

  -- On a graph with the invariant it is kept, and either the node is a root, becomes processed and is
  -- no longer a root, the values and the other roots stay, and only children of it become roots; or
  -- it is no root, the call is refused, and nothing changes.
  pub process_root-Processing :
      IsWellFormed g → IsWellFormed (process_root g key).0 × Processing (process_root g key)
  process_root-Processing w = (
    process_root-IsWellFormed w,
    elim (process_root_lem w) [
      | inl done ↦ inl done
      | inr (p, e) ↦ inr (p, ap (λ x. x.0) e, ap (λ x. x.1) e)
    ],
  )

  -- The fields that processing a root sets.
  pub process_root-fields :
      contains key g.roots ≡ true
      → (r : BTreeSet) × (process_root g key
          ≡ (record g { roots = r; processed = BTreeSet.insert key g.processed }, ok tt))
  process_root-fields p = elim process_root_cases [
    | inl (_, e) ↦
        let (r, e', _) = try_make_roots_lem (children_of g key) marked in (r, rw e (rw e'))
    | inr (q, e) ↦ absurd (ground arith)
  ]
