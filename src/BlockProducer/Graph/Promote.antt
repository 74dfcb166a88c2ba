-- ===== src/BlockProducer/Graph/Promote.antt =====
-- `promote_pending`: its effect, its error, and the invariant.
use miden_node.Prelude.{
  ℕ, ◌≡◌, ap, refl, true, false, not, ◌&&◌, ◌||◌, ◌⊎◌, arith, ◌==◌, Bool-cases, inl, inr, some,
  if◌then◌else◌,
}
use miden_node.Collections.BTreeSet
use miden_node.Collections.BTreeSet.{BTreeSet, contains}
use miden_node.Collections.BTreeMap
use miden_node.Collections.BTreeMap.{contains_key}
use miden_node.BlockProducer.Graph.{
  GraphError, Result, DependencyGraph, invalid_pending_node, ok, err, get, promote_pending,
  try_make_root, all_parents_processed,
}
use miden_node.BlockProducer.Graph.WellFormed.{IsWellFormed, try_make_root_lem}

module _ {ℓ} {V : Type ℓ} (g : DependencyGraph V) (key : ℕ) (value : V) where
  -- The graph in which `try_make_root` is called.
  abbrev promoted : DependencyGraph V
  promoted = record g {
    pending = BTreeSet.remove key g.pending;
    vertices = BTreeMap.insert key value g.vertices;
  }

  promote_pending_cases :
      (contains key g.pending ≡ true)
        × (promote_pending g key value ≡ (try_make_root key promoted, ok tt))
      ⊎ (contains key g.pending ≡ false)
        × (promote_pending g key value ≡ (g, err (invalid_pending_node key)))
  unfolding promote_pending
  promote_pending_cases = elim (Bool-cases (contains key g.pending)) [
    | inl p ↦ inl (p, rw p)
    | inr p ↦ inr (p, rw (p, BTreeSet.remove_absent key g.pending p))
  ]

  promoted-IsWellFormed :
      contains key g.pending ≡ true → IsWellFormed g → IsWellFormed (try_make_root key promoted)
  promoted-IsWellFormed p w =
      let (r, e, h) = try_make_root_lem key promoted in
      rw e (record {
        disjoint = λ k m. ground (
          arith,
          BTreeSet.contains-remove k key g.pending,
          BTreeMap.get-insert k key value g.vertices,
          w.disjoint k,
        );
        parents_dom = λ k. ground (
          arith,
          BTreeSet.contains-remove k key g.pending,
          BTreeMap.get-insert k key value g.vertices,
          w.parents_dom k,
        );
        children_dom = λ k. ground (
          arith,
          BTreeSet.contains-remove k key g.pending,
          BTreeMap.get-insert k key value g.vertices,
          w.children_dom k,
        );
        edges = w.edges;
        no_loop = w.no_loop;
        processed_vertex =
            λ k m. ground (arith, BTreeMap.get-insert k key value g.vertices, w.processed_vertex k);
        processed_parents = w.processed_parents;
        roots_ready = λ k. ground (
          arith,
          h k,
          BTreeSet.contains-remove k key g.pending,
          BTreeMap.get-insert k key value g.vertices,
          w.roots_ready k,
          w.disjoint k,
          w.processed_vertex k,
        );
      })

  -- On a graph with the invariant it is kept, whether the node is promoted or is not pending.
  pub promote_pending-IsWellFormed : IsWellFormed g → IsWellFormed (promote_pending g key value).0
  promote_pending-IsWellFormed w = elim promote_pending_cases [
    | inl (p, e) ↦ rw e (promoted-IsWellFormed p w)
    | inr (p, e) ↦ rw e w
  ]

  -- On a graph with the invariant, a pending node is given its value and is a root exactly if its parents are all processed; a
  -- node that is not pending is refused, and nothing changes.
  pub promote_pending_lem :
      IsWellFormed g
      → (contains key g.pending ≡ true)
          × ((promote_pending g key value).1 ≡ ok tt)
          × ((k : ℕ)
              → (get (promote_pending g key value).0 k ≡ (if k == key then some value else get g k))
                × (contains k (promote_pending g key value).0.pending
                    ≡ (not (k == key) && contains k g.pending))
                × (contains k (promote_pending g key value).0.roots
                    ≡ (contains k g.roots || (k == key && all_parents_processed g key))))
        ⊎ (contains key g.pending ≡ false)
          × (promote_pending g key value ≡ (g, err (invalid_pending_node key)))
  promote_pending_lem w = elim promote_pending_cases [
    | inl (p, e) ↦
        let (r, e', h) = try_make_root_lem key promoted in
        inl (
          p,
          rw e refl,
          λ k.
              rw (e, e')
                (
                  BTreeMap.get-insert k key value g.vertices,
                  BTreeSet.contains-remove k key g.pending,
                  ground (arith, h k, BTreeSet.contains-remove k key g.pending),
                ),
        )
    | inr refused ↦ inr refused
  ]

  -- The edges and the processed nodes stay.
  pub promote_pending-edges :
      ((promote_pending g key value).0.parents ≡ g.parents)
      × ((promote_pending g key value).0.children ≡ g.children)
      × ((promote_pending g key value).0.processed ≡ g.processed)
  promote_pending-edges = elim promote_pending_cases [
    | inl (p, e) ↦ let (r, e', h) = try_make_root_lem key promoted in rw (e, e') (refl, refl, refl)
    | inr (p, e) ↦ rw e (refl, refl, refl)
  ]

  -- How `promote_pending` ends: the pending node is given its value; or nothing changes.
  abbrev pub Promotion : DependencyGraph V × Result (Unit {0}) GraphError → Type ℓ
  Promotion (g', r) =
      (contains key g.pending ≡ true)
        × (r ≡ ok tt)
        × ((k : ℕ)
            → (get g' k ≡ (if k == key then some value else get g k))
              × (contains k g'.pending ≡ (not (k == key) && contains k g.pending))
              × (contains k g'.roots
                  ≡ (contains k g.roots || (k == key && all_parents_processed g key))))
        × (g'.parents ≡ g.parents)
        × (g'.children ≡ g.children)
        × (g'.processed ≡ g.processed)
      ⊎ (contains key g.pending ≡ false) × (g' ≡ g) × (r ≡ err (invalid_pending_node key))

  -- On a graph with the invariant it is kept, and either the node is pending, is given its value, and
  -- becomes a root exactly if its parents are all processed, while the values, the pending nodes and the
  -- roots are otherwise the same, and all edges and processed nodes stay; or it is not pending, the call
  -- is refused, and nothing changes.
  pub promote_pending-Promotion :
      IsWellFormed g
      → IsWellFormed (promote_pending g key value).0 × Promotion (promote_pending g key value)
  promote_pending-Promotion w = (
    promote_pending-IsWellFormed w,
    elim (promote_pending_lem w) [
      | inl (p, won, law) ↦
          let (ps, cs, done) = promote_pending-edges in inl (p, won, law, ps, cs, done)
      | inr (p, e) ↦ inr (p, ap (λ x. x.0) e, ap (λ x. x.1) e)
    ],
  )
