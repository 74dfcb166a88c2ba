-- ===== src/BlockProducer/Graph/Prune.antt =====
-- `prune_processed`: its effect, its errors, and the invariant.
use miden_node.Prelude.{
  refl, List, ℕ, ◌≡◌, true, false, not, ◌&&◌, ◌⊎◌, [], arith, Bool-cases, inl, inr, some, filter,
  is_empty, none, flat_map, eq_of_implies, if◌then◌else◌,
}
use miden_node.Collections.BTreeSet
use miden_node.Collections.BTreeSet.{BTreeSet, contains, IsAscending}
use miden_node.BlockProducer.Graph.{
  GraphError, Result, DependencyGraph, unknown_nodes, unprocessed_nodes, dangling_nodes, ok, err,
  parents_of, contains_node, get, prune_processed, all_parents_processed,
}
use miden_node.BlockProducer.Graph.WellFormed.{IsWellFormed}
use miden_node.BlockProducer.Graph.PruneLoop.{IsPruned, values_of, prune_loop_lem}

module _ {ℓ} {V : Type ℓ} (g : DependencyGraph V) (keys : BTreeSet) where
  abbrev unknown : BTreeSet
  unknown = BTreeSet.from_iter (filter (λ k. not (contains_node g k)) keys)

  abbrev unprocessed : BTreeSet
  unprocessed = BTreeSet.from_iter (BTreeSet.difference keys g.processed)

  abbrev dangling : BTreeSet
  dangling = BTreeSet.from_iter (filter (λ p. not (contains p keys)) (flat_map (parents_of g) keys))

  -- What the call asks for: processed nodes, with all their parents that are in the graph.
  pub record IsPrunable : Type 0 where
    pub ready : (k : ℕ) → contains k keys ≡ true → contains k g.processed ≡ true
    pub with_parents :
        (p k : ℕ)
        → contains k keys ≡ true
        → contains p (parents_of g k) ≡ true
        → contains p keys ≡ true

  contains-unprocessed :
      (k : ℕ) → contains k unprocessed ≡ (not (contains k g.processed) && contains k keys)
  contains-unprocessed k = ground (
    arith,
    BTreeSet.contains-from_iter k (BTreeSet.difference keys g.processed),
    BTreeSet.contains-difference k keys g.processed,
  )

  contains-dangling :
      (p : ℕ)
      → contains p dangling ≡ (not (contains p keys) && contains p (flat_map (parents_of g) keys))
  contains-dangling p =
      BTreeSet.contains-collect p (λ p. not (contains p keys)) (flat_map (parents_of g) keys)

  module _ (g' : DependencyGraph V) (c : IsPruned g g' keys) (a : IsPrunable)
      (w : IsWellFormed g) where
    -- The parents of a node that stays are all processed before and after, or neither.
    all_parents_processed-pruned :
        (k : ℕ) → contains k keys ≡ false → all_parents_processed g' k ≡ all_parents_processed g k
    all_parents_processed-pruned k stays =
        eq_of_implies _ _
          (BTreeSet.all_transfer (λ p. contains p g'.processed) (λ p. contains p g.processed)
            (parents_of g' k) (parents_of g k)
            (λ p m h. ground (arith, h, c.parents p k, c.processed p, a.ready p)))
          (BTreeSet.all_transfer (λ p. contains p g.processed) (λ p. contains p g'.processed)
            (parents_of g k) (parents_of g' k)
            (λ p m h. ground (arith, h, c.parents p k, c.processed p, w.edges p k)))

    pruned-IsWellFormed : IsWellFormed g'
    pruned-IsWellFormed = record {
      disjoint = λ k m. ground (arith, c.pending, c.vertices k, w.disjoint k);
      parents_dom = λ k. ground (
        arith,
        c.parents_dom k,
        c.pending,
        c.vertices k,
        w.parents_dom k,
        w.disjoint k,
        w.processed_vertex k,
        a.ready k,
      );
      children_dom = λ k. ground (
        arith,
        c.children k,
        c.pending,
        c.vertices k,
        w.children_dom k,
        w.disjoint k,
        w.processed_vertex k,
        a.ready k,
      );
      edges = λ p k. ground (
        arith,
        c.children p,
        c.parents p k,
        w.edges p k,
        a.with_parents p k,
        BTreeSet.contains-nil k,
      );
      no_loop = λ k. ground (arith, c.parents k k, w.no_loop k);
      processed_vertex = λ k m. ground (arith, c.processed k, c.vertices k, w.processed_vertex k);
      processed_parents = λ p k m n. ground (
        arith,
        c.processed k,
        c.processed p,
        c.parents p k,
        w.edges p k,
        w.processed_parents p k,
      );
      roots_ready = λ k. ground (
        arith,
        c.roots,
        c.vertices k,
        c.processed k,
        w.roots_ready k,
        a.ready k,
        all_parents_processed-pruned k,
      );
    }

  unknown-is_empty : IsPrunable → IsWellFormed g → is_empty unknown ≡ true
  unknown-is_empty a w = BTreeSet.is_empty_intro unknown (λ k m. ground (
    arith,
    BTreeSet.contains-collect k (λ j. not (contains_node g j)) keys,
    a.ready k,
    w.processed_vertex k,
  ))

  unprocessed-is_empty : IsPrunable → is_empty unprocessed ≡ true
  unprocessed-is_empty a =
      BTreeSet.is_empty_intro unprocessed (λ k m. ground (arith, contains-unprocessed k, a.ready k))

  dangling-is_empty : IsPrunable → is_empty dangling ≡ true
  dangling-is_empty a = BTreeSet.is_empty_intro dangling (λ p m.
      let found =
        BTreeSet.contains-flat_map_elim (parents_of g) keys p
          (ground (arith, contains-dangling p)) in
      ground (arith, contains-dangling p, a.with_parents p found.0 found.1 found.2))

  -- On a graph with the invariant, distinct processed nodes whose parents are all among them are
  -- pruned: the call returns their values in order, their values, marks and edges are gone and
  -- those of the other nodes stay, the pending nodes and roots stay, and the invariant holds.
  pub prune_processed_ok :
      IsWellFormed g
      → IsAscending keys
      → IsPrunable
      → (g' : DependencyGraph V) × (prune_processed g keys ≡ some (g', ok (values_of g keys)))
        × IsWellFormed g'
        × ((k : ℕ) → get g' k ≡ (if contains k keys then none else get g k))
        × ((k : ℕ) → contains k g'.processed ≡ (not (contains k keys) && contains k g.processed))
        × ((p k : ℕ)
            → contains k keys ≡ false
            → contains p (parents_of g' k) ≡ (contains p (parents_of g k) && not (contains p keys)))
        × (g'.pending ≡ g.pending)
        × (g'.roots ≡ g.roots)
  unfolding prune_processed
  prune_processed_ok w asc a =
      let (g', run, c) = prune_loop_lem keys g [] asc (λ k m. w.processed_vertex k (a.ready k m)) in
      (
        g',
        rw (unknown-is_empty a w, unprocessed-is_empty a, dangling-is_empty a, run),
        pruned-IsWellFormed g' c a w,
        c.vertices,
        c.processed,
        λ p k stays. ground (arith, c.parents p k, w.edges p k),
        c.pending,
        c.roots,
      )

  -- A call with a node that is not processed, or with a parent outside the set, is refused and
  -- changes nothing. The error holds exactly the given nodes that are unknown, or exactly those
  -- that are not processed, or exactly the parents outside the set, and at least one.
  pub prune_processed_err :
      (p j : ℕ)
      → contains j keys ≡ true
      → (contains j g.processed ≡ false)
        ⊎ (contains p (parents_of g j) ≡ true) × (contains p keys ≡ false)
      → (x : BTreeSet) × (k : ℕ) × (contains k x ≡ true)
        × ((prune_processed g keys ≡ some (g, err (unknown_nodes x)))
              × ((i : ℕ) → contains i x ≡ (not (contains_node g i) && contains i keys))
            ⊎ (prune_processed g keys ≡ some (g, err (unprocessed_nodes x)))
              × ((i : ℕ) → contains i x ≡ (not (contains i g.processed) && contains i keys))
            ⊎ (prune_processed g keys ≡ some (g, err (dangling_nodes x)))
              × ((i : ℕ)
                  → contains i x
                    ≡ (not (contains i keys) && contains i (flat_map (parents_of g) keys))))
  unfolding prune_processed
  prune_processed_err p j m bad = elim (Bool-cases (is_empty unknown)) [
    | inr e ↦
        let (k, n) = BTreeSet.is_empty_witness unknown e in
        (
          unknown,
          k,
          n,
          inl (rw e, λ i. BTreeSet.contains-collect i (λ j. not (contains_node g j)) keys),
        )
    | inl e ↦ elim (Bool-cases (is_empty unprocessed)) [
      | inr e' ↦
          let (k, n) = BTreeSet.is_empty_witness unprocessed e' in
          (unprocessed, k, n, inr (inl (rw (e, e'), contains-unprocessed)))
      | inl e' ↦ elim (Bool-cases (is_empty dangling)) [
        | inr e'' ↦
            let (k, n) = BTreeSet.is_empty_witness dangling e'' in
            (dangling, k, n, inr (inr (rw (e, e', e''), contains-dangling)))
        | inl e'' ↦ absurd (
            ground (
              arith,
              BTreeSet.is_empty_elim unprocessed j e',
              BTreeSet.is_empty_elim dangling p e'',
              contains-unprocessed j,
              contains-dangling p,
              BTreeSet.contains-flat_map_intro (parents_of g) keys j p m,
            ))
      ]
    ]
  ]

  -- How `prune_processed` ends: the given nodes are gone; or nothing changes, and the error names
  -- nodes that are the reason.
  abbrev pub Pruning : DependencyGraph V × Result (List V) GraphError → Type ℓ
  Pruning (g', r) =
      (r ≡ ok (values_of g keys))
        × IsPrunable
        × ((k : ℕ) → get g' k ≡ (if contains k keys then none else get g k))
        × ((k : ℕ) → contains k g'.processed ≡ (not (contains k keys) && contains k g.processed))
        × ((p k : ℕ)
            → contains k keys ≡ false
            → contains p (parents_of g' k) ≡ (contains p (parents_of g k) && not (contains p keys)))
        × (g'.pending ≡ g.pending)
        × (g'.roots ≡ g.roots)
      ⊎ (g' ≡ g)
        × (x : BTreeSet) × (k : ℕ) × (contains k x ≡ true)
        × ((r ≡ err (unknown_nodes x))
              × ((i : ℕ) → contains i x ≡ (not (contains_node g i) && contains i keys))
            ⊎ (r ≡ err (unprocessed_nodes x))
              × ((i : ℕ) → contains i x ≡ (not (contains i g.processed) && contains i keys))
            ⊎ (r ≡ err (dangling_nodes x))
              × ((i : ℕ)
                  → contains i x
                    ≡ (not (contains i keys) && contains i (flat_map (parents_of g) keys))))

  prune_processed-refused :
      IsWellFormed g
      → (p j : ℕ) → contains j keys ≡ true
      → (contains j g.processed ≡ false)
        ⊎ (contains p (parents_of g j) ≡ true) × (contains p keys ≡ false)
      → (g' : DependencyGraph V) × (r : Result (List V) GraphError) × (prune_processed g keys
          ≡ some (g', r))
        × IsWellFormed g'
        × Pruning (g', r)
  prune_processed-refused w p j m bad =
      let (x, k, n, why) = prune_processed_err p j m bad in
      elim why [
        | inl (run, all_of) ↦
            (g, err (unknown_nodes x), run, w, inr (refl, x, k, n, inl (refl, all_of)))
        | inr (inl (run, all_of)) ↦
            (g, err (unprocessed_nodes x), run, w, inr (refl, x, k, n, inr (inl (refl, all_of))))
        | inr (inr (run, all_of)) ↦
            (g, err (dangling_nodes x), run, w, inr (refl, x, k, n, inr (inr (refl, all_of))))
      ]

  -- On a graph with the invariant, a call with distinct nodes returns and keeps the invariant. If all
  -- are processed and their parents are all among them, it returns their values in order, their
  -- values, marks and edges are gone and those of the other nodes stay, and the pending nodes and
  -- roots stay. Otherwise nothing changes, and the error holds exactly the given nodes that are
  -- unknown, or exactly those that are not processed, or exactly the parents outside the set, at least
  -- one.
  pub prune_processed-Pruning :
      IsWellFormed g
      → IsAscending keys
      → (g' : DependencyGraph V) × (r : Result (List V) GraphError) × (prune_processed g keys
          ≡ some (g', r))
        × IsWellFormed g'
        × Pruning (g', r)
  prune_processed-Pruning w asc = elim (Bool-cases (is_empty unprocessed)) [
    | inr some_bad ↦
        let (j, n) = BTreeSet.is_empty_witness unprocessed some_bad in
        prune_processed-refused w j j (ground (arith, contains-unprocessed j))
          (inl (ground (arith, contains-unprocessed j)))
    | inl none_bad ↦ elim (Bool-cases (is_empty dangling)) [
      | inr some_out ↦
          let (p, n) = BTreeSet.is_empty_witness dangling some_out in
          let (j, m, e) =
            BTreeSet.contains-flat_map_elim (parents_of g) keys p
              (ground (arith, contains-dangling p)) in
          prune_processed-refused w p j m (inr (e, ground (arith, contains-dangling p)))
      | inl none_out ↦
          let a : IsPrunable = record {
            ready = λ k m.
                ground
                  (arith, contains-unprocessed k, BTreeSet.is_empty_elim unprocessed k none_bad);
            with_parents = λ p k m e. ground (
              arith,
              contains-dangling p,
              BTreeSet.is_empty_elim dangling p none_out,
              BTreeSet.contains-flat_map_intro (parents_of g) keys k p m,
            );
          } in
          let (g', run, kept, values, marks, edges, pending, roots) = prune_processed_ok w asc a in
          (
            g',
            ok (values_of g keys),
            run,
            kept,
            inl (refl, a, values, marks, edges, pending, roots),
          )
    ]
  ]
