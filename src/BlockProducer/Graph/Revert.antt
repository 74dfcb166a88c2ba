-- ===== src/BlockProducer/Graph/Revert.antt =====
-- `revert_subgraphs`: its effect, its errors, and the invariant.
use miden_node.Prelude.{
  ℕ, ◌≡◌, ◌↔◌, refl, true, false, not, ◌&&◌, ◌⊎◌, [], ◌++◌, arith, Bool-cases, inl, inr, some,
  length, filter, is_empty,
}
use miden_node.Collections.BTreeSet
use miden_node.Collections.BTreeMap
use miden_node.Collections.BTreeMap.{contains_key}
use miden_node.Collections.BTreeSet.{BTreeSet, contains, IsAscending}
use miden_node.BlockProducer.Graph.{
  GraphError, Result, DependencyGraph, unknown_nodes, unprocessed_nodes, ok, err, parents_of, get,
  parents, revert_subgraphs, try_make_roots, all_parents_processed,
}
use miden_node.BlockProducer.Graph.WellFormed.{IsWellFormed, try_make_roots_lem}
use miden_node.BlockProducer.Graph.Descends.{given, child}
use miden_node.BlockProducer.Graph.RevertLoop.{
  IsReverted, Reverting, revert_loop_lem, IsReverted-complete, IsReverted-sound,
}

module _ {ℓ} {V : Type ℓ} (g : DependencyGraph V) (keys : BTreeSet) where
  abbrev unknown : BTreeSet
  unknown = BTreeSet.from_iter (filter (λ k. not (contains_key k g.vertices)) keys)

  abbrev unprocessed : BTreeSet
  unprocessed = BTreeSet.from_iter (BTreeSet.difference keys g.processed)

  contains-unprocessed :
      (k : ℕ) → contains k unprocessed ≡ (not (contains k g.processed) && contains k keys)
  contains-unprocessed k = ground (
    arith,
    BTreeSet.contains-from_iter k (BTreeSet.difference keys g.processed),
    BTreeSet.contains-difference k keys g.processed,
  )

  Reverting-start :
      IsAscending keys
      → ((k : ℕ) → contains k keys ≡ true → contains_key k g.vertices ≡ true)
      → Reverting g keys g.processed keys []
  Reverting-start asc known = record {
    ascending = asc;
    done_eq = λ k. ground (arith, BTreeSet.contains-nil k);
    started = λ k m. ground (arith, BTreeSet.contains-nil k);
    closed = λ p c m. absurd (ground (arith, BTreeSet.contains-nil p));
    fresh = λ k m. BTreeSet.contains-nil k;
    vertex = known;
    sound = λ k m. given (ground (arith, BTreeSet.contains-nil k));
  }

  module _ (done reverted : BTreeSet) (s : Reverting g keys done [] reverted) where
    -- The graph after the loop, with the roots taken out of it.
    abbrev taken : DependencyGraph V
    taken = record g { processed = done; roots = [] }

    all_parents_processed-old :
        (k : ℕ) → all_parents_processed taken k ≡ true → all_parents_processed g k ≡ true
    all_parents_processed-old k h = BTreeSet.all_intro _ (parents_of g k) (λ p m.
        ground
          (arith, s.done_eq p, BTreeSet.all_elim (λ q. contains q done) (parents_of g k) p h m))

    -- A reverted node whose parents are all processed is one of the given nodes.
    given_of_ready :
        IsWellFormed g
        → {k : ℕ} → IsReverted g keys k
        → all_parents_processed taken k ≡ true
        → contains k keys ≡ true
    given_of_ready w (given m) h = m
    given_of_ready w (child {p} {k} d e v) h = absurd (
        ground (
          arith,
          BTreeSet.all_elim (λ q. contains q done) (parents_of g k) p h,
          w.edges p k,
          s.done_eq p,
          IsReverted-complete g keys done reverted s d,
        ))

    reverted-IsWellFormed :
        IsWellFormed g
        → ((k : ℕ) → contains k keys ≡ true → contains_key k g.vertices ≡ true)
        → IsWellFormed (try_make_roots (g.roots ++ keys) taken)
    reverted-IsWellFormed w known =
        let (r, e, h) = try_make_roots_lem (g.roots ++ keys) taken in
        rw e (record {
          disjoint = w.disjoint;
          parents_dom = w.parents_dom;
          children_dom = w.children_dom;
          edges = w.edges;
          no_loop = w.no_loop;
          processed_vertex = λ k m. ground (arith, s.done_eq k, w.processed_vertex k);
          processed_parents = λ p k m n. ground (
            arith,
            s.done_eq k,
            s.done_eq p,
            w.processed_parents p k,
            w.processed_vertex k,
            w.edges p k,
            s.closed p k,
            BTreeSet.contains-nil k,
          );
          roots_ready = λ k. ground (
            arith,
            h k,
            BTreeSet.contains-nil k,
            BTreeSet.contains-append k g.roots keys,
            w.roots_ready k,
            w.disjoint k,
            known k,
            s.done_eq k,
            s.started k,
            all_parents_processed-old k,
            λ (m : contains k reverted ≡ true).
                given_of_ready w (IsReverted-sound g keys done reverted s k m),
          );
        })

  unknown-is_empty :
      ((k : ℕ) → contains k keys ≡ true → contains_key k g.vertices ≡ true)
      → is_empty unknown ≡ true
  unknown-is_empty known = BTreeSet.is_empty_intro unknown (λ k m.
      ground
        (arith, BTreeSet.contains-collect k (λ j. not (contains_key j g.vertices)) keys, known k))

  unprocessed-is_empty :
      ((k : ℕ) → contains k keys ≡ true → contains k g.processed ≡ true)
      → is_empty unprocessed ≡ true
  unprocessed-is_empty ready =
      BTreeSet.is_empty_intro unprocessed (λ k m. ground (arith, contains-unprocessed k, ready k))

  -- On a graph with the invariant, distinct processed nodes are reverted: the call returns,
  -- exactly the processed nodes that are neither given nor descend from the given ones stay
  -- processed, the pending nodes, the values and the parents stay, and the invariant holds.
  pub revert_subgraphs_ok :
      IsWellFormed g
      → IsAscending keys
      → ((k : ℕ) → contains k keys ≡ true → contains k g.processed ≡ true)
      → (g' : DependencyGraph V) × (revert_subgraphs g keys ≡ some (g', ok tt))
        × IsWellFormed g'
        × ((k : ℕ)
            → (contains k g'.processed ≡ true)
              ↔ ((contains k g.processed ≡ true) × (¬ IsReverted g keys k)))
        × (g'.pending ≡ g.pending)
        × ((k : ℕ) → (get g' k ≡ get g k) × (parents g' k ≡ parents g k))
  unfolding revert_subgraphs
  revert_subgraphs_ok w asc ready =
      let known = λ (k : ℕ) (m : contains k keys ≡ true). w.processed_vertex k (ready k m) in
      let (done, reverted, e, s) =
        revert_loop_lem g keys w (length g.vertices) g.processed keys [] (Reverting-start asc known)
          (omega (
            arith,
            BTreeSet.length-difference-le (BTreeMap.keys g.vertices) [],
            BTreeMap.length-keys g.vertices,
          )) in
      let (r, e', h) = try_make_roots_lem (g.roots ++ keys) (taken done reverted s) in
      (
        try_make_roots (g.roots ++ keys) (taken done reverted s),
        rw (unknown-is_empty known, unprocessed-is_empty ready, e),
        reverted-IsWellFormed done reverted s w known,
        λ k. rw e' (
          λ m. (
            ground (arith, s.done_eq k),
            λ d. ground (arith, s.done_eq k, IsReverted-complete g keys done reverted s d),
          ),
          λ m. ground (
            arith,
            s.done_eq k,
            λ (n : contains k reverted ≡ true). m.1 (IsReverted-sound g keys done reverted s k n),
          ),
        ),
        rw e' refl,
        λ k. rw e' (refl, refl),
      )

  -- A call with a node that has no value or is not processed is refused and changes nothing: the
  -- error holds exactly the given nodes without a value, or exactly those that are not processed,
  -- and at least one.
  pub revert_subgraphs_err :
      (j : ℕ)
      → contains j keys ≡ true
      → (contains_key j g.vertices && contains j g.processed) ≡ false
      → (x : BTreeSet) × (k : ℕ) × (contains k x ≡ true)
        × ((revert_subgraphs g keys ≡ some (g, err (unknown_nodes x)))
              × ((i : ℕ) → contains i x ≡ (not (contains_key i g.vertices) && contains i keys))
            ⊎ (revert_subgraphs g keys ≡ some (g, err (unprocessed_nodes x)))
              × ((i : ℕ) → contains i x ≡ (not (contains i g.processed) && contains i keys)))
  unfolding revert_subgraphs
  revert_subgraphs_err j m bad = elim (Bool-cases (is_empty unknown)) [
    | inr e ↦
        let (k, n) = BTreeSet.is_empty_witness unknown e in
        (
          unknown,
          k,
          n,
          inl (rw e, λ i. BTreeSet.contains-collect i (λ j. not (contains_key j g.vertices)) keys),
        )
    | inl e ↦ elim (Bool-cases (is_empty unprocessed)) [
      | inr e' ↦
          let (k, n) = BTreeSet.is_empty_witness unprocessed e' in
          (unprocessed, k, n, inr (rw (e, e'), contains-unprocessed))
      | inl e' ↦ absurd (
          ground (
            arith,
            BTreeSet.is_empty_elim unknown j e,
            BTreeSet.is_empty_elim unprocessed j e',
            contains-unprocessed j,
            BTreeSet.contains-collect j (λ j. not (contains_key j g.vertices)) keys,
          ))
    ]
  ]

  -- How `revert_subgraphs` ends: the given nodes and their processed descendants are processed no
  -- longer; or nothing changes, and the error names nodes that are the reason.
  abbrev pub Reversion : DependencyGraph V × Result (Unit {0}) GraphError → Type ℓ
  Reversion (g', r) =
      (r ≡ ok tt)
        × ((k : ℕ) → contains k keys ≡ true → contains k g.processed ≡ true)
        × ((k : ℕ)
            → (contains k g'.processed ≡ true)
              ↔ ((contains k g.processed ≡ true) × (¬ IsReverted g keys k)))
        × (g'.pending ≡ g.pending)
        × ((k : ℕ) → (get g' k ≡ get g k) × (parents g' k ≡ parents g k))
      ⊎ (g' ≡ g)
        × (x : BTreeSet) × (k : ℕ) × (contains k x ≡ true)
        × ((r ≡ err (unknown_nodes x))
              × ((i : ℕ) → contains i x ≡ (not (contains_key i g.vertices) && contains i keys))
            ⊎ (r ≡ err (unprocessed_nodes x))
              × ((i : ℕ) → contains i x ≡ (not (contains i g.processed) && contains i keys)))

  -- On a graph with the invariant, a call with distinct nodes returns and keeps the invariant. If all
  -- are processed, exactly the processed nodes that are neither given nor descend from the given ones
  -- stay processed, and the pending nodes, the values and the parents stay. Otherwise nothing changes,
  -- and the error holds exactly the given nodes without a value, or exactly those that are not
  -- processed, at least one.
  pub revert_subgraphs-Reversion :
      IsWellFormed g
      → IsAscending keys
      → (g' : DependencyGraph V) × (r : Result (Unit {0}) GraphError) × (revert_subgraphs g keys
          ≡ some (g', r))
        × IsWellFormed g'
        × Reversion (g', r)
  revert_subgraphs-Reversion w asc = elim (Bool-cases (is_empty unprocessed)) [
    | inl none_bad ↦
        let ready = λ (k : ℕ) (m : contains k keys ≡ true).
          let said : contains k g.processed ≡ true =
            ground (arith, contains-unprocessed k, BTreeSet.is_empty_elim unprocessed k none_bad) in
          said in
        let (g', run, kept, processed, pending, rest) = revert_subgraphs_ok w asc ready in
        (g', ok tt, run, kept, inl (refl, ready, processed, pending, rest))
    | inr some_bad ↦
        let (j, n) = BTreeSet.is_empty_witness unprocessed some_bad in
        let given : contains j keys ≡ true = ground (arith, contains-unprocessed j) in
        let (x, k, m, why) =
          revert_subgraphs_err j given (ground (arith, contains-unprocessed j)) in
        elim why [
          | inl (run, all_of) ↦
              (g, err (unknown_nodes x), run, w, inr (refl, x, k, m, inl (refl, all_of)))
          | inr (run, all_of) ↦
              (g, err (unprocessed_nodes x), run, w, inr (refl, x, k, m, inr (refl, all_of)))
        ]
  ]
