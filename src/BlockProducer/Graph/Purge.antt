-- ===== src/BlockProducer/Graph/Purge.antt =====
-- `purge_subgraphs`: its effect, its error, and the invariant.
use miden_node.Prelude.{
  ◌⊎◌, ℕ, ◌≡◌, ◌↔◌, refl, true, false, not, ◌&&◌, [], arith, Bool-cases, inl, inr, some, length,
  filter, is_empty, none, eq_of_implies, if◌then◌else◌,
}
use mathlib.Core.Bool.{So-prop}
use mathlib.Core.Logic.{∥∥₁_elim}
use miden_node.Collections.BTreeSet
use miden_node.Collections.BTreeSet.{BTreeSet, contains, IsAscending}
use miden_node.Collections.BTreeMap
use miden_node.Collections.BTreeMap.{contains_key}
use miden_node.BlockProducer.Graph.{
  GraphError, Result, DependencyGraph, unknown_nodes, ok, err, parents_of, contains_node, get,
  parents, purge_subgraphs, all_parents_processed,
}
use miden_node.BlockProducer.Graph.WellFormed.{IsWellFormed}
use miden_node.BlockProducer.Graph.Descends.{given}
use miden_node.BlockProducer.Graph.PurgeLoop.{
  IsPurged, Purging, purge_loop_lem, removed_complete, removed_sound,
}

module _ {ℓ} {V : Type ℓ} (g : DependencyGraph V) (keys : BTreeSet) where
  abbrev unknown : BTreeSet
  unknown = BTreeSet.from_iter (filter (λ k. not (contains_node g k)) keys)

  Purging-start :
      IsAscending keys
      → ((k : ℕ) → contains k keys ≡ true → contains_node g k ≡ true)
      → Purging g keys g keys []
  unfolding contains
  Purging-start asc known = record {
    ascending = asc;
    vertices = λ k. refl;
    pending = λ k. refl;
    processed = λ k. refl;
    roots = λ k. refl;
    parents = λ k. refl;
    children_dom = λ k. refl;
    children = λ p c. refl;
    started = λ k m. m;
    closed = λ p c m. absurd (cc);
    fresh = λ k m. refl;
    node = known;
    sound = λ k m. given m;
  }

  module _ (h : DependencyGraph V) (removed : BTreeSet) (s : Purging g keys h [] removed)
      (w : IsWellFormed g) where
    -- No node that stays has a parent that is removed.
    parent_stays :
        (p k : ℕ)
        → contains k removed ≡ false
        → contains p (parents_of g k) ≡ true
        → contains p removed ≡ false
    parent_stays p k stays m = ground (arith, s.closed p k, w.edges p k, BTreeSet.contains-nil k)

    all_parents_processed-purged :
        (k : ℕ) → contains k removed ≡ false → all_parents_processed h k ≡ all_parents_processed g k
    all_parents_processed-purged k stays =
        eq_of_implies _ _
          (BTreeSet.all_transfer (λ p. contains p h.processed) (λ p. contains p g.processed)
            (parents_of h k) (parents_of g k)
            (λ p m f. ground (arith, f, s.parents k, s.processed p)))
          (BTreeSet.all_transfer (λ p. contains p g.processed) (λ p. contains p h.processed)
            (parents_of g k) (parents_of h k)
            (λ p m f. ground (arith, f, s.parents k, s.processed p, parent_stays p k)))

    purged-IsWellFormed : IsWellFormed h
    purged-IsWellFormed = record {
      disjoint = λ k m. ground (arith, s.pending k, s.vertices k, w.disjoint k);
      parents_dom = λ k. ground (arith, s.parents k, s.pending k, s.vertices k, w.parents_dom k);
      children_dom =
          λ k. ground (arith, s.children_dom k, s.pending k, s.vertices k, w.children_dom k);
      edges = λ p k. ground (
        arith,
        s.children p k,
        s.parents k,
        w.edges p k,
        parent_stays p k,
        BTreeSet.contains-nil p,
      );
      no_loop = λ k. ground (arith, s.parents k, w.no_loop k, BTreeSet.contains-nil k);
      processed_vertex = λ k m. ground (arith, s.processed k, s.vertices k, w.processed_vertex k);
      processed_parents = λ p k m n. ground (
        arith,
        s.processed k,
        s.processed p,
        s.parents k,
        w.processed_parents p k,
        parent_stays p k,
      );
      roots_ready = λ k. ground (
        arith,
        s.roots k,
        s.vertices k,
        s.processed k,
        w.roots_ready k,
        all_parents_processed-purged k,
      );
    }

  -- On a graph with the invariant, distinct known nodes are purged: the call returns exactly these
  -- nodes and all their descendants, these are gone, the others keep their value, their parents
  -- and whether they are processed, and the invariant holds.
  pub purge_subgraphs_ok :
      IsWellFormed g
      → IsAscending keys
      → ((k : ℕ) → contains k keys ≡ true → contains_node g k ≡ true)
      → (g' : DependencyGraph V) × (removed : BTreeSet) × (purge_subgraphs g keys
          ≡ some (g', ok removed))
        × IsWellFormed g'
        × ((k : ℕ) → (contains k removed ≡ true) ↔ ∥ IsPurged g keys k ∥₁)
        × ((k : ℕ)
            → (contains_node g' k ≡ (not (contains k removed) && contains_node g k))
              × (get g' k ≡ (if contains k removed then none else get g k))
              × (parents g' k ≡ (if contains k removed then none else parents g k))
              × (contains k g'.processed ≡ (not (contains k removed) && contains k g.processed)))
  unfolding purge_subgraphs
  purge_subgraphs_ok w asc known =
      let none_unknown = BTreeSet.is_empty_intro unknown (λ k m.
        ground (arith, BTreeSet.contains-collect k (λ j. not (contains_node g j)) keys, known k)) in
      let (h, removed, run, s) =
        purge_loop_lem g keys w (length g.children) g keys [] (Purging-start asc known) (
          omega (
            arith,
            BTreeSet.length-difference-le (BTreeMap.keys g.children) [],
            BTreeMap.length-keys g.children,
          )) in
      (
        h,
        removed,
        rw (none_unknown, run),
        purged-IsWellFormed h removed s w,
        λ k. (
          λ m. ∣ removed_sound g keys h removed s k m ∣₁,
          λ d. ∥∥₁_elim d (So-prop _) (removed_complete g keys h removed s),
        ),
        λ k. (ground (arith, s.pending k, s.vertices k), s.vertices k, s.parents k, s.processed k),
      )

  -- A call with an unknown node is refused and changes nothing: the error holds exactly the
  -- unknown nodes.
  pub purge_subgraphs_err :
      (j : ℕ)
      → contains j keys ≡ true
      → contains_node g j ≡ false
      → (x : BTreeSet) × (purge_subgraphs g keys ≡ some (g, err (unknown_nodes x)))
        × ((i : ℕ) → contains i x ≡ (not (contains_node g i) && contains i keys))
  unfolding purge_subgraphs
  purge_subgraphs_err j m bad = elim (Bool-cases (is_empty unknown)) [
    | inr e ↦ (unknown, rw e, λ i. BTreeSet.contains-collect i (λ j. not (contains_node g j)) keys)
    | inl e ↦ absurd (
        ground (
          arith,
          BTreeSet.is_empty_elim unknown j e,
          BTreeSet.contains-collect j (λ j. not (contains_node g j)) keys,
        ))
  ]

  -- How `purge_subgraphs` ends: the given nodes and their descendants are gone; or nothing changes,
  -- and the error names the unknown nodes.
  abbrev pub Purge : DependencyGraph V × Result BTreeSet GraphError → Type ℓ
  Purge (g', r) =
      ((removed : BTreeSet) × (r ≡ ok removed)
        × ((k : ℕ) → contains k keys ≡ true → contains_node g k ≡ true)
        × ((k : ℕ) → (contains k removed ≡ true) ↔ ∥ IsPurged g keys k ∥₁)
        × ((k : ℕ)
            → (contains_node g' k ≡ (not (contains k removed) && contains_node g k))
              × (get g' k ≡ (if contains k removed then none else get g k))
              × (parents g' k ≡ (if contains k removed then none else parents g k))
              × (contains k g'.processed ≡ (not (contains k removed) && contains k g.processed))))
      ⊎ (g' ≡ g)
        × (x : BTreeSet) × (k : ℕ) × (contains k x ≡ true)
        × (r ≡ err (unknown_nodes x))
        × ((i : ℕ) → contains i x ≡ (not (contains_node g i) && contains i keys))

  -- On a graph with the invariant, a call with distinct nodes returns and keeps the invariant. If all
  -- are known, it returns exactly these nodes and all their descendants, these are gone, and the others
  -- keep their value, their parents and whether they are processed. Otherwise nothing changes, and the
  -- error holds exactly the unknown nodes, at least one.
  pub purge_subgraphs-Purge :
      IsWellFormed g
      → IsAscending keys
      → (g' : DependencyGraph V) × (r : Result BTreeSet GraphError) × (purge_subgraphs g keys
          ≡ some (g', r))
        × IsWellFormed g'
        × Purge (g', r)
  purge_subgraphs-Purge w asc =
      let asked = λ (k : ℕ). BTreeSet.contains-collect k (λ j. not (contains_node g j)) keys in
      elim (Bool-cases (is_empty unknown)) [
        | inl none_bad ↦
            let known = λ (k : ℕ) (m : contains k keys ≡ true).
              let said : contains_node g k ≡ true =
                ground (arith, asked k, BTreeSet.is_empty_elim unknown k none_bad) in
              said in
            let (g', removed, run, kept, exactly, rest) = purge_subgraphs_ok w asc known in
            (g', ok removed, run, kept, inl (removed, refl, known, exactly, rest))
        | inr some_bad ↦
            let (j, n) = BTreeSet.is_empty_witness unknown some_bad in
            let given : contains j keys ≡ true = ground (arith, asked j) in
            let (x, run, all_of) = purge_subgraphs_err j given (ground (arith, asked j)) in
            let unknown_one : contains j x ≡ true = ground (arith, all_of j, asked j, given) in
            (g, err (unknown_nodes x), run, w, inr (refl, x, j, unknown_one, refl, all_of))
      ]
