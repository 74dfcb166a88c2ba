-- ===== src/BlockProducer/Graph/PruneLoop.antt =====
-- The last loop of `prune_processed`: what a round does, and the whole loop.
use miden_node.Prelude.{
  ℕ, ◌≡◌, refl, true, false, not, ◌&&◌, List, [], ◌∷◌, ◌++◌, ◌∙◌, arith, inl, inr, some, none,
  Option-cases, if◌then◌else◌,
}
use mathlib.Core.List.{append-nil, append_assoc}
use miden_node.Collections.BTreeSet
use miden_node.Collections.BTreeSet.{BTreeSet, contains, IsAscending}
use miden_node.Collections.BTreeMap
use miden_node.Collections.BTreeMap.{contains_key}
use miden_node.BlockProducer.Graph.{
  DependencyGraph, parents_of, children_of, get, prune_one, prune_loop,
}
use miden_node.BlockProducer.Graph.WellFormed.{contains-unlink, contains_key-unlink}

module _ {ℓ} {V : Type ℓ} where
  -- The values of the listed nodes, in order.
  pub values_of : DependencyGraph V → List ℕ → List V
  values_of g [] = []
  values_of g (k ∷ ks) =
      let rest = values_of g ks in elim (get g k) [ none ↦ rest | some v ↦ v ∷ rest ]

  values_of-congr :
      (g h : DependencyGraph V) (ks : List ℕ)
      → ((k : ℕ) → contains k ks ≡ true → get g k ≡ get h k)
      → values_of g ks ≡ values_of h ks
  unfolding values_of
  values_of-congr g h [] same = refl
  values_of-congr g h (k ∷ ks) same = ground (
    arith,
    same k,
    BTreeSet.contains-cons k k ks,
    values_of-congr g h ks (λ j m. same j (ground (arith, BTreeSet.contains-cons j k ks))),
  )

  -- `g'` is `g` without the nodes `keys`.
  pub record IsPruned (g g' : DependencyGraph V) (keys : BTreeSet) : Type ℓ where
    pub pending : g'.pending ≡ g.pending
    pub roots : g'.roots ≡ g.roots
    pub vertices : (k : ℕ) → get g' k ≡ (if contains k keys then none else get g k)
    pub processed :
        (k : ℕ) → contains k g'.processed ≡ (not (contains k keys) && contains k g.processed)
    pub parents_dom :
        (k : ℕ) → contains_key k g'.parents ≡ (not (contains k keys) && contains_key k g.parents)
    pub children :
        (k : ℕ)
        → BTreeMap.get k g'.children ≡ (if contains k keys then none else BTreeMap.get k g.children)
    pub parents :
        (p k : ℕ)
        → contains p (parents_of g' k) ≡ (
            not (contains k keys)
            && (contains p (parents_of g k)
                && not (contains p keys && contains k (children_of g p))))

  prune_one-IsPruned : (g : DependencyGraph V) (key : ℕ) → IsPruned g (prune_one key g) (key ∷ [])
  unfolding prune_one contains
  prune_one-IsPruned g key = record {
    pending = refl;
    roots = refl;
    vertices = λ k. ground (arith, BTreeMap.get-remove k key g.vertices);
    processed = λ k. ground (arith, BTreeSet.contains-remove k key g.processed);
    parents_dom = λ k. ground (
      arith,
      BTreeMap.get-remove k key g.parents,
      contains_key-unlink key (children_of g key) (BTreeMap.remove key g.parents) k,
    );
    children = λ k. ground (arith, BTreeMap.get-remove k key g.children);
    parents = λ p k. ground (
      arith,
      BTreeMap.get-remove k key g.parents,
      contains-unlink key (children_of g key) (BTreeMap.remove key g.parents) k p,
      BTreeSet.contains-nil p,
    );
  }

  IsPruned-nil : (g : DependencyGraph V) → IsPruned g g []
  unfolding contains
  IsPruned-nil g = record {
    pending = refl;
    roots = refl;
    vertices = λ k. refl;
    processed = λ k. refl;
    parents_dom = λ k. refl;
    children = λ k. refl;
    parents = λ p k. ground arith;
  }

  get-prune_one :
      (g : DependencyGraph V) (key k : ℕ) (keys : BTreeSet)
      → contains key keys ≡ false
      → contains k keys ≡ true
      → get (prune_one key g) k ≡ get g k
  get-prune_one g key k keys new m = ground (
    arith,
    (prune_one-IsPruned g key).vertices k,
    BTreeSet.contains-cons k key [],
    BTreeSet.contains-nil k,
  )

  IsPruned-cons :
      (g g' g'' : DependencyGraph V) (key : ℕ) (keys : BTreeSet)
      → contains key keys ≡ false
      → IsPruned g g' (key ∷ [])
      → IsPruned g' g'' keys
      → IsPruned g g'' (key ∷ keys)
  IsPruned-cons g g' g'' key keys new a b =
      let one = λ (k : ℕ). BTreeSet.contains-cons k key [] in
      let more = λ (k : ℕ). BTreeSet.contains-cons k key keys in
      let none_left = BTreeSet.contains-nil in
      record {
        pending = b.pending ∙ a.pending;
        roots = b.roots ∙ a.roots;
        vertices = λ k. ground (arith, a.vertices k, b.vertices k, one k, more k, none_left k);
        processed = λ k. ground (arith, a.processed k, b.processed k, one k, more k, none_left k);
        parents_dom =
            λ k. ground (arith, a.parents_dom k, b.parents_dom k, one k, more k, none_left k);
        children = λ k. ground (arith, a.children k, b.children k, one k, more k, none_left k);
        parents = λ p k. ground (
          arith,
          a.parents p k,
          b.parents p k,
          a.children p,
          one k,
          more k,
          none_left k,
          one p,
          more p,
          none_left p,
        );
      }

  prune_loop-cons :
      (g : DependencyGraph V) (key : ℕ) (keys : BTreeSet) (pruned : List V) {v : V}
      → get g key ≡ some v
      → prune_loop (key ∷ keys) g pruned ≡ prune_loop keys (prune_one key g) (pruned ++ v ∷ [])
  unfolding prune_loop
  prune_loop-cons g key keys pruned e = rw (e, prune_loop)

  values_of-cons :
      (g : DependencyGraph V) (key : ℕ) (keys : BTreeSet) {v : V}
      → get g key ≡ some v
      → values_of g (key ∷ keys) ≡ v ∷ values_of g keys
  unfolding values_of
  values_of-cons g key keys e = rw (e, values_of)

  -- Distinct nodes with values are pruned, and their values are returned in order.
  pub prune_loop_lem :
      (keys : BTreeSet) (g : DependencyGraph V) (pruned : List V)
      → IsAscending keys
      → ((k : ℕ) → contains k keys ≡ true → contains_key k g.vertices ≡ true)
      → (g' : DependencyGraph V) × (prune_loop keys g pruned
          ≡ some (g', pruned ++ values_of g keys))
        × IsPruned g g' keys
  unfolding prune_loop values_of
  prune_loop_lem [] g pruned asc known = (g, rw append-nil, IsPruned-nil g)
  prune_loop_lem (key ∷ keys) g pruned asc known = elim (Option-cases (get g key)) [
    | inl gone ↦ absurd (ground (arith, known key, BTreeSet.contains-cons key key keys))
    | inr (v, e) ↦
        let new = BTreeSet.head-fresh key keys asc in
        let (g', run, p) = prune_loop_lem keys (prune_one key g) (pruned ++ v ∷ []) asc.1 (λ k m.
          ground (
            arith,
            known k,
            BTreeSet.contains-cons k key keys,
            get-prune_one g key k keys new m,
          )) in
        let values =
          values_of-congr (prune_one key g) g keys (λ k m. get-prune_one g key k keys new m) in
        (
          g',
          prune_loop-cons g key keys pruned e
              ∙ run
              ∙ rw (values_of-cons g key keys e, append_assoc, values),
          IsPruned-cons g (prune_one key g) g' key keys new (prune_one-IsPruned g key) p,
        )
  ]
