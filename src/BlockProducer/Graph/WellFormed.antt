-- ===== src/BlockProducer/Graph/WellFormed.antt =====
-- What a dependency graph keeps between the method calls, and the facts on its loops over edges.
use miden_node.Prelude.{
  ℕ, ◌≡◌, refl, Bool, true, false, not, ◌&&◌, ◌||◌, List, [], ◌∷◌, arith, ◌==◌, ◌∙◌, Option-cases,
  Bool-cases, inl, inr,
}
use miden_node.Collections.BTreeSet
use miden_node.Collections.BTreeSet.{BTreeSet, contains}
use miden_node.Collections.BTreeMap
use miden_node.Collections.BTreeMap.{BTreeMap, contains_key}
use miden_node.BlockProducer.Graph.{
  default, DependencyGraph, or_default, parents_of, children_of, unlink_one, unlink, link,
  contains_node, try_make_root, try_make_roots, all_parents_processed,
}

-- The documented set of roots: unprocessed nodes with a value whose parents are all processed.
abbrev pub is_ready {ℓ} : {V : Type ℓ} → DependencyGraph V → ℕ → Bool
is_ready g k =
    contains_key k g.vertices && (not (contains k g.processed) && all_parents_processed g k)

pub record IsWellFormed {ℓ} {V : Type ℓ} (g : DependencyGraph V) : Type ℓ where
  -- A pending node has no value yet.
  pub disjoint : (k : ℕ) → contains k g.pending ≡ true → contains_key k g.vertices ≡ false
  -- Exactly the nodes have an entry for their parents, and for their children.
  pub parents_dom : (k : ℕ) → contains_key k g.parents ≡ contains_node g k
  pub children_dom : (k : ℕ) → contains_key k g.children ≡ contains_node g k
  -- The two indices hold the same edges, and no node is its own parent.
  pub edges : (p k : ℕ) → contains k (children_of g p) ≡ contains p (parents_of g k)
  pub no_loop : (k : ℕ) → contains k (parents_of g k) ≡ false
  -- A processed node has a value, and all its parents are processed.
  pub processed_vertex : (k : ℕ) → contains k g.processed ≡ true → contains_key k g.vertices ≡ true
  pub processed_parents :
      (p k : ℕ)
      → contains k g.processed ≡ true
      → contains p (parents_of g k) ≡ true
      → contains p g.processed ≡ true
  -- The roots are the nodes that are ready.
  pub roots_ready : (k : ℕ) → contains k g.roots ≡ is_ready g k

-- The entry of `p` after the loops over edges.
pub contains-link :
    (key : ℕ) (ps : List ℕ) (m : BTreeMap BTreeSet) (p k : ℕ)
    → contains k (or_default (BTreeMap.get p (link key ps m)))
      ≡ (contains p ps && k == key || contains k (or_default (BTreeMap.get p m)))
unfolding link contains
contains-link key [] m p k = refl
contains-link key (q ∷ ps) m p k =
    let s = or_default (BTreeMap.get q m) in
    ground (
      arith,
      contains-link key ps (BTreeMap.insert q (BTreeSet.insert key s) m) p k,
      BTreeMap.get-insert p q (BTreeSet.insert key s) m,
      BTreeSet.contains-insert k key s,
    )

pub contains_key-link :
    (key : ℕ) (ps : List ℕ) (m : BTreeMap BTreeSet) (p : ℕ)
    → contains_key p (link key ps m) ≡ (contains p ps || contains_key p m)
unfolding link contains
contains_key-link key [] m p = refl
contains_key-link key (q ∷ ps) m p =
    let s = or_default (BTreeMap.get q m) in
    ground (
      arith,
      contains_key-link key ps (BTreeMap.insert q (BTreeSet.insert key s) m) p,
      BTreeMap.get-insert p q (BTreeSet.insert key s) m,
    )

contains-unlink_one :
    (key q : ℕ) (m : BTreeMap BTreeSet) (p k : ℕ)
    → contains k (or_default (BTreeMap.get p (unlink_one key q m)))
      ≡ (not (p == q && k == key) && contains k (or_default (BTreeMap.get p m)))
unfolding unlink_one
contains-unlink_one key q m p k = elim (Option-cases (BTreeMap.get q m)) [
  | inl gone ↦ rw (gone, unlink_one) (ground (arith, BTreeSet.contains-nil k))
  | inr (s, e) ↦
      rw (e, unlink_one)
        (ground (
          arith,
          BTreeMap.get-insert p q (BTreeSet.remove key s) m,
          BTreeSet.contains-remove k key s,
        ))
]

contains_key-unlink_one :
    (key q : ℕ) (m : BTreeMap BTreeSet) (p : ℕ)
    → contains_key p (unlink_one key q m) ≡ contains_key p m
unfolding unlink_one
contains_key-unlink_one key q m p = elim (Option-cases (BTreeMap.get q m)) [
  | inl gone ↦ rw (gone, unlink_one)
  | inr (s, e) ↦
      rw (e, unlink_one) (ground (arith, BTreeMap.get-insert p q (BTreeSet.remove key s) m))
]

pub contains-unlink :
    (key : ℕ) (ps : List ℕ) (m : BTreeMap BTreeSet) (p k : ℕ)
    → contains k (or_default (BTreeMap.get p (unlink key ps m)))
      ≡ (not (contains p ps && k == key) && contains k (or_default (BTreeMap.get p m)))
unfolding unlink contains
contains-unlink key [] m p k = refl
contains-unlink key (q ∷ ps) m p k =
    ground (arith, contains-unlink key ps (unlink_one key q m) p k, contains-unlink_one key q m p k)

pub contains_key-unlink :
    (key : ℕ) (ps : List ℕ) (m : BTreeMap BTreeSet) (p : ℕ)
    → contains_key p (unlink key ps m) ≡ contains_key p m
unfolding unlink
contains_key-unlink key [] m p = refl
contains_key-unlink key (q ∷ ps) m p =
    contains_key-unlink key ps (unlink_one key q m) p ∙ contains_key-unlink_one key q m p

module _ {ℓ} {V : Type ℓ} where
  pub try_make_root_lem :
      (key : ℕ) (g : DependencyGraph V)
      → (r : BTreeSet) × (try_make_root key g ≡ record g { roots = r })
        × ((k : ℕ)
            → contains k r ≡ (
                contains k g.roots
                || (k == key && (not (contains k g.pending) && all_parents_processed g k))))
  unfolding try_make_root
  try_make_root_lem key g = elim (Bool-cases (contains key g.pending)) [
    | inl p ↦ (g.roots, ground arith, λ k. ground arith)
    | inr p ↦ elim (Bool-cases (all_parents_processed g key)) [
      | inl a ↦ (
        BTreeSet.insert key g.roots,
        ground arith,
        λ k. ground (arith, BTreeSet.contains-insert k key g.roots),
      )
      | inr a ↦ (g.roots, ground arith, λ k. ground arith)
    ]
  ]

  -- Only the roots change, and they gain the listed nodes that pass the test.
  pub try_make_roots_lem :
      (ks : List ℕ) (g : DependencyGraph V)
      → (r : BTreeSet) × (try_make_roots ks g ≡ record g { roots = r })
        × ((k : ℕ)
            → contains k r ≡ (
                contains k g.roots
                || (contains k ks && (not (contains k g.pending) && all_parents_processed g k))))
  unfolding try_make_roots contains
  try_make_roots_lem [] g = (g.roots, refl, λ k. ground arith)
  try_make_roots_lem (key ∷ ks) g =
      let (r, e, h) = try_make_root_lem key g in
      let (r', e', h') = try_make_roots_lem ks (record g { roots = r }) in
      (r', rw e e', λ k. ground (arith, h k, h' k))

-- The empty graph is well-formed.
pub default-IsWellFormed {ℓ} : {V : Type ℓ} → IsWellFormed (default {V = V})
unfolding default BTreeMap.get contains
default-IsWellFormed = record {
  disjoint = λ k m. cc;
  parents_dom = λ k. refl;
  children_dom = λ k. refl;
  edges = λ p k. refl;
  no_loop = λ k. refl;
  processed_vertex = λ k m. cc;
  processed_parents = λ p k m. cc;
  roots_ready = λ k. refl;
}
