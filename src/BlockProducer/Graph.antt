-- ===== src/BlockProducer/Graph.antt =====
-- The dependency graph of crates/block-producer/src/mempool/graph/mod.rs, with the method names of
-- `DependencyGraph`. A key is a number. A method takes the graph and returns it changed beside its
-- result; a method with a `while` loop or a panic returns an `Option`, where `none` is a loop that
-- used up its rounds or a panic.
pub mod WellFormed
pub mod Insert
pub mod Promote
pub mod Process
pub mod Descends
pub mod RevertLoop
pub mod Revert
pub mod PruneLoop
pub mod Prune
pub mod PurgeLoop
pub mod Purge
mod Tests
use miden_node.Prelude.{
  ℕ, zero, suc, Bool, not, ◌||◌, Option, none, some, List, [], ◌∷◌, ◌++◌, if◌then◌else◌, filter,
  is_empty, all, length, flat_map,
}
pub use miden_node.Prelude.{Result, ok, err}
use miden_node.Collections.BTreeSet
use miden_node.Collections.BTreeSet.{BTreeSet, contains}
use miden_node.Collections.BTreeMap
use miden_node.Collections.BTreeMap.{BTreeMap, contains_key}

pub data GraphError : Type 0 where
  duplicate_key : ℕ → GraphError
  missing_parents : BTreeSet → GraphError
  unknown_nodes : BTreeSet → GraphError
  unprocessed_nodes : BTreeSet → GraphError
  dangling_nodes : BTreeSet → GraphError
  invalid_root_node : ℕ → GraphError
  invalid_pending_node : ℕ → GraphError

pub record DependencyGraph {ℓ} (V : Type ℓ) : Type ℓ where
  pub pending : BTreeSet
  pub vertices : BTreeMap V
  pub parents : BTreeMap BTreeSet
  pub children : BTreeMap BTreeSet
  pub roots : BTreeSet
  pub processed : BTreeSet

-- `unwrap_or_default` of a looked up set.
abbrev pub or_default : Option BTreeSet → BTreeSet
or_default none = []
or_default (some s) = s

abbrev pub parents_of {ℓ} : {V : Type ℓ} → DependencyGraph V → ℕ → BTreeSet
parents_of g k = or_default (BTreeMap.get k g.parents)

abbrev pub children_of {ℓ} : {V : Type ℓ} → DependencyGraph V → ℕ → BTreeSet
children_of g k = or_default (BTreeMap.get k g.children)

-- `get_mut(&p)` and, on an entry, the removal of `key` from it.
unfoldable pub unlink_one : ℕ → ℕ → BTreeMap BTreeSet → BTreeMap BTreeSet
unlink_one key p m = elim (BTreeMap.get p m) [
  | none ↦ m
  | some s ↦ BTreeMap.insert p (BTreeSet.remove key s) m
]

unfoldable pub unlink : ℕ → List ℕ → BTreeMap BTreeSet → BTreeMap BTreeSet
unlink key [] m = m
unlink key (p ∷ ps) m = unlink key ps (unlink_one key p m)

-- `for parent in &parents`: the parents are informed of their new child.
unfoldable pub link : ℕ → List ℕ → BTreeMap BTreeSet → BTreeMap BTreeSet
link key [] m = m
link key (p ∷ ps) m =
    link key ps (BTreeMap.insert p (BTreeSet.insert key (or_default (BTreeMap.get p m))) m)

module _ {ℓ} {V : Type ℓ} where
  unfoldable pub default : DependencyGraph V
  default = record {
    pending = [];
    vertices = [];
    parents = [];
    children = [];
    roots = [];
    processed = [];
  }

  -- `contains`
  abbrev pub contains_node : DependencyGraph V → ℕ → Bool
  contains_node g key = contains key g.pending || contains_key key g.vertices

  unfoldable pub insert_pending :
      DependencyGraph V → ℕ → BTreeSet → DependencyGraph V × Result (Unit {0}) GraphError
  unfolding BTreeSet.from_iter link
  insert_pending g key parents =
      let missing = BTreeSet.from_iter (filter (λ p. not (contains_node g p)) parents) in
      if contains_node g key
      then (g, err (duplicate_key key))
      else if not (is_empty missing)
      then (g, err (missing_parents missing))
      else (
        record g {
          children = BTreeMap.insert key [] (link key parents g.children);
          pending = BTreeSet.insert key g.pending;
          parents = BTreeMap.insert key parents g.parents;
        },
        ok tt,
      )

  -- The test of `try_make_root`.
  abbrev pub all_parents_processed : DependencyGraph V → ℕ → Bool
  all_parents_processed g key = all (λ p. contains p g.processed) (parents_of g key)

  unfoldable pub try_make_root : ℕ → DependencyGraph V → DependencyGraph V
  try_make_root key g =
      if contains key g.pending
      then g
      else if all_parents_processed g key
      then record g { roots = BTreeSet.insert key g.roots }
      else g

  -- `for_each(|key| self.try_make_root(key))`
  unfoldable pub try_make_roots : List ℕ → DependencyGraph V → DependencyGraph V
  try_make_roots [] g = g
  try_make_roots (k ∷ ks) g = try_make_roots ks (try_make_root k g)

  unfoldable pub promote_pending :
      DependencyGraph V → ℕ → V → DependencyGraph V × Result (Unit {0}) GraphError
  promote_pending g key value =
      let g' = record g { pending = BTreeSet.remove key g.pending } in
      if not (contains key g.pending) then (g', err (invalid_pending_node key)) else (
        try_make_root key (record g' { vertices = BTreeMap.insert key value g.vertices }),
        ok tt,
      )

  unfoldable pub process_root :
      DependencyGraph V → ℕ → DependencyGraph V × Result (Unit {0}) GraphError
  process_root g key =
      let g' = record g { roots = BTreeSet.remove key g.roots } in
      if not (contains key g.roots) then (g', err (invalid_root_node key)) else (
        try_make_roots (children_of g key)
            (record g' { processed = BTreeSet.insert key g.processed }),
        ok tt,
      )

  -- The `while` loop of `revert_subgraphs`: the graph, the nodes to revert and the reverted ones.
  unfoldable pub revert_loop :
      ℕ → DependencyGraph V → BTreeSet → BTreeSet → Option (DependencyGraph V × BTreeSet)
  revert_loop zero g [] reverted = some (g, reverted)
  revert_loop zero g (key ∷ to_revert) reverted = none
  revert_loop (suc fuel) g [] reverted = some (g, reverted)
  revert_loop (suc fuel) g (key ∷ to_revert) reverted =
      let unprocessed_children =
        filter (λ c. contains_key c g.vertices)
          (BTreeSet.difference (children_of g key) reverted) in
      revert_loop fuel (record g { processed = BTreeSet.remove key g.processed })
        (BTreeSet.extend to_revert unprocessed_children) (BTreeSet.insert key reverted)

  unfoldable pub revert_subgraphs :
      DependencyGraph V → BTreeSet → Option (DependencyGraph V × Result (Unit {0}) GraphError)
  unfolding BTreeSet.from_iter
  revert_subgraphs g keys =
      let missing = BTreeSet.from_iter (filter (λ k. not (contains_key k g.vertices)) keys) in
      let unprocessed = BTreeSet.from_iter (BTreeSet.difference keys g.processed) in
      if not (is_empty missing)
      then some (g, err (unknown_nodes missing))
      else if not (is_empty unprocessed)
      then some (g, err (unprocessed_nodes unprocessed))
      else elim (revert_loop (length g.vertices) g keys []) [
        | none ↦ none
        | some (g', reverted) ↦
            some (try_make_roots (g'.roots ++ keys) (record g' { roots = [] }), ok tt)
      ]

  -- The body of the last loop of `prune_processed`, behind the removal of the value.
  unfoldable pub prune_one : ℕ → DependencyGraph V → DependencyGraph V
  prune_one key g = record g {
    vertices = BTreeMap.remove key g.vertices;
    processed = BTreeSet.remove key g.processed;
    parents = unlink key (children_of g key) (BTreeMap.remove key g.parents);
    children = BTreeMap.remove key g.children;
  }

  unfoldable pub prune_loop :
      List ℕ → DependencyGraph V → List V → Option (DependencyGraph V × List V)
  prune_loop [] g pruned = some (g, pruned)
  prune_loop (key ∷ keys) g pruned = elim (BTreeMap.get key g.vertices) [
    | none ↦ none
    | some value ↦ prune_loop keys (prune_one key g) (pruned ++ value ∷ [])
  ]

  unfoldable pub prune_processed :
      DependencyGraph V → BTreeSet → Option (DependencyGraph V × Result (List V) GraphError)
  unfolding BTreeSet.from_iter
  prune_processed g keys =
      let missing = BTreeSet.from_iter (filter (λ k. not (contains_node g k)) keys) in
      let unprocessed = BTreeSet.from_iter (BTreeSet.difference keys g.processed) in
      let dangling =
        BTreeSet.from_iter (filter (λ p. not (contains p keys)) (flat_map (parents_of g) keys)) in
      if not (is_empty missing)
      then some (g, err (unknown_nodes missing))
      else if not (is_empty unprocessed)
      then some (g, err (unprocessed_nodes unprocessed))
      else if not (is_empty dangling)
      then some (g, err (dangling_nodes dangling))
      else elim (prune_loop keys g []) [ none ↦ none | some (g', pruned) ↦ some (g', ok pruned) ]

  -- One round of the `while` loop of `purge_subgraphs`: the graph without `key`.
  unfoldable pub purge_one : ℕ → DependencyGraph V → DependencyGraph V
  purge_one key g = record g {
    vertices = BTreeMap.remove key g.vertices;
    pending = BTreeSet.remove key g.pending;
    processed = BTreeSet.remove key g.processed;
    roots = BTreeSet.remove key g.roots;
    children = unlink key (parents_of g key) (BTreeMap.remove key g.children);
    parents = BTreeMap.remove key g.parents;
  }

  unfoldable pub purge_loop :
      ℕ → BTreeSet → DependencyGraph V → BTreeSet → BTreeSet → Option (DependencyGraph V × BTreeSet)
  purge_loop zero visited g [] removed = some (g, removed)
  purge_loop zero visited g (key ∷ to_remove) removed = none
  purge_loop (suc fuel) visited g [] removed = some (g, removed)
  purge_loop (suc fuel) visited g (key ∷ to_remove) removed =
      purge_loop fuel visited (purge_one key g)
        (BTreeSet.extend to_remove (BTreeSet.difference (children_of g key) visited))
        (BTreeSet.insert key removed)

  unfoldable pub purge_subgraphs :
      DependencyGraph V → BTreeSet → Option (DependencyGraph V × Result BTreeSet GraphError)
  unfolding BTreeSet.from_iter
  purge_subgraphs g keys =
      let missing = BTreeSet.from_iter (filter (λ k. not (contains_node g k)) keys) in
      if not (is_empty missing)
      then some (g, err (unknown_nodes missing))
      else elim (purge_loop (length g.children) keys g keys []) [
        | none ↦ none
        | some (g', removed) ↦ some (g', ok removed)
      ]

  -- The lookups and the counts.
  abbrev pub get : DependencyGraph V → ℕ → Option V
  get g key = BTreeMap.get key g.vertices

  abbrev pub parents : DependencyGraph V → ℕ → Option BTreeSet
  parents g key = BTreeMap.get key g.parents

  abbrev pub num_pending : DependencyGraph V → ℕ
  num_pending g = length g.pending

  abbrev pub num_processed : DependencyGraph V → ℕ
  num_processed g = length g.processed

  abbrev pub len : DependencyGraph V → ℕ
  len g = length g.vertices

  abbrev pub num_roots : DependencyGraph V → ℕ
  num_roots g = length g.roots
