-- ===== src/BlockProducer/Graph/Tests.antt =====
-- A chain of three nodes, as the methods build it, and the theorems at it.
use miden_node.Prelude.{List, ℕ, ◌≡◌, refl, some, [], ◌∷◌}
use mathlib.Core.Path.{subst}
use miden_node.Collections.BTreeSet
use miden_node.Collections.BTreeSet.{BTreeSet, contains, IsAscending}
use miden_node.Collections.BTreeMap
use miden_node.BlockProducer.Graph.{
  Result, GraphError, DependencyGraph, ok, default, insert_pending, promote_pending, process_root,
  revert_subgraphs, prune_processed, purge_subgraphs, link, unlink, unlink_one, try_make_root,
  try_make_roots, revert_loop, prune_loop, prune_one, purge_loop, purge_one,
}
use miden_node.BlockProducer.Graph.WellFormed.{IsWellFormed, default-IsWellFormed}
use miden_node.BlockProducer.Graph.Insert
use miden_node.BlockProducer.Graph.Promote
use miden_node.BlockProducer.Graph.Process
use miden_node.BlockProducer.Graph.Revert
use miden_node.BlockProducer.Graph.Prune
use miden_node.BlockProducer.Graph.Purge

-- All that a run computes with.
program : Unit {0}
unfolding insert_pending promote_pending process_root revert_subgraphs prune_processed
    purge_subgraphs link unlink unlink_one try_make_root try_make_roots revert_loop prune_loop
    prune_one purge_loop purge_one default contains BTreeSet.insert BTreeSet.remove BTreeSet.extend
    BTreeSet.from_iter BTreeSet.difference BTreeMap.get BTreeMap.insert BTreeMap.remove
program = tt

abbrev Numbered : Type 0
Numbered = DependencyGraph ℕ

-- The state after each call.
abbrev built : Numbered
built =
    let a = (insert_pending (default {V = ℕ}) 1 []).0 in
    let b = (promote_pending a 1 10).0 in
    let c = (insert_pending b 2 (1 ∷ [])).0 in
    let d = (promote_pending c 2 20).0 in (insert_pending (process_root d 1).0 3 (2 ∷ [])).0

-- Node 1 is processed, node 2 is a root, and node 3 is pending.
abbrev half : Numbered
half = record {
  pending = 3 ∷ [];
  vertices = (1, 10) ∷ (2, 20) ∷ [];
  parents = (1, []) ∷ (2, 1 ∷ []) ∷ (3, 2 ∷ []) ∷ [];
  children = (1, 2 ∷ []) ∷ (2, 3 ∷ []) ∷ (3, []) ∷ [];
  roots = 2 ∷ [];
  processed = 1 ∷ [];
}

-- Node 2 is processed too.
abbrev chain : Numbered
chain = record half { roots = []; processed = 1 ∷ 2 ∷ [] }

built-half : built ≡ half
unfolding program
built-half = refl

half-chain : (process_root half 2).0 ≡ chain
unfolding program
half-chain = refl

half-IsWellFormed : IsWellFormed half
half-IsWellFormed = subst IsWellFormed built-half (
    Insert.insert_pending-IsWellFormed _ 3 (2 ∷ []) (
      Process.process_root-IsWellFormed _ 1 (
        Promote.promote_pending-IsWellFormed _ 2 20 (
          Insert.insert_pending-IsWellFormed _ 2 (1 ∷ []) (
            Promote.promote_pending-IsWellFormed _ 1 10
              (Insert.insert_pending-IsWellFormed _ 1 [] default-IsWellFormed))))))

chain-IsWellFormed : IsWellFormed chain
chain-IsWellFormed =
    subst IsWellFormed half-chain (Process.process_root-IsWellFormed half 2 half-IsWellFormed)

insert_pending-Insertion_example :
    IsWellFormed (insert_pending chain 4 (2 ∷ 7 ∷ [])).0
    × Insert.Insertion chain 4 (2 ∷ 7 ∷ []) (insert_pending chain 4 (2 ∷ 7 ∷ []))
insert_pending-Insertion_example =
    Insert.insert_pending-Insertion chain 4 (2 ∷ 7 ∷ []) chain-IsWellFormed

promote_pending-Promotion_example :
    IsWellFormed (promote_pending chain 3 30).0
    × Promote.Promotion chain 3 30 (promote_pending chain 3 30)
promote_pending-Promotion_example = Promote.promote_pending-Promotion chain 3 30 chain-IsWellFormed

process_root-Processing_example :
    IsWellFormed (process_root half 2).0 × Process.Processing half 2 (process_root half 2)
process_root-Processing_example = Process.process_root-Processing half 2 half-IsWellFormed

-- The revert makes node 1 a root again, and the others wait.
revert_subgraphs-chain :
    revert_subgraphs chain (1 ∷ []) ≡ some (record chain { roots = 1 ∷ []; processed = [] }, ok tt)
unfolding program
revert_subgraphs-chain = refl

revert_subgraphs-Reversion_example :
    (g' : Numbered) × (r : Result (Unit {0}) GraphError) × (revert_subgraphs chain (1 ∷ [])
      ≡ some (g', r))
    × IsWellFormed g'
    × Revert.Reversion chain (1 ∷ []) (g', r)
unfolding contains
revert_subgraphs-Reversion_example =
    Revert.revert_subgraphs-Reversion chain (1 ∷ []) chain-IsWellFormed (λ y e. cc, tt)

prune_processed-Pruning_example :
    (g' : Numbered) × (r : Result (List ℕ) GraphError) × (prune_processed chain (1 ∷ [])
      ≡ some (g', r))
    × IsWellFormed g'
    × Prune.Pruning chain (1 ∷ []) (g', r)
unfolding contains
prune_processed-Pruning_example =
    Prune.prune_processed-Pruning chain (1 ∷ []) chain-IsWellFormed (λ y e. cc, tt)

purge_subgraphs-Purge_example :
    (g' : Numbered) × (r : Result BTreeSet GraphError) × (purge_subgraphs chain (2 ∷ [])
      ≡ some (g', r))
    × IsWellFormed g'
    × Purge.Purge chain (2 ∷ []) (g', r)
unfolding contains
purge_subgraphs-Purge_example =
    Purge.purge_subgraphs-Purge chain (2 ∷ []) chain-IsWellFormed (λ y e. cc, tt)
