-- ===== src/BlockProducer/BatchGraph/Tests.antt =====
-- The insertion of batches whose identifiers are the first transaction's plus 100.
use miden_node.Prelude.{
  ℕ, ◌≡◌, ◌⊎◌, some, List, [], ◌∷◌, ◌+◌, ◌==◌, ◌||◌, if◌then◌else◌, refl, true, arith,
}
use miden_node.Collections.BTreeSet
use miden_node.Collections.BTreeSet.{BTreeSet, contains}
use miden_node.Collections.BTreeMap
use miden_node.Collections.BTreeMap.{contains_key}
use miden_node.BlockProducer.Graph
use miden_node.BlockProducer.Graph.{ok, err}
use miden_node.BlockProducer.Graph.WellFormed.{IsWellFormed, default-IsWellFormed}
use miden_node.BlockProducer.BatchGraph
use miden_node.BlockProducer.BatchGraph.{
  BatchGraph, BatchInsertError, insert, ids, get_transactions, duplicate_transactions, insert_batch,
  without, parent_batches, assign,
}
use miden_node.BlockProducer.Graph.Insert.{insert_pending-IsWellFormed}
use miden_node.BlockProducer.BatchGraph.Refusal.{IsInsertable, Explains, insert-Explains}
use miden_node.BlockProducer.BatchGraph.Insert.{insert_lem, outer_batches}

abbrev name_of : List (ℕ × ℕ) → ℕ
name_of [] = 100
name_of ((tx, _) ∷ txs) = tx + 100

abbrev none_yet : BatchGraph ℕ
none_yet = BatchGraph.default

insert_lem_example :
    (g' : BatchGraph ℕ) × (insert name_of none_yet ((1, 5) ∷ (2, 6) ∷ []) (1 ∷ []) ≡ (g', ok 101))
    × IsWellFormed g'.inner
    × (Graph.parents g'.inner 101
        ≡ some (outer_batches name_of none_yet ((1, 5) ∷ (2, 6) ∷ []) (1 ∷ [])))
    × (contains 101 g'.inner.pending ≡ true)
    × ((b : ℕ)
        → Graph.contains_node g'.inner b ≡ (b == 101 || Graph.contains_node none_yet.inner b))
    × (get_transactions g' 101 ≡ some (1 ∷ 2 ∷ []))
    × ((t : ℕ)
        → BTreeMap.get t g'.transactions
          ≡ (if contains t (1 ∷ 2 ∷ []) then some 101 else BTreeMap.get t none_yet.transactions))
unfolding BatchGraph.default Graph.default contains BTreeMap.get without BTreeSet.remove
    BTreeSet.extend
insert_lem_example =
    insert_lem name_of none_yet ((1, 5) ∷ (2, 6) ∷ []) (1 ∷ []) default-IsWellFormed (λ t m. refl)
      (λ t m n. ground arith) refl (λ b m. cc)

-- With the batch of transaction 1.
abbrev one_batch : BatchGraph ℕ
one_batch = (insert name_of none_yet ((1, 5) ∷ []) []).0

one_batch-IsWellFormed : IsWellFormed one_batch.inner
unfolding insert insert_batch without parent_batches BTreeSet.from_iter Graph.insert_pending
    BTreeMap.get contains BatchGraph.default Graph.default BTreeSet.remove
one_batch-IsWellFormed = insert_pending-IsWellFormed _ 101 [] default-IsWellFormed

insert-Explains_example :
    ((g' : BatchGraph ℕ) × (insert name_of one_batch ((2, 6) ∷ (1, 5) ∷ []) [] ≡ (g', ok 102)))
      × IsInsertable name_of one_batch ((2, 6) ∷ (1, 5) ∷ []) []
    ⊎ (e : BatchInsertError) × (insert name_of one_batch ((2, 6) ∷ (1, 5) ∷ []) []
        ≡ (one_batch, err e))
      × Explains name_of one_batch ((2, 6) ∷ (1, 5) ∷ []) [] e
insert-Explains_example =
    insert-Explains name_of one_batch ((2, 6) ∷ (1, 5) ∷ []) [] one_batch-IsWellFormed
