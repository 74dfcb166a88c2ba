-- ===== src/BlockProducer/TransactionGraph.antt =====
-- The transaction graph of crates/block-producer/src/mempool/transaction_graph.rs, with the method
-- names of `TransactionGraph`. Its one field is the dependency graph.
pub mod Select
mod Tests
use miden_node.Prelude.{ℕ, zero, suc, Option, none, some, List, [], ◌∷◌, ◌++◌}
use miden_node.Collections.BTreeSet
use miden_node.Collections.BTreeSet.{BTreeSet}
use miden_node.BlockProducer.Graph
use miden_node.BlockProducer.Graph.{DependencyGraph, GraphError, Result, ok, err}
use miden_node.BlockProducer.Transaction
use miden_node.BlockProducer.Transaction.{AuthenticatedTransaction}
use miden_node.BlockProducer.Budget.{BatchBudget, exceeded, within_scope, check_then_subtract}

abbrev pub TransactionGraph : Type 0
TransactionGraph = DependencyGraph AuthenticatedTransaction

unfoldable pub insert :
    TransactionGraph
    → AuthenticatedTransaction
    → BTreeSet
    → TransactionGraph × Result (Unit {0}) GraphError
insert g transaction parents =
    let (g', r) = Graph.insert_pending g (Transaction.id transaction) parents in
    elim r [
      | err e ↦ (g', err e)
      | ok _ ↦ Graph.promote_pending g' (Transaction.id transaction) transaction
    ]

-- The `while` loop of `select_batch`: the graph, the budget, the batch and its parents.
unfoldable pub select_loop :
    ℕ
    → TransactionGraph
    → BatchBudget
    → List AuthenticatedTransaction
    → BTreeSet
    → Option (TransactionGraph × List AuthenticatedTransaction × BTreeSet)
select_loop zero g budget batch parents = none
select_loop (suc fuel) g budget batch parents = elim g.roots [
  | [] ↦ some (g, batch, parents)
  | root ∷ _ ↦ elim (Graph.get g root) [
    | none ↦ none
    | some tx ↦ elim (check_then_subtract budget tx).1 [
      | exceeded ↦ some (g, batch, parents)
      | within_scope ↦ elim (Graph.process_root g root).1 [
        | err _ ↦ none
        | ok _ ↦ elim (Graph.parents (Graph.process_root g root).0 root) [
          | none ↦ none
          | some tx_parents ↦
              select_loop fuel (Graph.process_root g root).0 (check_then_subtract budget tx).0
                (batch ++ tx ∷ []) (BTreeSet.extend parents tx_parents)
        ]
      ]
    ]
  ]
]

-- A round takes a transaction from the budget, and one more finds it used up.
unfoldable pub select_batch :
    TransactionGraph
    → BatchBudget
    → Option (TransactionGraph × List AuthenticatedTransaction × BTreeSet)
select_batch g budget = select_loop (suc budget.transactions) g budget [] []

unfoldable pub requeue_transactions :
    TransactionGraph → BTreeSet → Option (TransactionGraph × Result (Unit {0}) GraphError)
requeue_transactions g transactions = Graph.revert_subgraphs g transactions

unfoldable pub commit_transactions :
    TransactionGraph → List ℕ → Option (TransactionGraph × Result (Unit {0}) GraphError)
commit_transactions g tx_ids = elim (Graph.prune_processed g (BTreeSet.from_iter tx_ids)) [
  | none ↦ none
  | some (g', r) ↦ some (g', elim r [ ok _ ↦ ok tt | err e ↦ err e ])
]

unfoldable pub remove_transactions :
    TransactionGraph → List ℕ → Option (TransactionGraph × Result BTreeSet GraphError)
remove_transactions g transactions = Graph.purge_subgraphs g (BTreeSet.from_iter transactions)

abbrev pub len : TransactionGraph → ℕ
len g = Graph.len g

abbrev pub num_roots : TransactionGraph → ℕ
num_roots g = Graph.num_roots g
