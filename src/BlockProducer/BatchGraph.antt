-- ===== src/BlockProducer/BatchGraph.antt =====
-- The batch graph of crates/block-producer/src/mempool/batch_graph.rs, with the method names of
-- `BatchGraph`. A proven batch and the hash that names a batch belong to another crate: they are
-- the parameters `B`, `batch_id` and `from_ids`. `none` is a panic or a loop out of rounds.
pub mod Insert
pub mod Refusal
mod Tests
use miden_node.Prelude.{
  ℕ, zero, suc, Bool, not, Option, none, some, List, [], ◌∷◌, ◌++◌, map, filter, is_empty,
  if◌then◌else◌, filter_map, flat_map, length,
}
use miden_node.Collections.BTreeSet
use miden_node.Collections.BTreeSet.{BTreeSet}
use miden_node.Collections.BTreeMap
use miden_node.Collections.BTreeMap.{BTreeMap, contains_key}
use miden_node.BlockProducer.Graph
use miden_node.BlockProducer.Graph.{DependencyGraph, GraphError, Result, ok, err}
use miden_node.BlockProducer.Budget.{BlockBudget, exceeded, within_scope, check_then_subtract_block}

pub record BatchGraph (B : Type 0) : Type 0 where
  pub inner : DependencyGraph B
  pub transactions : BTreeMap ℕ
  pub batches : BTreeMap (List ℕ)

pub data BatchInsertError : Type 0 where
  duplicate_transactions : BTreeSet → BatchInsertError
  unknown_parent_transaction : ℕ → BatchInsertError
  graph_error : GraphError → BatchInsertError

-- The identifiers of the transactions of a batch.
abbrev pub ids : List (ℕ × ℕ) → List ℕ
ids transactions = map (λ e. e.0) transactions

-- `for (tx, _) in transactions { parents.remove(tx) }`
unfoldable pub without : List ℕ → BTreeSet → BTreeSet
without [] parents = parents
without (tx ∷ txs) parents = without txs (BTreeSet.remove tx parents)

-- The lookup of the parent batches: the first transaction with no batch is an error.
unfoldable pub parent_batches : BTreeMap ℕ → List ℕ → BTreeSet → Result BTreeSet BatchInsertError
parent_batches m [] found = ok found
parent_batches m (tx ∷ txs) found = elim (BTreeMap.get tx m) [
  | none ↦ err (unknown_parent_transaction tx)
  | some batch ↦ parent_batches m txs (BTreeSet.insert batch found)
]

-- `for (tx, _) in transactions { self.transactions.insert(tx, id) }`
unfoldable pub assign : List ℕ → ℕ → BTreeMap ℕ → BTreeMap ℕ
assign [] id m = m
assign (tx ∷ txs) id m = assign txs id (BTreeMap.insert tx id m)

unfoldable pub unassign : List ℕ → BTreeMap ℕ → BTreeMap ℕ
unassign [] m = m
unassign (tx ∷ txs) m = unassign txs (BTreeMap.remove tx m)

-- The removal of the batches from the map, with what they held; `none` if one is missing.
unfoldable pub take_batches :
    List ℕ → BTreeMap (List ℕ) → BTreeMap (List ℕ) → Option (BTreeMap (List ℕ) × BTreeMap (List ℕ))
take_batches [] m taken = some (m, taken)
take_batches (b ∷ bs) m taken = elim (BTreeMap.get b m) [
  | none ↦ none
  | some txs ↦ take_batches bs (BTreeMap.remove b m) (BTreeMap.insert b txs taken)
]

-- The removal of the batches from the map, with the transactions of those that are there.
unfoldable pub drain_batches : List ℕ → BTreeMap (List ℕ) → List ℕ → BTreeMap (List ℕ) × List ℕ
drain_batches [] m txs = (m, txs)
drain_batches (b ∷ bs) m txs =
    drain_batches bs (BTreeMap.remove b m)
      (elim (BTreeMap.get b m) [ none ↦ txs | some ts ↦ txs ++ ts ])

module _ {B : Type 0} where
  unfoldable pub default : BatchGraph B
  unfolding Graph.default
  default = record { inner = Graph.default; transactions = []; batches = [] }

  -- `insert`, behind the lookup of the parent batches.
  unfoldable pub insert_batch :
      BatchGraph B → ℕ → List ℕ → BTreeSet → BatchGraph B × Result ℕ BatchInsertError
  insert_batch g id txs parents =
      let (inner, r) = Graph.insert_pending g.inner id parents in
      elim r [
        | err e ↦ (record g { inner = inner }, err (graph_error e))
        | ok _ ↦ (
          record {
            inner = inner;
            transactions = assign txs id g.transactions;
            batches = BTreeMap.insert id txs g.batches;
          },
          ok id,
        )
      ]

  unfoldable pub insert :
      (List (ℕ × ℕ) → ℕ)
      → BatchGraph B
      → List (ℕ × ℕ)
      → BTreeSet
      → BatchGraph B × Result ℕ BatchInsertError
  insert from_ids g transactions parents =
      let txs = ids transactions in
      let duplicates = BTreeSet.from_iter (filter (λ tx. contains_key tx g.transactions) txs) in
      if not (is_empty duplicates)
      then (g, err (duplicate_transactions duplicates))
      else elim (parent_batches g.transactions (without txs parents) []) [
        | err e ↦ (g, err e)
        | ok found ↦ insert_batch g (from_ids transactions) txs found
      ]

  unfoldable pub remove_batches :
      BatchGraph B → BTreeSet → Option (BatchGraph B × Result (BTreeMap (List ℕ)) GraphError)
  remove_batches g batch_ids = elim (Graph.purge_subgraphs g.inner batch_ids) [
    | none ↦ none
    | some (inner, err e) ↦ some (record g { inner = inner }, err e)
    | some (inner, ok removed) ↦ elim (take_batches removed g.batches []) [
      | none ↦ none
      | some (batches, taken) ↦ some (
        record {
          inner = inner;
          transactions = unassign (flat_map (λ txs. txs) (BTreeMap.values taken)) g.transactions;
          batches = batches;
        },
        ok taken,
      )
    ]
  ]

  unfoldable pub remove_batches_with_transactions :
      BatchGraph B → List ℕ → Option (BatchGraph B × BTreeMap (List ℕ))
  remove_batches_with_transactions g txs =
      let batches = BTreeSet.from_iter (filter_map (λ tx. BTreeMap.get tx g.transactions) txs) in
      elim (remove_batches g batches) [
        | none ↦ none
        | some (g', err e) ↦ none
        | some (g', ok removed) ↦ some (g', removed)
      ]

  unfoldable pub prune_committed :
      BatchGraph B → BTreeSet → Option (BatchGraph B × Result (List ℕ) GraphError)
  prune_committed g batch_ids = elim (Graph.prune_processed g.inner batch_ids) [
    | none ↦ none
    | some (inner, err e) ↦ some (record g { inner = inner }, err e)
    | some (inner, ok _) ↦
        let (batches, transactions) = drain_batches batch_ids g.batches [] in
        some (
          record {
            inner = inner;
            transactions = unassign transactions g.transactions;
            batches = batches;
          },
          ok transactions,
        )
  ]

  unfoldable pub submit_proof :
      (B → ℕ) → BatchGraph B → B → BatchGraph B × Result (Unit {0}) GraphError
  submit_proof batch_id g batch =
      let (inner, r) = Graph.promote_pending g.inner (batch_id batch) batch in
      (record g { inner = inner }, r)

  -- The `while` loop of `select_block`: the inner graph, the budget and the batches.
  unfoldable pub select_loop :
      ℕ → DependencyGraph B → BlockBudget → List B → Option (DependencyGraph B × List B)
  select_loop zero g budget batches = none
  select_loop (suc fuel) g budget batches = elim g.roots [
    | [] ↦ some (g, batches)
    | root ∷ _ ↦ elim (Graph.get g root) [
      | none ↦ none
      | some batch ↦ elim (check_then_subtract_block budget).1 [
        | exceeded ↦ some (g, batches)
        | within_scope ↦ elim (Graph.process_root g root).1 [
          | err _ ↦ none
          | ok _ ↦
              select_loop fuel (Graph.process_root g root).0 (check_then_subtract_block budget).0
                (batches ++ batch ∷ [])
        ]
      ]
    ]
  ]

  -- A round takes a batch from the budget, and one more finds it used up.
  unfoldable pub select_block : BatchGraph B → BlockBudget → Option (BatchGraph B × List B)
  select_block g budget = elim (select_loop (suc budget.batches) g.inner budget []) [
    | none ↦ none
    | some (inner, batches) ↦ some (record g { inner = inner }, batches)
  ]

  abbrev pub contains : BatchGraph B → ℕ → Bool
  contains g id = contains_key id g.batches

  abbrev pub get_transactions : BatchGraph B → ℕ → Option (List ℕ)
  get_transactions g id = BTreeMap.get id g.batches

  abbrev pub num_pending : BatchGraph B → ℕ
  num_pending g = Graph.num_pending g.inner

  abbrev pub num_proven : BatchGraph B → ℕ
  num_proven g = Graph.num_processed g.inner

  abbrev pub len : BatchGraph B → ℕ
  len g = Graph.len g.inner

  abbrev pub num_roots : BatchGraph B → ℕ
  num_roots g = Graph.num_roots g.inner
