-- ===== src/BlockProducer/Mempool.antt =====
-- The mempool of crates/block-producer/src/mempool/mod.rs, with the method names of `Mempool`.
-- `none` is a panic, or a loop of the graphs out of rounds; tracing is left out.
pub mod Placement
pub mod Linked
pub mod Batching
mod Tests
use miden_node.Prelude.{
  ℕ, ◌+◌, not, Option, none, some, List, [], ◌∷◌, ◌++◌, map, filter, is_empty, if◌then◌else◌,
  flat_map, ◌>>=◌,
}
use miden_node.Collections.BTreeSet
use miden_node.Collections.BTreeSet.{BTreeSet, contains}
use miden_node.Collections.BTreeMap
use miden_node.BlockProducer.Graph
use miden_node.BlockProducer.Graph.{GraphError, Result, ok, err}
use miden_node.BlockProducer.Outside.{Outside, Channel}
use miden_node.BlockProducer.Transaction
use miden_node.BlockProducer.Transaction.{AuthenticatedTransaction, AddTransactionError}
use miden_node.BlockProducer.Inflight
use miden_node.BlockProducer.Inflight.{InflightState}
use miden_node.BlockProducer.Inflight.Lifecycle
use miden_node.BlockProducer.Expirations
use miden_node.BlockProducer.Expirations.{TransactionExpirations}
use miden_node.BlockProducer.Budget.{BatchBudget, BlockBudget}
use miden_node.BlockProducer.TransactionGraph
use miden_node.BlockProducer.TransactionGraph.{TransactionGraph}
use miden_node.BlockProducer.BatchGraph
use miden_node.BlockProducer.BatchGraph.{BatchGraph}
use miden_node.BlockProducer.Subscription.{
  MempoolEvent, SubscriptionProvider, new_provider, subscribe, transaction_added, block_committed,
  txs_reverted,
}

-- `expect`, on the result of a graph method.
abbrev pub expect {ℓ κ μ} : {G : Type ℓ} {A : Type κ} {E : Type μ} → G × Result A E → Option (G × A)
expect (g, ok a) = some (g, a)
expect (g, err e) = none

module _ {O : Outside} (C : Channel (MempoolEvent O)) where
  pub record Mempool : Type 0 where
    pub state : InflightState
    pub transactions : TransactionGraph
    pub expirations : TransactionExpirations
    pub batches : BatchGraph O.ProvenBatch
    pub chain_tip : ℕ
    pub block_in_progress : Option BTreeSet
    pub block_budget : BlockBudget
    pub batch_budget : BatchBudget
    pub subscription : SubscriptionProvider C

  unfoldable pub new : ℕ → BatchBudget → BlockBudget → ℕ → ℕ → Mempool
  new chain_tip batch_budget block_budget state_retention expiration_slack = record {
    chain_tip = chain_tip;
    batch_budget = batch_budget;
    block_budget = block_budget;
    state = Inflight.new chain_tip state_retention expiration_slack;
    block_in_progress = none;
    transactions = Graph.default;
    batches = BatchGraph.default;
    expirations = Expirations.default;
    subscription = new_provider C chain_tip;
  }

  -- `add_transaction`, behind the inflight state's admission.
  unfoldable pub enqueue_transaction :
      Mempool → AuthenticatedTransaction → InflightState → BTreeSet → Option Mempool
  enqueue_transaction m transaction state parents = do
    subscription ← transaction_added C m.subscription transaction
    (transactions, _) ← expect (TransactionGraph.insert m.transactions transaction parents)
    some (record m {
      state = state;
      subscription = subscription;
      expirations =
          Expirations.insert m.expirations (Transaction.id transaction)
            (Transaction.expires_at transaction);
      transactions = transactions;
    })

  unfoldable pub add_transaction :
      Mempool → AuthenticatedTransaction → Option (Mempool × Result ℕ AddTransactionError)
  add_transaction m transaction = elim (Inflight.add_transaction m.state transaction) [
    | none ↦ none
    | some (state, err e) ↦ some (record m { state = state }, err e)
    | some (state, ok parents) ↦ elim (enqueue_transaction m transaction state parents) [
      | none ↦ none
      | some m' ↦ some (m', ok m'.chain_tip)
    ]
  ]

  -- An empty selection is no batch.
  unfoldable pub select_batch :
      Mempool → Option (Mempool × Option (ℕ × List AuthenticatedTransaction))
  select_batch m = do
    (transactions, batch, parents) ← TransactionGraph.select_batch m.transactions m.batch_budget
    let tx_ids = map (λ tx. (Transaction.id tx, Transaction.account_id tx)) batch
    if is_empty batch then some (record m { transactions = transactions }, none) else (do
      (batches, batch_id) ← expect (BatchGraph.insert O.from_ids m.batches tx_ids parents)
      some (record m { transactions = transactions; batches = batches }, some (batch_id, batch)))

  unfoldable pub rollback_batch : Mempool → ℕ → Option Mempool
  rollback_batch m batch = if not (BatchGraph.contains m.batches batch) then some m else (do
    removal ← BatchGraph.remove_batches m.batches (batch ∷ [])
    (batches, removed_batches) ← expect removal
    requeue ←
        TransactionGraph.requeue_transactions m.transactions
          (BTreeSet.from_iter (flat_map (λ txs. txs) (BTreeMap.values removed_batches)))
    (transactions, _) ← expect requeue
    some (record m { batches = batches; transactions = transactions }))

  unfoldable pub commit_batch : Mempool → O.ProvenBatch → Option Mempool
  commit_batch m batch =
      if not (BatchGraph.contains m.batches (O.batch_id batch)) then some m else (do
        (batches, _) ← expect (BatchGraph.submit_proof O.batch_id m.batches batch)
        some (record m { batches = batches }))

  unfoldable pub select_block : Mempool → Option (Mempool × ℕ × List O.ProvenBatch)
  select_block m = elim m.block_in_progress [
    | some _ ↦ none
    | none ↦ elim (BatchGraph.select_block m.batches m.block_budget) [
      | none ↦ none
      | some (batches, selected) ↦ some (
        record m {
          batches = batches;
          block_in_progress = some (BTreeSet.from_iter (map O.batch_id selected));
        },
        m.chain_tip + 1,
        selected,
      )
    ]
  ]

  -- `revert_transactions`, behind the removal from the transaction graph.
  unfoldable pub clean_up : Mempool → TransactionGraph → BTreeSet → Option Mempool
  clean_up m transactions reverted = do
    (batches, batches_reverted) ← BatchGraph.remove_batches_with_transactions m.batches reverted
    let members = flat_map (λ txs. txs) (BTreeMap.values batches_reverted)
    let to_requeue = BTreeSet.from_iter (filter (λ tx. not (contains tx reverted)) members)
    requeue ← TransactionGraph.requeue_transactions transactions to_requeue
    (transactions', _) ← expect requeue
    expirations ← Expirations.remove m.expirations reverted
    state ← Lifecycle.revert_transactions m.state reverted
    subscription ← txs_reverted C m.subscription reverted
    some (record m {
      transactions = transactions';
      batches = batches;
      expirations = expirations;
      state = state;
      subscription = subscription;
    })

  unfoldable pub revert_transactions :
      Mempool → List ℕ → Option (Mempool × Result BTreeSet GraphError)
  revert_transactions m txs = elim (TransactionGraph.remove_transactions m.transactions txs) [
    | none ↦ none
    | some (transactions, err e) ↦ some (record m { transactions = transactions }, err e)
    | some (transactions, ok reverted) ↦ elim (clean_up m transactions reverted) [
      | none ↦ none
      | some m' ↦ some (m', ok reverted)
    ]
  ]

  unfoldable pub revert_expired_transactions : Mempool → Option (Mempool × BTreeSet)
  revert_expired_transactions m = do
    let expired = Expirations.get m.expirations m.chain_tip
    reversion ← revert_transactions m expired
    (m', _) ← expect reversion
    some (m', expired)

  unfoldable pub commit_block : Mempool → O.BlockHeader → Option Mempool
  commit_block m header = do
    batch_ids ← m.block_in_progress
    pruning ← BatchGraph.prune_committed m.batches batch_ids
    (batches, tx_ids) ← expect pruning
    committing ← TransactionGraph.commit_transactions m.transactions tx_ids
    (transactions, _) ← expect committing
    expirations ← Expirations.remove m.expirations tx_ids
    state ← Lifecycle.commit_block m.state tx_ids
    subscription ← block_committed C m.subscription header tx_ids
    (m', _) ← revert_expired_transactions (record m {
      block_in_progress = none;
      batches = batches;
      transactions = transactions;
      expirations = expirations;
      state = state;
      chain_tip = m.chain_tip + 1;
      subscription = subscription;
    })
    some m'

  -- The transactions of the batches of a block; one that is unknown is a panic.
  unfoldable pub block_transactions : BatchGraph O.ProvenBatch → List ℕ → Option (List ℕ)
  block_transactions g [] = some []
  block_transactions g (batch ∷ batches) = do
    txs ← BatchGraph.get_transactions g batch
    rest ← block_transactions g batches
    some (txs ++ rest)

  unfoldable pub rollback_block : Mempool → Option Mempool
  rollback_block m = do
    batches ← m.block_in_progress
    txs ← block_transactions m.batches batches
    reversion ← revert_transactions (record m { block_in_progress = none }) txs
    (m', _) ← expect reversion
    some m'

  -- `Mempool::subscribe`
  unfoldable pub subscribe_events : Mempool → ℕ → Mempool × Result C.Receiver ℕ
  subscribe_events m chain_tip =
      let (subscription, r) = subscribe C m.subscription chain_tip in
      (record m { subscription = subscription }, r)
