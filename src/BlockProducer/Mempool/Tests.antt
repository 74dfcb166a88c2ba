-- ===== src/BlockProducer/Mempool/Tests.antt =====
-- A first transaction at a new mempool, and a batch selection with it.
use miden_node.Prelude.{
  ℕ, ◌≡◌, refl, ap, some, none, List, [], ◌∷◌, map, is_empty, true, arith, ◌⊎◌,
}
use miden_node.Collections.BTreeSet.{contains}
use miden_node.Collections.BTreeMap
use miden_node.BlockProducer.Graph
use miden_node.BlockProducer.Graph.{ok, err}
use miden_node.BlockProducer.Graph.WellFormed.{default-IsWellFormed}
use miden_node.BlockProducer.Outside.{Outside, Channel}
use miden_node.BlockProducer.Transaction.{AuthenticatedTransaction, AddTransactionError}
use miden_node.BlockProducer.Inflight
use miden_node.BlockProducer.Expirations
use miden_node.BlockProducer.Expirations.Consistent.{default-IsConsistent}
use miden_node.BlockProducer.Inflight.Admission.{IsAdmissible}
use miden_node.BlockProducer.Subscription.{MempoolEvent, new_provider}
use miden_node.BlockProducer.Budget.{BatchBudget, default_block_budget}
use miden_node.BlockProducer.Mempool
use miden_node.BlockProducer.Mempool.{Mempool, add_transaction}
use miden_node.BlockProducer.Graph.Insert.{insert_pending-IsWellFormed}
use miden_node.BlockProducer.Graph.Promote.{promote_pending-IsWellFormed}
use miden_node.BlockProducer.TransactionGraph
use miden_node.BlockProducer.TransactionGraph.{TransactionGraph}
use miden_node.BlockProducer.TransactionGraph.Select.{IsOrdered, IsWithin}
use miden_node.BlockProducer.Transaction
use miden_node.BlockProducer.BatchGraph
use miden_node.BlockProducer.BatchGraph.{get_transactions}
use miden_node.BlockProducer.Mempool.{select_batch}
use miden_node.BlockProducer.Graph.WellFormed.{IsWellFormed}
use miden_node.Collections.BTreeSet
use miden_node.Collections.BTreeSet.{contains}
use miden_node.BlockProducer.Mempool.Batching.{IsBatched, HasFreshNames, select_batch-IsBatched}
use miden_node.BlockProducer.Mempool.Linked.{IsLinked, Added, add_transaction-IsLinked}

-- Batches are numbers and name themselves.
abbrev outside : Outside
outside = record {
  ProvenBatch = ℕ;
  batch_id = λ b. b;
  from_ids = λ txs. 100;
  BlockHeader = ℕ;
  block_num = λ h. h;
  NetworkNote = ℕ;
  AccountUpdateDetails = ℕ;
  network_notes = λ tx. [];
  account_delta = λ tx. none;
}

-- A channel that holds the events that were sent.
abbrev held : Channel (MempoolEvent outside)
held = record {
  Sender = List (MempoolEvent outside);
  Receiver = ℕ;
  channel = λ n. ([], n);
  try_send = λ sent event. some (event ∷ sent);
}

abbrev small : BatchBudget
small = record { transactions = 2; accounts = 4; input_notes = 8; output_notes = 8 }

abbrev started : Mempool held
started = Mempool.new held 10 small default_block_budget 5 2

abbrev transfer : AuthenticatedTransaction
transfer = record {
  inner = record {
    id = 1;
    account_id = 5;
    initial_state_commitment = 0;
    final_state_commitment = 50;
    nullifiers = 60 ∷ [];
    output_note_ids = 70 ∷ [];
    unauthenticated_note_ids = [];
    input_note_count = 1;
    output_note_count = 1;
    expiration_block_num = 40;
  };
  store_account_state = none;
  notes_authenticated_by_store = [];
  authentication_height = 10;
}

started-IsLinked : IsLinked started
unfolding Mempool.new Inflight.new new_provider Graph.default BTreeMap.get Expirations.default
started-IsLinked = record {
  graph = default-IsWellFormed;
  keyed = λ k t e. cc;
  counted = record { few = omega arith; reached = omega arith };
  accounts = λ a t account e h. cc;
  notes = λ n t e. cc;
  tracked = λ t e. cc;
  expirations = default-IsConsistent;
  expiring = λ t e. cc;
}

add_transaction-IsLinked_example :
    ((m' : Mempool held) × (add_transaction held started transfer ≡ some (m', ok 10))
        × Added started transfer m'
        × IsLinked m')
      × IsAdmissible started.state transfer
    ⊎ ((e : AddTransactionError) × (add_transaction held started transfer ≡ some (started, err e)))
      × (¬ IsAdmissible started.state transfer)
unfolding Mempool.new Graph.default contains BTreeMap.get
add_transaction-IsLinked_example = add_transaction-IsLinked started transfer started-IsLinked refl

-- The transfer waits for a batch.
abbrev queued : TransactionGraph
queued = (TransactionGraph.insert (Graph.default {V = AuthenticatedTransaction}) transfer []).0

abbrev waiting : Mempool held
waiting = record started { transactions = queued }

queued-IsWellFormed : IsWellFormed queued
unfolding TransactionGraph.insert Graph.insert_pending Graph.link Graph.default contains
    BTreeMap.get
queued-IsWellFormed = promote_pending-IsWellFormed _ 1 transfer (
    insert_pending-IsWellFormed (Graph.default {V = AuthenticatedTransaction}) 1 []
      default-IsWellFormed)

queued-fields : (queued.vertices ≡ (1, transfer) ∷ []) × (queued.processed ≡ [])
unfolding TransactionGraph.insert Graph.insert_pending Graph.promote_pending Graph.try_make_root
    Graph.link Graph.default contains BTreeSet.insert BTreeSet.remove BTreeMap.insert BTreeMap.get
queued-fields = (refl, refl)

waiting-IsBatched : IsBatched waiting
unfolding Mempool.new BatchGraph.default Graph.default BTreeMap.get contains
waiting-IsBatched = record {
  graph = queued-IsWellFormed;
  keyed = λ k tx e. ground (arith, queued-fields, e);
  inner = default-IsWellFormed;
  members = λ t. ap (contains t) queued-fields.1;
  nodes = λ t b e. cc;
}

waiting-HasFreshNames : HasFreshNames waiting
unfolding Mempool.new BatchGraph.default Graph.default BTreeMap.get contains
waiting-HasFreshNames txs some_tx new = refl

select_batch-IsBatched_example :
    (m' : Mempool held) × (txs : List AuthenticatedTransaction) × IsBatched m'
    × IsOrdered queued.parents queued.processed txs
    × IsWithin small txs
    × ((select_batch held waiting ≡ some (m', none)) × (is_empty txs ≡ true)
        ⊎ (select_batch held waiting ≡ some (m', some (100, txs)))
          × (get_transactions m'.batches 100 ≡ some (map Transaction.id txs)))
unfolding Mempool.new
select_batch-IsBatched_example =
    select_batch-IsBatched waiting waiting-IsBatched waiting-HasFreshNames
