-- ===== src/BlockProducer/TransactionGraph/Tests.antt =====
-- A batch selection at a graph of one transaction.
use miden_node.Prelude.{◌≡◌, some, none, List, [], ◌∷◌, refl, arith}
use miden_node.Collections.BTreeSet
use miden_node.Collections.BTreeSet.{BTreeSet, contains}
use miden_node.Collections.BTreeMap
use miden_node.BlockProducer.Graph
use miden_node.BlockProducer.Graph.WellFormed.{IsWellFormed, default-IsWellFormed}
use miden_node.BlockProducer.Graph.Insert.{insert_pending-IsWellFormed}
use miden_node.BlockProducer.Graph.Promote.{promote_pending-IsWellFormed}
use miden_node.BlockProducer.Transaction.{AuthenticatedTransaction}
use miden_node.BlockProducer.Budget.{BatchBudget}
use miden_node.BlockProducer.TransactionGraph.{TransactionGraph, insert, select_batch}
use miden_node.BlockProducer.TransactionGraph.Select.{IsKeyed, Selects, select_batch-Selects}

abbrev transfer : AuthenticatedTransaction
transfer = record {
  inner = record {
    id = 1;
    account_id = 5;
    initial_state_commitment = 0;
    final_state_commitment = 50;
    nullifiers = 60 ∷ [];
    output_note_ids = 70 ∷ [];
    unauthenticated_note_ids = [];
    input_note_count = 1;
    output_note_count = 1;
    expiration_block_num = 40;
  };
  store_account_state = none;
  notes_authenticated_by_store = [];
  authentication_height = 10;
}

-- The graph after the transaction is inserted.
abbrev queued : TransactionGraph
queued = (insert (Graph.default {V = AuthenticatedTransaction}) transfer []).0

queued-IsWellFormed : IsWellFormed queued
unfolding insert Graph.insert_pending Graph.link Graph.default contains BTreeMap.get
queued-IsWellFormed = promote_pending-IsWellFormed _ 1 transfer (
    insert_pending-IsWellFormed (Graph.default {V = AuthenticatedTransaction}) 1 []
      default-IsWellFormed)

queued-vertices : queued.vertices ≡ (1, transfer) ∷ []
unfolding insert Graph.insert_pending Graph.promote_pending Graph.try_make_root Graph.link
    Graph.default contains BTreeSet.insert BTreeSet.remove BTreeMap.insert BTreeMap.get
queued-vertices = refl

queued-IsKeyed : IsKeyed queued
unfolding BTreeMap.get
queued-IsKeyed k tx e = ground (arith, queued-vertices, e)

abbrev small : BatchBudget
small = record { transactions = 2; accounts = 4; input_notes = 8; output_notes = 8 }

select_batch-Selects_example :
    (g' : TransactionGraph) × (txs : List AuthenticatedTransaction) × (parents : BTreeSet)
    × (select_batch queued small ≡ some (g', txs, parents))
    × Selects queued small [] g' txs parents
select_batch-Selects_example = select_batch-Selects queued small queued-IsWellFormed queued-IsKeyed
