-- ===== src/BlockProducer/Outside.antt =====
-- What the mempool takes from other crates: the proven batches and the hash that names a batch, the
-- block headers, the details of accounts and notes that only pass through, and the channel.
use miden_node.Prelude.{ℕ, Option, List}
use miden_node.BlockProducer.Transaction.{AuthenticatedTransaction}

pub record Outside : Type 1 where
  pub ProvenBatch : Type 0
  pub batch_id : ProvenBatch → ℕ
  -- `BatchId::from_ids`
  pub from_ids : List (ℕ × ℕ) → ℕ
  pub BlockHeader : Type 0
  pub block_num : BlockHeader → ℕ
  pub NetworkNote : Type 0
  pub AccountUpdateDetails : Type 0
  -- The full output notes of a transaction that are network notes.
  pub network_notes : AuthenticatedTransaction → List NetworkNote
  -- The details of the account update, for a network account.
  pub account_delta : AuthenticatedTransaction → Option AccountUpdateDetails

-- A bounded channel: `try_send` fails when it is full or closed.
pub record Channel (Event : Type 0) : Type 1 where
  pub Sender : Type 0
  pub Receiver : Type 0
  pub channel : ℕ → Sender × Receiver
  pub try_send : Sender → Event → Option Sender
