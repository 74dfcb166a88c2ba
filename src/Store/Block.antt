-- ===== src/Store/Block.antt =====
-- Blocks as crates/store reads them, and the errors of crates/store/src/errors.rs.
use miden_node.Prelude.{ℕ, List}
use miden_node.Store.Outside.{Outside}

-- What the accessors of a block header return.
pub record BlockHeader : Type 0 where
  pub block_num : ℕ
  pub prev_block_commitment : ℕ
  pub chain_commitment : ℕ
  pub tx_commitment : ℕ
  pub nullifier_root : ℕ
  pub account_root : ℕ
  pub note_root : ℕ
  pub commitment : ℕ

pub data OutputNote (O : Outside) : Type 0 where
  full : O.Note → OutputNote O
  partial : O.Note → OutputNote O
  header : O.Note → OutputNote O

-- What the accessors of a proven block return: `tx_commitment` is that of its transactions, `note_root`
-- the root of its output note tree, and `bytes` what it is serialized to. An account comes with its
-- final commitment.
pub record ProvenBlock (O : Outside) : Type 0 where
  pub header : BlockHeader
  pub commitment : ℕ
  pub tx_commitment : ℕ
  pub created_nullifiers : List ℕ
  pub updated_accounts : List (ℕ × ℕ)
  pub note_root : ℕ
  pub output_notes : List (OutputNote O)
  pub bytes : ℕ
  pub body : O.Body

pub data InvalidBlockError (O : Outside) : Type 0 where
  duplicated_nullifiers : List ℕ → InvalidBlockError O
  invalid_output_note_type : O.Note → InvalidBlockError O
  invalid_block_tx_commitment : ℕ → ℕ → InvalidBlockError O
  new_block_invalid_account_root : InvalidBlockError O
  new_block_invalid_block_num : ℕ → ℕ → InvalidBlockError O
  new_block_invalid_chain_commitment : InvalidBlockError O
  new_block_invalid_note_root : InvalidBlockError O
  new_block_invalid_nullifier_root : InvalidBlockError O
  new_block_invalid_prev_commitment : InvalidBlockError O
  new_block_nullifier_already_spent : ℕ → InvalidBlockError O
  new_block_duplicate_account_id_prefix : ℕ → InvalidBlockError O

-- The errors of the database that the model tells apart: one of SQLite, such as of a connection, a row
-- whose key exists, and a parameter over its limit.
pub data DatabaseError : Type 0 where
  sqlite_error : ℕ → DatabaseError
  constraint : ℕ → DatabaseError
  query_param_limit : ℕ → ℕ → DatabaseError

pub data ApplyBlockError (O : Outside) : Type 0 where
  database_error : DatabaseError → ApplyBlockError O
  io_error : ℕ → ApplyBlockError O
  invalid_block_error : InvalidBlockError O → ApplyBlockError O
  closed_channel : ApplyBlockError O
  concurrent_write : ApplyBlockError O
  db_block_header_empty : ApplyBlockError O
  db_update_task_failed : DatabaseError → ApplyBlockError O
