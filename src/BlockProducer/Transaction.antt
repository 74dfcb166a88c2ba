-- ===== src/BlockProducer/Transaction.antt =====
-- Authenticated transactions, crates/block-producer/src/domain/transaction.rs. A proven transaction
-- is a value of another crate: it enters as the record of what its accessors return. Identifiers,
-- commitments and block numbers are numbers, and the default commitment is 0.
use miden_node.Prelude.{
  ℕ, Bool, not, Option, none, some, List, filter, is_empty, if◌then◌else◌, is_some,
}
use miden_node.Collections.BTreeSet.{BTreeSet, contains}
use miden_node.Collections.BTreeMap
use miden_node.Collections.BTreeMap.{BTreeMap}
use miden_node.BlockProducer.Graph.{Result, ok, err}

pub record ProvenTransaction : Type 0 where
  pub id : ℕ
  pub account_id : ℕ
  pub initial_state_commitment : ℕ
  pub final_state_commitment : ℕ
  pub nullifiers : List ℕ
  pub output_note_ids : List ℕ
  pub unauthenticated_note_ids : List ℕ
  pub input_note_count : ℕ
  pub output_note_count : ℕ
  pub expiration_block_num : ℕ

-- What the store says of a transaction. A nullifier maps to the block that spends it, if any.
pub record TransactionInputs : Type 0 where
  pub account_id : ℕ
  pub account_commitment : Option ℕ
  pub nullifiers : BTreeMap (Option ℕ)
  pub found_unauthenticated_notes : BTreeSet
  pub current_block_height : ℕ

pub data VerifyTxError : Type 0 where
  input_notes_already_consumed : List ℕ → VerifyTxError
  unauthenticated_notes_not_found : List ℕ → VerifyTxError
  output_notes_already_exist : List ℕ → VerifyTxError
  incorrect_account_initial_commitment : ℕ → Option ℕ → VerifyTxError

pub data AddTransactionError : Type 0 where
  verification_failed : VerifyTxError → AddTransactionError
  stale_inputs : ℕ → ℕ → AddTransactionError
  expired : ℕ → ℕ → AddTransactionError

pub record AuthenticatedTransaction : Type 0 where
  pub inner : ProvenTransaction
  pub store_account_state : Option ℕ
  pub notes_authenticated_by_store : BTreeSet
  pub authentication_height : ℕ

-- The nullifier is spent in the store: `get(..).copied().flatten().is_some()`.
abbrev pub is_spent : TransactionInputs → ℕ → Bool
is_spent inputs n =
    is_some (elim (BTreeMap.get n inputs.nullifiers) [ none ↦ none | some spent ↦ spent ])

-- `AuthenticatedTransaction::new`
unfoldable pub new :
    ProvenTransaction → TransactionInputs → Result AuthenticatedTransaction VerifyTxError
new tx inputs =
    let already_spent = filter (is_spent inputs) tx.nullifiers in
    if not (is_empty already_spent)
    then err (input_notes_already_consumed already_spent)
    else ok (record {
      inner = tx;
      store_account_state = inputs.account_commitment;
      notes_authenticated_by_store = inputs.found_unauthenticated_notes;
      authentication_height = inputs.current_block_height;
    })

abbrev pub id : AuthenticatedTransaction → ℕ
id tx = tx.inner.id

abbrev pub account_id : AuthenticatedTransaction → ℕ
account_id tx = tx.inner.account_id

abbrev pub nullifiers : AuthenticatedTransaction → List ℕ
nullifiers tx = tx.inner.nullifiers

abbrev pub output_note_ids : AuthenticatedTransaction → List ℕ
output_note_ids tx = tx.inner.output_note_ids

abbrev pub output_note_count : AuthenticatedTransaction → ℕ
output_note_count tx = tx.inner.output_note_count

abbrev pub input_note_count : AuthenticatedTransaction → ℕ
input_note_count tx = tx.inner.input_note_count

abbrev pub expires_at : AuthenticatedTransaction → ℕ
expires_at tx = tx.inner.expiration_block_num

-- The notes that neither the transaction nor the store authenticates.
abbrev pub unauthenticated_notes : AuthenticatedTransaction → List ℕ
unauthenticated_notes tx =
    filter (λ n. not (contains n tx.notes_authenticated_by_store)) tx.inner.unauthenticated_note_ids
