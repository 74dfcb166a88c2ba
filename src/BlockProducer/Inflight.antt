-- ===== src/BlockProducer/Inflight.antt =====
-- The inflight state of crates/block-producer/src/mempool/inflight_state/mod.rs, with the method
-- names of `InflightState`. A method that can panic returns an `Option`, where `none` is the panic.
-- Block numbers are exact: the sums that the code forms stay below 2^32.
pub mod Lifecycle
pub mod Admission
pub mod Refusal
pub mod Effects
pub mod Safety
pub mod Undo
use miden_node.Prelude.{
  ℕ, ◌+◌, ◌-◌, not, Option, none, some, List, [], ◌∷◌, ◌++◌, filter, is_empty, if◌then◌else◌,
  length, leb, ltb, ◌==◌, filter_map,
}
use Prim.Native.Nat.{◌^◌}
use miden_node.Collections.BTreeSet
use miden_node.Collections.BTreeSet.{BTreeSet, contains}
use miden_node.Collections.BTreeMap
use miden_node.Collections.BTreeMap.{BTreeMap, contains_key}
use miden_node.BlockProducer.Graph.{Result, ok, err}
use miden_node.BlockProducer.Account
use miden_node.BlockProducer.Account.{InflightAccountState, status_is_empty}
use miden_node.BlockProducer.Transaction
use miden_node.BlockProducer.Transaction.{
  AuthenticatedTransaction, AddTransactionError, expired, stale_inputs, verification_failed,
  incorrect_account_initial_commitment, input_notes_already_consumed, output_notes_already_exist,
  unauthenticated_notes_not_found,
}

pub data OutputNoteState : Type 0 where
  committed : OutputNoteState
  inflight : ℕ → OutputNoteState

-- `OutputNoteState::transaction`
abbrev pub note_transaction : OutputNoteState → Option ℕ
note_transaction committed = none
note_transaction (inflight tx) = some tx

pub record Delta : Type 0 where
  pub account : ℕ
  pub nullifiers : BTreeSet
  pub output_notes : BTreeSet

pub record InflightState : Type 0 where
  pub accounts : BTreeMap InflightAccountState
  pub nullifiers : BTreeSet
  pub output_notes : BTreeMap OutputNoteState
  pub transaction_deltas : BTreeMap Delta
  pub committed_blocks : List (BTreeMap Delta)
  pub num_retained_blocks : ℕ
  pub chain_tip : ℕ
  pub expiration_slack : ℕ

-- `Delta::new`
unfoldable pub new_delta : AuthenticatedTransaction → Delta
new_delta tx = record {
  account = Transaction.account_id tx;
  nullifiers = BTreeSet.from_iter (Transaction.nullifiers tx);
  output_notes = BTreeSet.from_iter (Transaction.output_note_ids tx);
}

-- `InflightState::new`
unfoldable pub new : ℕ → ℕ → ℕ → InflightState
new chain_tip num_retained_blocks expiration_slack = record {
  accounts = [];
  nullifiers = [];
  output_notes = [];
  transaction_deltas = [];
  committed_blocks = [];
  num_retained_blocks = num_retained_blocks;
  chain_tip = chain_tip;
  expiration_slack = expiration_slack;
}

-- `try_into` a `u32`, and `checked_sub`.
unfoldable pub oldest_committed_state : InflightState → Option ℕ
oldest_committed_state s =
    let committed_len = length s.committed_blocks in
    if not (ltb committed_len (2 ^ 32))
    then none
    else if ltb s.chain_tip committed_len
    then none
    else some (s.chain_tip - committed_len)

-- `or`, on options.
abbrev pub or_else : Option ℕ → Option ℕ → Option ℕ
or_else none b = b
or_else (some a) b = some a

-- `unwrap_or_default`, of a commitment.
abbrev pub commitment_or_default : Option ℕ → ℕ
commitment_or_default none = 0
commitment_or_default (some c) = c

-- `get(..).and_then(current_state)`, and else what the store says.
unfoldable pub current_commitment : InflightState → AuthenticatedTransaction → Option ℕ
unfolding Account.current_state
current_commitment s tx =
    or_else
      (elim (BTreeMap.get (Transaction.account_id tx) s.accounts) [
        | none ↦ none
        | some a ↦ Account.current_state a
      ])
      tx.store_account_state

-- The checks of `verify_transaction` behind the one of the authentication height.
unfoldable pub verify_state :
    InflightState → AuthenticatedTransaction → Result (Unit {0}) AddTransactionError
verify_state s tx =
    let current = current_commitment s tx in
    let expected = tx.inner.initial_state_commitment in
    let double_spend = filter (λ n. contains n s.nullifiers) (Transaction.nullifiers tx) in
    let duplicates = filter (λ n. contains_key n s.output_notes) (Transaction.output_note_ids tx) in
    let missing =
      filter (λ n. not (contains_key n s.output_notes)) (Transaction.unauthenticated_notes tx) in
    if not (expected == commitment_or_default current)
    then err (verification_failed (incorrect_account_initial_commitment expected current))
    else if not (is_empty double_spend)
    then err (verification_failed (input_notes_already_consumed double_spend))
    else if not (is_empty duplicates)
    then err (verification_failed (output_notes_already_exist duplicates))
    else if not (is_empty missing)
    then err (verification_failed (unauthenticated_notes_not_found missing))
    else ok tt

unfoldable pub verify_transaction :
    InflightState → AuthenticatedTransaction → Option (Result (Unit {0}) AddTransactionError)
verify_transaction s tx =
    let limit = s.chain_tip + s.expiration_slack in
    if leb (Transaction.expires_at tx) limit
    then some (err (expired (Transaction.expires_at tx) limit))
    else elim (oldest_committed_state s) [
      | none ↦ none
      | some stale_limit ↦ some (
          if ltb tx.authentication_height stale_limit
          then err (stale_inputs tx.authentication_height stale_limit)
          else verify_state s tx)
    ]

-- `entry(..).or_default()`
abbrev pub account_or_default : Option InflightAccountState → InflightAccountState
account_or_default none = Account.default
account_or_default (some a) = a

-- `output_notes.extend(..)`
unfoldable pub add_notes : ℕ → List ℕ → BTreeMap OutputNoteState → BTreeMap OutputNoteState
add_notes tx [] m = m
add_notes tx (n ∷ ns) m = add_notes tx ns (BTreeMap.insert n (inflight tx) m)

-- `filter_map(|n| output_notes.get(n)).filter_map(|note| note.transaction())`
unfoldable pub note_parents : BTreeMap OutputNoteState → List ℕ → List ℕ
note_parents m =
    filter_map (λ n. elim (BTreeMap.get n m) [ none ↦ none | some note ↦ note_transaction note ])

unfoldable pub to_list : Option ℕ → List ℕ
to_list none = []
to_list (some x) = x ∷ []

unfoldable pub insert_transaction :
    InflightState → AuthenticatedTransaction → InflightState × BTreeSet
insert_transaction s tx =
    let tx_id = Transaction.id tx in
    let account = Transaction.account_id tx in
    let (account', account_parent) =
      Account.insert (account_or_default (BTreeMap.get account s.accounts))
        tx.inner.final_state_commitment tx_id in
    let output_notes = add_notes tx_id (Transaction.output_note_ids tx) s.output_notes in
    (
      record s {
        transaction_deltas = BTreeMap.insert tx_id (new_delta tx) s.transaction_deltas;
        accounts = BTreeMap.insert account account' s.accounts;
        nullifiers = BTreeSet.extend s.nullifiers (Transaction.nullifiers tx);
        output_notes = output_notes;
      },
      BTreeSet.from_iter (
          to_list account_parent
          ++ note_parents output_notes (Transaction.unauthenticated_notes tx)),
    )

unfoldable pub add_transaction :
    InflightState
    → AuthenticatedTransaction
    → Option (InflightState × Result BTreeSet AddTransactionError)
add_transaction s tx = elim (verify_transaction s tx) [
  | none ↦ none
  | some (err e) ↦ some (s, err e)
  | some (ok _) ↦ let (s', parents) = insert_transaction s tx in some (s', ok parents)
]
