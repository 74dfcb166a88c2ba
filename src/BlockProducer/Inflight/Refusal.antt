-- ===== src/BlockProducer/Inflight/Refusal.antt =====
-- The errors of `verify_transaction`, and what each one says of the transaction.
use miden_node.Prelude.{
  ℕ, ◌+◌, ◌<◌, ◌≤◌, ◌≡◌, ◌≢◌, Bool, true, false, not, ◌&&◌, some, List, filter, is_empty, arith,
  length,
}
use miden_node.Collections.BTreeSet
use miden_node.Collections.BTreeSet.{BTreeSet, contains}
use miden_node.Collections.BTreeMap.{contains_key}
use miden_node.BlockProducer.Graph.{err}
use miden_node.BlockProducer.Transaction
use miden_node.BlockProducer.Transaction.{
  AuthenticatedTransaction, AddTransactionError, expired, stale_inputs, verification_failed,
  VerifyTxError, incorrect_account_initial_commitment, input_notes_already_consumed,
  output_notes_already_exist, unauthenticated_notes_not_found,
}
use miden_node.BlockProducer.Inflight.{
  InflightState, current_commitment, commitment_or_default, verify_state, verify_transaction,
  oldest_committed_state,
}

-- The list holds exactly the members of `all` that pass the test, at least one.
abbrev pub Lists : List ℕ → List ℕ → (ℕ → Bool) → Type 0
Lists xs all p =
    ((n : ℕ) → contains n xs ≡ (p n && contains n all)) × ((n : ℕ) × (contains n xs ≡ true))

module _ (s : InflightState) (tx : AuthenticatedTransaction) where
  abbrev pub ExplainsVerification : VerifyTxError → Type 0
  ExplainsVerification (incorrect_account_initial_commitment c current) =
      (c ≡ tx.inner.initial_state_commitment)
      × (current ≡ current_commitment s tx)
      × (c ≢ commitment_or_default current)
  ExplainsVerification (input_notes_already_consumed ns) =
      Lists ns (Transaction.nullifiers tx) (λ n. contains n s.nullifiers)
  ExplainsVerification (output_notes_already_exist ns) =
      Lists ns (Transaction.output_note_ids tx) (λ n. contains_key n s.output_notes)
  ExplainsVerification (unauthenticated_notes_not_found ns) =
      Lists ns (Transaction.unauthenticated_notes tx) (λ n. not (contains_key n s.output_notes))

  -- What each error says of the state and the transaction.
  abbrev pub Explains : AddTransactionError → Type 0
  Explains (verification_failed e) = ExplainsVerification e
  Explains (stale_inputs height limit) =
      (height ≡ tx.authentication_height)
      × (limit + length s.committed_blocks ≡ s.chain_tip)
      × (height < limit)
  Explains (expired block limit) =
      (block ≡ Transaction.expires_at tx)
      × (limit ≡ s.chain_tip + s.expiration_slack)
      × (block ≤ limit)

  Lists-filter :
      (p : ℕ → Bool) (xs : List ℕ) → is_empty (filter p xs) ≡ false → Lists (filter p xs) xs p
  Lists-filter p xs e =
      (λ n. BTreeSet.contains-filter n p xs, BTreeSet.is_empty_witness (filter p xs) e)

  verify_state-Explains : (e : AddTransactionError) → verify_state s tx ≡ err e → Explains e
  unfolding verify_state
  verify_state-Explains (expired b l) h = absurd (ground arith)
  verify_state-Explains (stale_inputs b l) h = absurd (ground arith)
  verify_state-Explains (verification_failed (incorrect_account_initial_commitment c cur)) h =
      (ground arith, ground arith, ground arith)
  verify_state-Explains (verification_failed (input_notes_already_consumed ns)) h =
      let p = λ (n : ℕ). contains n s.nullifiers in
      let e : ns ≡ filter p (Transaction.nullifiers tx) = ground arith in
      rw e (Lists-filter p (Transaction.nullifiers tx) (ground arith))
  verify_state-Explains (verification_failed (output_notes_already_exist ns)) h =
      let p = λ (n : ℕ). contains_key n s.output_notes in
      let e : ns ≡ filter p (Transaction.output_note_ids tx) = ground arith in
      rw e (Lists-filter p (Transaction.output_note_ids tx) (ground arith))
  verify_state-Explains (verification_failed (unauthenticated_notes_not_found ns)) h =
      let p = λ (n : ℕ). not (contains_key n s.output_notes) in
      let e : ns ≡ filter p (Transaction.unauthenticated_notes tx) = ground arith in
      rw e (Lists-filter p (Transaction.unauthenticated_notes tx) (ground arith))

  -- A refusal is justified: the error that is returned is true of the state and the transaction.
  pub verify_transaction-Explains :
      (e : AddTransactionError) → verify_transaction s tx ≡ some (err e) → Explains e
  unfolding verify_transaction oldest_committed_state
  verify_transaction-Explains (expired b l) h =
      let inner = verify_state-Explains (expired b l) in
      (ground (arith, inner), ground (arith, inner), ground (arith, inner))
  verify_transaction-Explains (stale_inputs b l) h =
      let inner = verify_state-Explains (stale_inputs b l) in
      (ground (arith, inner), ground (arith, inner), ground (arith, inner))
  verify_transaction-Explains (verification_failed e) h =
      verify_state-Explains (verification_failed e) (ground arith)
