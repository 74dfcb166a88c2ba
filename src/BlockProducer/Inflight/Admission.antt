-- ===== src/BlockProducer/Inflight/Admission.antt =====
-- Which transactions the inflight state admits, and with which error it refuses the others.
use miden_node.Prelude.{
  ℕ, ◌+◌, ◌-◌, ◌<◌, ◌≤◌, ◌≡◌, ◌↔◌, Bool, true, false, not, some, List, filter, is_empty,
  if◌then◌else◌, arith, leb, ltb, ◌⊎◌, inl, inr, Bool-cases, length,
}
use Prim.Native.Nat.{◌^◌}
use miden_node.Collections.BTreeSet
use miden_node.Collections.BTreeSet.{BTreeSet, contains}
use miden_node.Collections.BTreeMap.{contains_key}
use miden_node.BlockProducer.Graph.{Result, ok, err}
use miden_node.BlockProducer.Transaction
use miden_node.BlockProducer.Transaction.{
  AuthenticatedTransaction, AddTransactionError, expired, stale_inputs, verification_failed,
  incorrect_account_initial_commitment, input_notes_already_consumed, output_notes_already_exist,
  unauthenticated_notes_not_found,
}
use miden_node.BlockProducer.Inflight.{
  InflightState, current_commitment, commitment_or_default, verify_state, verify_transaction,
  oldest_committed_state, add_transaction, insert_transaction,
}

-- The committed blocks are counted in a `u32`, and the chain is at least as long.
pub record IsCounted (s : InflightState) : Type 0 where
  pub few : length s.committed_blocks < 2 ^ 32
  pub reached : length s.committed_blocks ≤ s.chain_tip

module _ (s : InflightState) (tx : AuthenticatedTransaction) where
  -- What the documentation asks of a transaction, one field for each check.
  pub record IsAdmissible : Type 0 where
    pub unexpired : s.chain_tip + s.expiration_slack < Transaction.expires_at tx
    pub recent : s.chain_tip ≤ tx.authentication_height + length s.committed_blocks
    pub account :
        tx.inner.initial_state_commitment ≡ commitment_or_default (current_commitment s tx)
    pub unspent :
        (n : ℕ) → contains n (Transaction.nullifiers tx) ≡ true → contains n s.nullifiers ≡ false
    pub new_notes :
        (n : ℕ)
        → contains n (Transaction.output_note_ids tx) ≡ true
        → contains_key n s.output_notes ≡ false
    pub notes_found :
        (n : ℕ)
        → contains n (Transaction.unauthenticated_notes tx) ≡ true
        → contains_key n s.output_notes ≡ true

  filter-is_empty :
      (p : ℕ → Bool) (xs : List ℕ)
      → is_empty (filter p xs) ≡ true
      → (n : ℕ) → contains n xs ≡ true
      → p n ≡ false
  filter-is_empty p xs e n m =
      ground (arith, BTreeSet.is_empty_elim (filter p xs) n e, BTreeSet.contains-filter n p xs)

  is_empty-filter :
      (p : ℕ → Bool) (xs : List ℕ)
      → ((n : ℕ) → contains n xs ≡ true → p n ≡ false)
      → is_empty (filter p xs) ≡ true
  is_empty-filter p xs h =
      BTreeSet.is_empty_intro (filter p xs)
        (λ n m. ground (arith, h n, BTreeSet.contains-filter n p xs))

  verify_transaction-admits : IsCounted s → IsAdmissible → verify_transaction s tx ≡ some (ok tt)
  unfolding verify_transaction verify_state oldest_committed_state
  verify_transaction-admits c a = ground (
    arith,
    is_empty-filter (λ n. contains n s.nullifiers) (Transaction.nullifiers tx) a.unspent,
    is_empty-filter (λ n. contains_key n s.output_notes) (Transaction.output_note_ids tx)
        a.new_notes,
    is_empty-filter (λ n. not (contains_key n s.output_notes))
        (Transaction.unauthenticated_notes tx) (λ n m. ground (arith, a.notes_found n)),
  )

  verify_state-admissible :
      verify_state s tx ≡ ok tt
      → (tx.inner.initial_state_commitment ≡ commitment_or_default (current_commitment s tx))
        × ((n : ℕ)
            → contains n (Transaction.nullifiers tx) ≡ true
            → contains n s.nullifiers ≡ false)
        × ((n : ℕ)
            → contains n (Transaction.output_note_ids tx) ≡ true
            → contains_key n s.output_notes ≡ false)
        × ((n : ℕ)
            → contains n (Transaction.unauthenticated_notes tx) ≡ true
            → contains_key n s.output_notes ≡ true)
  unfolding verify_state
  verify_state-admissible e =
      let spent = filter-is_empty (λ n. contains n s.nullifiers) (Transaction.nullifiers tx) in
      let dup =
        filter-is_empty (λ n. contains_key n s.output_notes) (Transaction.output_note_ids tx) in
      let found =
        filter-is_empty (λ n. not (contains_key n s.output_notes))
          (Transaction.unauthenticated_notes tx) in
      (
        ground arith,
        spent (ground arith),
        dup (ground arith),
        λ n m. ground (arith, found (ground arith) n m),
      )

  verify_transaction-admissible :
      IsCounted s → verify_transaction s tx ≡ some (ok tt) → IsAdmissible
  unfolding verify_transaction oldest_committed_state
  verify_transaction-admissible c e =
      let (a, b, d, f) = verify_state-admissible (ground arith) in
      record {
        unexpired = ground arith;
        recent = ground arith;
        account = a;
        unspent = b;
        new_notes = d;
        notes_found = f;
      }

  -- While the committed blocks are fewer than 2 ^ 32 and the chain is as long as they are, a
  -- transaction is verified exactly if it meets every condition.
  pub verify_transaction-IsAdmissible :
      IsCounted s → (verify_transaction s tx ≡ some (ok tt)) ↔ IsAdmissible
  verify_transaction-IsAdmissible c = (verify_transaction-admissible c, verify_transaction-admits c)

  verify_transaction-returns :
      IsCounted s → (r : Result (Unit {0}) AddTransactionError) × (verify_transaction s tx ≡ some r)
  unfolding verify_transaction oldest_committed_state
  verify_transaction-returns c =
      elim (Bool-cases (leb (Transaction.expires_at tx) (s.chain_tip + s.expiration_slack))) [
        | inl e ↦
            (err (expired (Transaction.expires_at tx) (s.chain_tip + s.expiration_slack)), rw e)
        | inr e ↦ (
          if ltb tx.authentication_height (s.chain_tip - length s.committed_blocks)
              then err
                  (stale_inputs tx.authentication_height (s.chain_tip - length s.committed_blocks))
              else verify_state s tx,
          ground arith,
        )
      ]

  add_transaction_cases :
      IsCounted s
      → (r : Result (Unit {0}) AddTransactionError) → verify_transaction s tx ≡ some r
      → (add_transaction s tx ≡ some ((insert_transaction s tx).0, ok (insert_transaction s tx).1))
          × IsAdmissible
        ⊎ (e : AddTransactionError) × (add_transaction s tx ≡ some (s, err e)) × (¬ IsAdmissible)
  unfolding add_transaction
  add_transaction_cases c (ok u) e =
      inl (rw (e, add_transaction), verify_transaction-admissible c e)
  add_transaction_cases c (err x) e =
      inr (x, rw (e, add_transaction), λ a. cc (e, verify_transaction-admits c a))

  -- While the committed blocks are fewer than 2 ^ 32 and the chain is as long as they are, the
  -- call returns; it inserts exactly the admissible transactions, and a refused one leaves the
  -- state as it was.
  pub add_transaction-atomic :
      IsCounted s
      → (add_transaction s tx ≡ some ((insert_transaction s tx).0, ok (insert_transaction s tx).1))
          × IsAdmissible
        ⊎ (e : AddTransactionError) × (add_transaction s tx ≡ some (s, err e)) × (¬ IsAdmissible)
  add_transaction-atomic c =
      let (r, e) = verify_transaction-returns c in add_transaction_cases c r e
