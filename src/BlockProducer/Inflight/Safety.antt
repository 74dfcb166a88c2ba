-- ===== src/BlockProducer/Inflight/Safety.antt =====
-- Two transactions that are added one after the other with `add_transaction`.
use miden_node.Prelude.{ℕ, ◌≡◌, true, some, arith, inl, inr, if◌then◌else◌, ◌||◌, ◌⊎◌, ap, ◌∙◌}
use miden_node.Collections.BTreeSet.{BTreeSet, contains}
use miden_node.Collections.BTreeMap
use miden_node.Collections.BTreeMap.{contains_key}
use miden_node.BlockProducer.Graph.{ok, err}
use miden_node.BlockProducer.Transaction
use miden_node.BlockProducer.Transaction.{AuthenticatedTransaction, AddTransactionError}
use miden_node.BlockProducer.Inflight.{
  InflightState, add_transaction, insert_transaction, current_commitment, commitment_or_default,
  inflight,
}
use miden_node.BlockProducer.Inflight.Admission.{IsCounted, add_transaction-atomic}
use miden_node.BlockProducer.Inflight.Effects.{
  insert_transaction_lem, current_commitment-insert_transaction,
}

module _ (s : InflightState) (tx : AuthenticatedTransaction) (s' : InflightState)
    (parents : BTreeSet) (counted : IsCounted s)
    (added : add_transaction s tx ≡ some (s', ok parents)) where
  after : (insert_transaction s tx).0 ≡ s'
  after = elim (add_transaction-atomic s tx counted) [
    | inl (e, _) ↦ ground arith
    | inr (x, e, _) ↦ absurd (ground arith)
  ]

  counted' : IsCounted s'
  counted' =
      let law = insert_transaction_lem s tx in
      let blocks : s'.committed_blocks ≡ s.committed_blocks = rw (← after) law.4 in
      let tip : s'.chain_tip ≡ s.chain_tip = rw (← after) law.5 in
      record { few = rw blocks counted.few; reached = rw (blocks, tip) counted.reached }

  -- After a transaction is added to a state whose committed blocks are fewer than 2 ^ 32 and no
  -- more than the chain has, every one that consumes one of its notes, or creates one
  -- of its notes again, is refused and changes nothing.
  pub no_double_spend :
      (next : AuthenticatedTransaction) (n : ℕ)
      → (contains n (Transaction.nullifiers tx) ≡ true)
          × (contains n (Transaction.nullifiers next) ≡ true)
        ⊎ (contains n (Transaction.output_note_ids tx) ≡ true)
          × (contains n (Transaction.output_note_ids next) ≡ true)
      → (e : AddTransactionError) × (add_transaction s' next ≡ some (s', err e))
  no_double_spend next n shared = elim (add_transaction-atomic s' next counted') [
    | inr (x, e, _) ↦ (x, e)
    | inl (_, a) ↦
        let law = insert_transaction_lem s tx in
        let spent : contains n s'.nullifiers
            ≡ (contains n s.nullifiers || contains n (Transaction.nullifiers tx)) =
          rw (← after) (law.0 n) in
        let created : BTreeMap.get n s'.output_notes ≡ (
            if contains n (Transaction.output_note_ids tx)
            then some (inflight (Transaction.id tx))
            else BTreeMap.get n s.output_notes) =
          rw (← after) (law.1 n) in
        absurd (ground (arith, spent, created, a.unspent n, a.new_notes n))
  ]

  -- After a transaction is added to a state whose committed blocks are fewer than 2 ^ 32 and no
  -- more than the chain has, one of the same account is admitted only if it starts from the
  -- commitment that the first one ends with, whatever the store reports for the account.
  pub account_chain :
      (next : AuthenticatedTransaction) (s'' : InflightState) (parents' : BTreeSet)
      → Transaction.account_id next ≡ Transaction.account_id tx
      → add_transaction s' next ≡ some (s'', ok parents')
      → next.inner.initial_state_commitment ≡ tx.inner.final_state_commitment
  account_chain next s'' parents' same e = elim (add_transaction-atomic s' next counted') [
    | inr (x, e', _) ↦ absurd (ground arith)
    | inl (_, a) ↦
        let current : current_commitment s' next ≡ some tx.inner.final_state_commitment =
          rw (← after) (current_commitment-insert_transaction s tx next same) in
        a.account ∙ ap commitment_or_default current
  ]
