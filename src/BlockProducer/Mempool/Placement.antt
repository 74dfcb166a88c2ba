-- ===== src/BlockProducer/Mempool/Placement.antt =====
-- What the parts of `Mempool::add_transaction` do to the graph, the account, the events and the
-- expirations.
use miden_node.Prelude.{
  ℕ, ◌≡◌, ap, true, false, ◌||◌, some, if◌then◌else◌, arith, ◌==◌, inl, inr, last?-append, ◌≢◌,
}
use miden_node.BlockProducer.Expirations
use miden_node.Collections.BTreeSet.{BTreeSet, contains}
use miden_node.Collections.BTreeMap
use miden_node.Collections.BTreeMap.{BTreeMap, contains_key}
use miden_node.BlockProducer.Graph
use miden_node.BlockProducer.Graph.{ok, err, contains_node, insert_pending, promote_pending}
use miden_node.BlockProducer.Graph.WellFormed.{IsWellFormed}
use miden_node.BlockProducer.Graph.Insert.{insert_pending-IsWellFormed, insert_pending_ok}
use miden_node.BlockProducer.Graph.Promote.{
  promote_pending-IsWellFormed, promote_pending_lem, promote_pending-edges,
}
use miden_node.BlockProducer.Outside.{Outside, Channel}
use miden_node.BlockProducer.Account
use miden_node.BlockProducer.Account.{InflightAccountState}
use miden_node.BlockProducer.Transaction
use miden_node.BlockProducer.Transaction.{AuthenticatedTransaction, AddTransactionError}
use miden_node.BlockProducer.Inflight.{InflightState, insert_transaction, account_or_default}
use miden_node.BlockProducer.Inflight.Effects.{insert-last_uncommitted, last_uncommitted}
use miden_node.BlockProducer.TransactionGraph
use miden_node.BlockProducer.TransactionGraph.{TransactionGraph}
use miden_node.BlockProducer.Subscription.{
  MempoolEvent, transaction_added, track, SubscriptionProvider, added_event, send_event, next_index,
}
use miden_node.BlockProducer.Mempool.{Mempool}

-- What `TransactionGraph::insert` does with a new transaction and known parents.
module _ (g : TransactionGraph) (tx : AuthenticatedTransaction) (parents : BTreeSet)
    (w : IsWellFormed g) (fresh : contains_node g (Transaction.id tx) ≡ false)
    (known : (p : ℕ) → contains p parents ≡ true → contains_node g p ≡ true) where
  abbrev id : ℕ
  id = Transaction.id tx

  abbrev g₁ : TransactionGraph
  g₁ = (insert_pending g id parents).0

  abbrev pub g₂ : TransactionGraph
  g₂ = (promote_pending g₁ id tx).0

  -- The transaction is stored under its identifier behind its parents, and the other nodes stay.
  pub insert_new :
      (TransactionGraph.insert g tx parents ≡ (g₂, ok tt))
      × IsWellFormed g₂
      × ((k : ℕ) → contains_node g₂ k ≡ (k == id || contains_node g k))
      × ((k : ℕ) → Graph.get g₂ k ≡ (if k == id then some tx else Graph.get g k))
      × (Graph.parents g₂ id ≡ some parents)
      × ((k : ℕ) → k ≢ id → Graph.parents g₂ k ≡ Graph.parents g k)
  unfolding TransactionGraph.insert
  insert_new =
      let (done, entry, pending, rest) = insert_pending_ok g id parents fresh known in
      let same = promote_pending-edges g₁ id tx in
      let w₁ = insert_pending-IsWellFormed g id parents w in
      elim (promote_pending_lem g₁ id tx w₁) [
        | inr (absent, _) ↦ absurd (ground (arith, pending id))
        | inl (_, promoted, law) ↦ (
          rw (done, TransactionGraph.insert) (ap (λ r. (g₂, r)) promoted),
          promote_pending-IsWellFormed g₁ id tx w₁,
          λ k. ground (arith, law k, rest k, pending k),
          λ k. ground (arith, law k, rest k),
          cc (entry, same.0),
          λ k ne. let kept = (rest k).2 ne in cc (kept, same.0),
        )
      ]

-- No transaction but the new one is the last of the account.
pub last_uncommitted-insert :
    (a : InflightAccountState) (state tx t : ℕ)
    → last_uncommitted (Account.insert a state tx).0 ≡ some t
    → t ≡ tx
unfolding Account.insert
last_uncommitted-insert a state tx t e = ground (
  arith,
  last?-append a.states (state, tx),
  insert-last_uncommitted (Account.insert a state tx).0 0 0,
)

-- The account after a transaction.
pub get-accounts :
    (s : InflightState) (tx : AuthenticatedTransaction) (a : ℕ)
    → BTreeMap.get a (insert_transaction s tx).0.accounts ≡ (
        if a == Transaction.account_id tx
        then some
            (Account.insert
              (account_or_default (BTreeMap.get (Transaction.account_id tx) s.accounts))
              tx.inner.final_state_commitment
              (Transaction.id tx)).0
        else BTreeMap.get a s.accounts)
unfolding insert_transaction
get-accounts s tx a =
    BTreeMap.get-insert a (Transaction.account_id tx)
      (Account.insert (account_or_default (BTreeMap.get (Transaction.account_id tx) s.accounts))
        tx.inner.final_state_commitment (Transaction.id tx)).0
      s.accounts

pub contains_key-insert :
    (e : Expirations.TransactionExpirations) (tx block t : ℕ)
    → contains_key t (Expirations.insert e tx block).by_tx ≡ (t == tx || contains_key t e.by_tx)
unfolding Expirations.insert
contains_key-insert e tx block t = ground (arith, BTreeMap.get-insert t tx block e.by_tx)

module _ {O : Outside} {C : Channel (MempoolEvent O)} where
  -- A transaction that is not tracked yet is announced.
  pub transaction_added-index :
      (m : Mempool C) (tx : AuthenticatedTransaction)
      → contains_key (Transaction.id tx) m.subscription.inflight_txs.index ≡ false
      → (p : SubscriptionProvider C) × (transaction_added C m.subscription tx ≡ some p)
        × ((t : ℕ)
            → contains_key t p.inflight_txs.index
              ≡ (t == Transaction.id tx || contains_key t m.subscription.inflight_txs.index))
  unfolding transaction_added track
  transaction_added-index m tx new =
      let t = m.subscription.inflight_txs in
      let event =
        added_event (Transaction.id tx) (Transaction.nullifiers tx) (O.network_notes tx)
          (O.account_delta tx) in
      (
        record m.subscription {
          subscription = send_event C m.subscription.subscription event;
          inflight_txs = record {
            txs = BTreeMap.insert (next_index t.txs) event t.txs;
            index = BTreeMap.insert (Transaction.id tx) (next_index t.txs) t.index;
          };
        },
        rw (new, transaction_added, track),
        λ k. ground (arith, BTreeMap.get-insert k (Transaction.id tx) (next_index t.txs) t.index),
      )
