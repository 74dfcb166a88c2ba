-- ===== src/BlockProducer/Subscription.antt =====
-- The event subscription of crates/block-producer/src/mempool/subscription.rs, with the events of
-- crates/proto/src/domain/mempool.rs. The event's notes and details and the channel belong to
-- other crates. `none`, for a method, is a panic.
pub mod Chronological
mod Tests
use miden_node.Prelude.{
  ℕ, ◌*◌, ◌+◌, not, Option, none, some, List, [], ◌∷◌, if◌then◌else◌, length, leb, ◌==◌, last?,
}
use miden_node.Collections.BTreeSet.{BTreeSet}
use miden_node.Collections.BTreeMap
use miden_node.Collections.BTreeMap.{BTreeMap, contains_key}
use miden_node.BlockProducer.Outside.{Outside, Channel}
use miden_node.BlockProducer.Graph.{Result, ok, err}
use miden_node.BlockProducer.Transaction
use miden_node.BlockProducer.Transaction.{AuthenticatedTransaction}

pub data MempoolEvent (O : Outside) : Type 0 where
  added_event : ℕ → List ℕ → List O.NetworkNote → Option O.AccountUpdateDetails → MempoolEvent O
  committed_event : O.BlockHeader → List ℕ → MempoolEvent O
  reverted_event : BTreeSet → MempoolEvent O

pub record InflightTransactions (O : Outside) : Type 0 where
  pub txs : BTreeMap (MempoolEvent O)
  pub index : BTreeMap ℕ

module _ {O : Outside} where
  abbrev pub untracked : InflightTransactions O
  untracked = record { txs = []; index = [] }

  -- `last_key_value().map(|(k, _)| k + 1).unwrap_or_default()`
  abbrev pub next_index : BTreeMap (MempoolEvent O) → ℕ
  next_index m = elim (last? m) [ none ↦ 0 | some (k, _) ↦ k + 1 ]

  -- `InflightTransactions::insert`
  unfoldable pub track : InflightTransactions O → MempoolEvent O → Option (InflightTransactions O)
  track t (added_event id nullifiers notes delta) =
      let idx = next_index t.txs in
      if contains_key id t.index
      then none
      else some (record {
        txs = BTreeMap.insert idx (added_event id nullifiers notes delta) t.txs;
        index = BTreeMap.insert id idx t.index;
      })
  track t (committed_event header txs) = none
  track t (reverted_event txs) = none

  -- `InflightTransactions::remove`
  unfoldable pub untrack : InflightTransactions O → ℕ → Option (InflightTransactions O)
  untrack t tx = elim (BTreeMap.get tx t.index) [
    | none ↦ none
    | some idx ↦
        some (record { txs = BTreeMap.remove idx t.txs; index = BTreeMap.remove tx t.index })
  ]

  unfoldable pub untrack_all : InflightTransactions O → List ℕ → Option (InflightTransactions O)
  untrack_all t [] = some t
  untrack_all t (tx ∷ txs) = elim (untrack t tx) [ none ↦ none | some t' ↦ untrack_all t' txs ]

  -- `InflightTransactions::iter`
  abbrev pub iter : InflightTransactions O → List (MempoolEvent O)
  iter t = BTreeMap.values t.txs

  module _ (C : Channel (MempoolEvent O)) where
    pub record SubscriptionProvider : Type 0 where
      pub subscription : Option C.Sender
      pub chain_tip : ℕ
      pub inflight_txs : InflightTransactions O

    -- `SubscriptionProvider::new`
    unfoldable pub new_provider : ℕ → SubscriptionProvider
    new_provider chain_tip = record {
      subscription = none;
      chain_tip = chain_tip;
      inflight_txs = untracked;
    }

    -- A failed send ends the subscription.
    unfoldable pub send_event : Option C.Sender → MempoolEvent O → Option C.Sender
    send_event none event = none
    send_event (some sender) event = C.try_send sender event

    unfoldable pub send_all : Option C.Sender → List (MempoolEvent O) → Option C.Sender
    send_all sender [] = sender
    send_all sender (event ∷ events) = send_all (send_event sender event) events

    unfoldable pub subscribe : SubscriptionProvider → ℕ → SubscriptionProvider × Result C.Receiver ℕ
    subscribe p chain_tip =
        let capacity = length p.inflight_txs.txs * 2 in
        let (tx, rx) = C.channel (if leb 1024 capacity then capacity else 1024) in
        if not (p.chain_tip == chain_tip)
        then (p, err p.chain_tip)
        else (record p { subscription = send_all (some tx) (iter p.inflight_txs) }, ok rx)

    unfoldable pub transaction_added :
        SubscriptionProvider → AuthenticatedTransaction → Option SubscriptionProvider
    transaction_added p tx =
        let event =
          added_event (Transaction.id tx) (Transaction.nullifiers tx) (O.network_notes tx)
            (O.account_delta tx) in
        elim (track p.inflight_txs event) [
          | none ↦ none
          | some t ↦
              some (record p { subscription = send_event p.subscription event; inflight_txs = t })
        ]

    unfoldable pub block_committed :
        SubscriptionProvider → O.BlockHeader → List ℕ → Option SubscriptionProvider
    block_committed p header txs = elim (untrack_all p.inflight_txs txs) [
      | none ↦ none
      | some t ↦ some (record {
        subscription = send_event p.subscription (committed_event header txs);
        chain_tip = O.block_num header;
        inflight_txs = t;
      })
    ]

    unfoldable pub txs_reverted : SubscriptionProvider → BTreeSet → Option SubscriptionProvider
    txs_reverted p txs = elim (untrack_all p.inflight_txs txs) [
      | none ↦ none
      | some t ↦ some (record p {
        subscription = send_event p.subscription (reverted_event txs);
        inflight_txs = t;
      })
    ]
