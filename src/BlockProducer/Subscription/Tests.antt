-- ===== src/BlockProducer/Subscription/Tests.antt =====
-- The tracker with one event, and with a second one.
use miden_node.Prelude.{ℕ, ◌≡◌, refl, not, some, none, [], ◌∷◌, filter, arith}
use miden_node.Collections.BTreeSet.{contains}
use miden_node.Collections.BTreeMap
use miden_node.BlockProducer.Outside.{Outside}
use miden_node.BlockProducer.Subscription.{
  MempoolEvent, added_event, InflightTransactions, track, untrack, iter,
}
use miden_node.BlockProducer.Subscription.Chronological.{IsTracking, is_of, track_lem, untrack_lem}

abbrev outside : Outside
outside = record {
  ProvenBatch = ℕ;
  batch_id = λ b. b;
  from_ids = λ txs. 100;
  BlockHeader = ℕ;
  block_num = λ h. h;
  NetworkNote = ℕ;
  AccountUpdateDetails = ℕ;
  network_notes = λ tx. [];
  account_delta = λ tx. none;
}

abbrev first : MempoolEvent outside
first = added_event 7 (60 ∷ []) [] none

abbrev second : MempoolEvent outside
second = added_event 3 (61 ∷ []) [] none

abbrev one : InflightTransactions outside
one = record { txs = (0, first) ∷ []; index = (7, 0) ∷ [] }

one-IsTracking : IsTracking one
unfolding BTreeMap.get contains
one-IsTracking = record {
  ascending = (λ y e. absurd cc, tt);
  indexed = λ place event h. (7, ground arith, ground arith);
  stored = λ id place h. (first, ground arith, ground arith);
}

track_lem_example :
    (t' : InflightTransactions outside) × (track one second ≡ some t')
    × IsTracking t'
    × (iter t' ≡ first ∷ second ∷ [])
unfolding BTreeMap.get
track_lem_example = track_lem one 3 (61 ∷ []) [] none one-IsTracking refl

untrack_lem_example :
    (t' : InflightTransactions outside) × (untrack one 7 ≡ some t')
    × IsTracking t'
    × (iter t' ≡ filter (λ event. not (is_of 7 event)) (first ∷ []))
unfolding BTreeMap.get
untrack_lem_example = untrack_lem one 7 one-IsTracking refl
