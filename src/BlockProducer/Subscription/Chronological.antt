-- ===== src/BlockProducer/Subscription/Chronological.antt =====
-- The tracker of inflight transactions in subscription.rs, against the list of its events.
use miden_node.Prelude.{
  ℕ, ◌<◌, ◌≡◌, refl, sym, true, false, not, Bool, Option, none, some, List, [], ◌∷◌, ◌++◌, arith,
  ◌==◌, inl, inr, Bool-cases, Option-cases, filter,
}
use mathlib.Core.Path.{subst}
use miden_node.Collections.BTreeSet
use miden_node.Collections.BTreeSet.{BTreeSet, contains, IsAscending}
use miden_node.Collections.BTreeMap
use miden_node.Collections.BTreeMap.{BTreeMap, contains_key}
use miden_node.Collections.BTreeMap.Keys.{keys-insert, keys-remove}
use miden_node.BlockProducer.Outside.{Outside}
use miden_node.BlockProducer.Subscription.{
  MempoolEvent, added_event, committed_event, reverted_event, InflightTransactions, next_index,
  track, untrack, iter,
}

module _ {ℓ} {V : Type ℓ} where
  -- Behind all the keys, an entry is appended.
  values-insert :
      (k : ℕ) (v : V) (m : BTreeMap V)
      → ((j : ℕ) → contains j (BTreeMap.keys m) ≡ true → j < k)
      → BTreeMap.values (BTreeMap.insert k v m) ≡ BTreeMap.values m ++ v ∷ []
  unfolding BTreeMap.insert
  values-insert k v [] h = refl
  values-insert k v ((i, w) ∷ m) h =
      let rest =
        values-insert k v m
          (λ j e. h j (ground (arith, BTreeSet.contains-cons j i (BTreeMap.keys m)))) in
      ground (arith, h i (ground (arith, BTreeSet.contains-cons i i (BTreeMap.keys m))), rest)

  -- The removal of a key drops the values that a test picks out, if it picks out those of the key.
  values-remove :
      (k : ℕ) (p : V → Bool) (m : BTreeMap V)
      → IsAscending (BTreeMap.keys m)
      → ((j : ℕ) (v : V) → BTreeMap.get j m ≡ some v → p v ≡ (j == k))
      → BTreeMap.values (BTreeMap.remove k m) ≡ filter (λ v. not (p v)) (BTreeMap.values m)
  unfolding BTreeMap.remove BTreeMap.get
  values-remove k p [] asc h = refl
  values-remove k p ((i, w) ∷ m) asc h =
      let new = BTreeSet.head-fresh i (BTreeMap.keys m) asc in
      let rest =
        values-remove k p m asc.1
          (λ j v e. h j v (ground (arith, new, BTreeMap.contains-keys i m))) in
      ground (arith, h i w, rest)

module _ {O : Outside} where
  -- The transaction that an event announces.
  abbrev pub event_id : MempoolEvent O → Option ℕ
  event_id (added_event id nullifiers notes delta) = some id
  event_id (committed_event header txs) = none
  event_id (reverted_event txs) = none

  abbrev pub is_of : ℕ → MempoolEvent O → Bool
  is_of id event = elim (event_id event) [ none ↦ false | some t ↦ t == id ]

  next_index-bound :
      (m : BTreeMap (MempoolEvent O))
      → IsAscending (BTreeMap.keys m)
      → (j : ℕ) → contains j (BTreeMap.keys m) ≡ true
      → j < next_index m
  next_index-bound [] asc j h = absurd (ground (arith, BTreeSet.contains-nil j))
  next_index-bound ((i, w) ∷ []) asc j h =
      ground (arith, BTreeSet.contains-cons j i [], BTreeSet.contains-nil j)
  next_index-bound ((i, w) ∷ (i', w') ∷ m) asc j h =
      let rest = next_index-bound ((i', w') ∷ m) asc.1 in
      let head = BTreeSet.contains-cons i' i' (BTreeMap.keys m) in
      ground
        (arith, BTreeSet.contains-cons j i (i' ∷ BTreeMap.keys m), rest j, rest i', asc.0 i', head)

  -- The index holds where the event of each transaction is, and the events have ascending places.
  pub record IsTracking (t : InflightTransactions O) : Type 0 where
    pub ascending : IsAscending (BTreeMap.keys t.txs)
    pub indexed :
        (place : ℕ) (event : MempoolEvent O)
        → BTreeMap.get place t.txs ≡ some event
        → (id : ℕ) × (event_id event ≡ some id) × (BTreeMap.get id t.index ≡ some place)
    pub stored :
        (id place : ℕ)
        → BTreeMap.get id t.index ≡ some place
        → (event : MempoolEvent O) × (BTreeMap.get place t.txs ≡ some event)
          × (event_id event ≡ some id)

  -- On a consistent tracker the event of a transaction that is not tracked comes behind the
  -- others, and the tracker stays consistent.
  pub track_lem :
      (t : InflightTransactions O) (id : ℕ) (nullifiers : List ℕ) (notes : List O.NetworkNote)
      (delta : Option O.AccountUpdateDetails)
      → IsTracking t
      → contains_key id t.index ≡ false
      → (t' : InflightTransactions O) × (track t (added_event id nullifiers notes delta) ≡ some t')
        × IsTracking t'
        × (iter t' ≡ iter t ++ added_event id nullifiers notes delta ∷ [])
  unfolding track
  track_lem t id nullifiers notes delta k new =
      let event = added_event id nullifiers notes delta in
      let next = next_index t.txs in
      let bound = next_index-bound t.txs k.ascending in
      let placed = λ (j : ℕ). BTreeMap.get-insert j next event t.txs in
      let known = λ (i : ℕ). BTreeMap.get-insert i id next t.index in
      (
        record { txs = BTreeMap.insert next event t.txs; index = BTreeMap.insert id next t.index },
        rw new,
        record {
          ascending =
              subst IsAscending (sym (keys-insert next event t.txs))
                (BTreeSet.insert-IsAscending next (BTreeMap.keys t.txs) k.ascending);
          indexed = λ place e h. elim (Bool-cases (place == next)) [
            | inl same ↦ (id, ground (arith, placed place), ground (arith, known id))
            | inr other ↦
                let (i, a, b) = k.indexed place e (ground (arith, placed place)) in
                (i, a, ground (arith, known i))
          ];
          stored = λ i place h. elim (Bool-cases (i == id)) [
            | inl same ↦ (event, ground (arith, known i, placed place), ground arith)
            | inr other ↦
                let (e, a, b) = k.stored i place (ground (arith, known i)) in
                (
                  e,
                  ground (arith, placed place, bound place, BTreeMap.contains-keys place t.txs),
                  b,
                )
          ];
        },
        values-insert next event t.txs bound,
      )

  -- On a consistent tracker the event of a tracked transaction is taken out, the others keep their
  -- order, and the tracker stays consistent.
  pub untrack_lem :
      (t : InflightTransactions O) (id : ℕ)
      → IsTracking t
      → contains_key id t.index ≡ true
      → (t' : InflightTransactions O) × (untrack t id ≡ some t')
        × IsTracking t'
        × (iter t' ≡ filter (λ event. not (is_of id event)) (iter t))
  unfolding untrack
  untrack_lem t id k known = elim (Option-cases (BTreeMap.get id t.index)) [
    | inl gone ↦ absurd (ground arith)
    | inr (place, found) ↦
        let (event, at_place, named) = k.stored id place found in
        let left = λ (j : ℕ). BTreeMap.get-remove j place t.txs in
        let left_index = λ (i : ℕ). BTreeMap.get-remove i id t.index in
        (
          record { txs = BTreeMap.remove place t.txs; index = BTreeMap.remove id t.index },
          rw (found, untrack),
          record {
            ascending =
                subst IsAscending (sym (keys-remove place t.txs))
                  (BTreeSet.remove-IsAscending place (BTreeMap.keys t.txs) k.ascending);
            indexed = λ j e h.
                let (i, a, b) = k.indexed j e (ground (arith, left j)) in
                (i, a, ground (arith, left_index i, left j));
            stored = λ i j h.
                let (e, a, b) = k.stored i j (ground (arith, left_index i)) in
                (e, ground (arith, left j, left_index i), b);
          },
          values-remove place (is_of id) t.txs k.ascending
              (λ j e h. let (i, a, b) = k.indexed j e h in ground arith),
        )
  ]
