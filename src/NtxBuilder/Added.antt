-- ===== src/NtxBuilder/Added.antt =====
-- `State::add_transaction` of crates/ntx-builder/src/state/mod.rs: a transaction that the mempool
-- added. An error leaves the state with what was done before it; `none` is a panic.
pub mod Loaded
pub mod Queued
use miden_node.Prelude.{ℕ, Option, none, some, List, [], ◌∷◌, ◌++◌, if◌then◌else◌, Result, ok, err}
use miden_node.Collections.BTreeMap
use miden_node.Collections.BTreeMap.{contains_key}
use miden_node.Collections.BTreeSet
use miden_node.NtxBuilder.Outside.{Outside}
use miden_node.NtxBuilder.Account.{
  from_uncommitted_account, add_delta, add_nullifier, AccountUpdateDetails, NetworkAccountUpdate,
  new, delta, from_protocol, prefix,
}
use miden_node.NtxBuilder.State.{
  State, Store, TransactionImpact, default_impact, impact_is_empty, UpdateError,
  failed_to_load_account, account_with_delta_not_found, fetch_account, add_network_note,
}

module _ (O : Outside) (StoreError : Type 0) where
  -- The match on the account update, for its prefix.
  unfoldable pub apply_update :
      Store O StoreError
      → NetworkAccountUpdate O
      → ℕ
      → State O StoreError
      → Option (State O StoreError × Result (Unit {0}) (UpdateError StoreError))
  apply_update store (new account) p s = some (
    record s {
      accounts = BTreeMap.insert p (from_uncommitted_account O account) s.accounts;
      queue = s.queue ++ p ∷ [];
    },
    ok tt,
  )
  apply_update store (delta d) p s = elim (fetch_account O StoreError store p s) [
    | err e ↦ some (s, err (failed_to_load_account e))
    | ok (s', none) ↦ some (s', err account_with_delta_not_found)
    | ok (s', some account) ↦ elim (add_delta O d account) [
      | none ↦ none
      | some updated ↦ some (record s' { accounts = BTreeMap.insert p updated s'.accounts }, ok tt)
    ]
  ]

  -- The account update of `add_transaction`, with the prefix for the impact.
  unfoldable pub update_account :
      Store O StoreError
      → Option (AccountUpdateDetails O)
      → State O StoreError
      → Option (State O StoreError × Result (Option ℕ) (UpdateError StoreError))
  update_account store none s = some (s, ok none)
  update_account store (some details) s = elim (from_protocol O details) [
    | none ↦ some (s, ok none)
    | some update ↦ elim (prefix O update) [
      | none ↦ none
      | some p ↦ elim (apply_update store update p s) [
        | none ↦ none
        | some (s', err e) ↦ some (s', err e)
        | some (s', ok _) ↦
            some (record s' { in_progress = BTreeSet.remove p s'.in_progress }, ok (some p))
      ]
    ]
  ]

  -- The loop over the network notes of `add_transaction`.
  unfoldable pub add_notes :
      Store O StoreError
      → List O.NetworkNote
      → TransactionImpact
      → State O StoreError
      → State O StoreError × Result TransactionImpact (UpdateError StoreError)
  add_notes store [] impact s = (s, ok impact)
  add_notes store (note ∷ rest) impact s =
      let nullifier = O.nullifier note in
      let impact' = record impact { notes = BTreeSet.insert nullifier impact.notes } in
      let s1 = record s {
        nullifier_idx = BTreeMap.insert nullifier (O.account_prefix note) s.nullifier_idx;
      } in
      elim (add_network_note O StoreError store note s1) [
        | err e ↦ (s1, err (failed_to_load_account e))
        | ok s' ↦ add_notes store rest impact' s'
      ]

  -- The loop over the nullifiers of `add_transaction`.
  unfoldable pub consume :
      List ℕ
      → TransactionImpact
      → State O StoreError
      → Option (State O StoreError × TransactionImpact)
  consume [] impact s = some (s, impact)
  consume (nullifier ∷ rest) impact s = elim (BTreeMap.get nullifier s.nullifier_idx) [
    | none ↦ consume rest impact s
    | some p ↦ elim (BTreeMap.get p s.accounts) [
      | none ↦ none
      | some account ↦ elim (add_nullifier O nullifier account) [
        | none ↦ none
        | some account' ↦
            consume rest
              (record impact { nullifiers = BTreeSet.insert nullifier impact.nullifiers })
              (record s { accounts = BTreeMap.insert p account' s.accounts })
      ]
    ]
  ]

  -- The end of `add_transaction`: a transaction with an impact is tracked.
  unfoldable pub track_impact : ℕ → TransactionImpact → State O StoreError → State O StoreError
  track_impact id impact s =
      if impact_is_empty impact
      then s
      else record s { inflight_txs = BTreeMap.insert id impact s.inflight_txs }

  unfoldable pub add_transaction :
      Store O StoreError
      → ℕ
      → List ℕ
      → List O.NetworkNote
      → Option (AccountUpdateDetails O)
      → State O StoreError
      → Option (State O StoreError × Result (Unit {0}) (UpdateError StoreError))
  add_transaction store id nullifiers network_notes account_delta s =
      if contains_key id s.inflight_txs
      then some (s, ok tt)
      else elim (update_account store account_delta s) [
        | none ↦ none
        | some (s1, err e) ↦ some (s1, err e)
        | some (s1, ok updated) ↦
            let (s2, added) =
              add_notes store network_notes (record default_impact { account_delta = updated })
                s1 in
            elim added [
              | err e ↦ some (s2, err e)
              | ok impact ↦ elim (consume nullifiers impact s2) [
                | none ↦ none
                | some (s3, impact') ↦ some (track_impact id impact' s3, ok tt)
              ]
            ]
      ]
