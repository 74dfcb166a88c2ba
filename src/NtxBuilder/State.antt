-- ===== src/NtxBuilder/State.antt =====
-- The state of the builder, crates/ntx-builder/src/state/mod.rs, with the method names of `State`.
-- The store is an argument: it answers each prefix in one way while one event is handled. A hash map
-- and a hash set are modelled by ordered ones. `none` is a panic.
pub mod Queue
pub mod Rotate
pub mod Fetch
pub mod Select
use miden_node.Prelude.{
  ℕ, zero, suc, Bool, not, ◌&&◌, Option, none, some, List, [], ◌∷◌, ◌++◌, length, take,
  if◌then◌else◌, Result, ok, err, is_empty, is_some,
}
use miden_node.Collections.BTreeMap
use miden_node.Collections.BTreeMap.{BTreeMap}
use miden_node.Collections.BTreeSet
use miden_node.Collections.BTreeSet.{BTreeSet}
use miden_node.NtxBuilder.Outside.{Outside}
use miden_node.NtxBuilder.Account.{
  AccountState, from_committed_account, latest_account, add_note, notes, account_state_is_empty,
}

pub record TransactionImpact : Type 0 where
  pub account_delta : Option ℕ
  pub notes : BTreeSet
  pub nullifiers : BTreeSet

unfoldable pub default_impact : TransactionImpact
default_impact = record { account_delta = none; notes = []; nullifiers = [] }

unfoldable pub impact_is_empty : TransactionImpact → Bool
impact_is_empty impact =
    not (is_some impact.account_delta) && is_empty impact.notes && is_empty impact.nullifiers

-- What `mempool_update` fails with.
pub data UpdateError (E : Type 0) : Type 0 where
  failed_to_load_account : E → UpdateError E
  account_with_delta_not_found : UpdateError E

module _ (O : Outside) (StoreError : Type 0) where
  -- The answers of `get_unconsumed_network_notes` and `get_network_account`.
  pub record Store : Type 0 where
    pub unconsumed_network_notes : Result (List O.NetworkNote) StoreError
    pub network_account : ℕ → Result (Option O.Account) StoreError

  pub record State : Type 0 where
    pub accounts : BTreeMap (AccountState O)
    pub queue : List ℕ
    pub in_progress : BTreeSet
    pub inflight_txs : BTreeMap TransactionImpact
    pub nullifier_idx : BTreeMap ℕ

  pub record TransactionCandidate : Type 0 where
    pub account : O.Account
    pub notes : List O.NetworkNote

  -- The account that is found, or fetched and tracked; its update is written by the caller.
  unfoldable pub fetch_account :
      Store → ℕ → State → Result (State × Option (AccountState O)) StoreError
  fetch_account store p s = elim (BTreeMap.get p s.accounts) [
    | some account ↦ ok (s, some account)
    | none ↦ elim (store.network_account p) [
      | err e ↦ err e
      | ok none ↦ ok (s, none)
      | ok (some account) ↦
          let state = from_committed_account O account in
          ok (
            record s { accounts = BTreeMap.insert p state s.accounts; queue = s.queue ++ p ∷ [] },
            some state,
          )
    ]
  ]

  -- `fetch_account`, then `add_note` on the account if there is one.
  unfoldable pub add_network_note : Store → O.NetworkNote → State → Result State StoreError
  add_network_note store note s = elim (fetch_account store (O.account_prefix note) s) [
    | err e ↦ err e
    | ok (s', none) ↦ ok s'
    | ok (s', some account) ↦ ok (record s' {
      accounts = BTreeMap.insert (O.account_prefix note) (add_note O note account) s'.accounts;
    })
  ]

  -- The loop of `load`.
  unfoldable pub load_notes : Store → List O.NetworkNote → State → Result State StoreError
  load_notes store [] s = ok s
  load_notes store (note ∷ rest) s = elim (add_network_note store note s) [
    | err e ↦ err e
    | ok s' ↦ load_notes store rest s'
  ]

  unfoldable pub load : Store → Result State StoreError
  load store = elim store.unconsumed_network_notes [
    | err e ↦ err e
    | ok all_notes ↦ load_notes store all_notes (record {
      accounts = [];
      queue = [];
      in_progress = [];
      inflight_txs = [];
      nullifier_idx = [];
    })
  ]

  -- The loop body of `select_candidate`.
  unfoldable pub rotate : ℕ → State → Option (State × Option TransactionCandidate)
  rotate limit s = elim s.queue [
    | [] ↦ none
    | candidate ∷ rest ↦
        let rotated = record s { queue = rest ++ candidate ∷ [] } in
        if BTreeSet.contains candidate s.in_progress
        then some (rotated, none)
        else elim (BTreeMap.get candidate s.accounts) [
          | none ↦ none
          | some account ↦
              if account_state_is_empty O account
              then some
                  (record s { accounts = BTreeMap.remove candidate s.accounts; queue = rest }, none)
              else elim (take limit (notes O account)) [
                | [] ↦ some (rotated, none)
                | note ∷ more ↦ elim (latest_account O account) [
                  | none ↦ none
                  | some latest ↦ some (
                    record rotated { in_progress = BTreeSet.insert candidate s.in_progress },
                    some (record { account = latest; notes = note ∷ more }),
                  )
                ]
              ]
        ]
  ]

  -- The loop of `select_candidate`.
  unfoldable pub select_loop : ℕ → ℕ → State → Option (State × Option TransactionCandidate)
  select_loop limit zero s = some (s, none)
  select_loop limit (suc n) s = elim (rotate limit s) [
    | none ↦ none
    | some (s', some candidate) ↦ some (s', some candidate)
    | some (s', none) ↦ select_loop limit n s'
  ]

  unfoldable pub select_candidate : ℕ → State → Option (State × Option TransactionCandidate)
  select_candidate limit s = select_loop limit (length s.queue) s

  unfoldable pub candidate_failed : ℕ → State → State
  candidate_failed candidate s = record s { in_progress = BTreeSet.remove candidate s.in_progress }
