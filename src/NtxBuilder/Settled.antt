-- ===== src/NtxBuilder/Settled.antt =====
-- `State::commit_transaction` and `State::revert_transaction` of
-- crates/ntx-builder/src/state/mod.rs. `none` is a panic.
pub mod Reverts
pub mod Panics
pub mod Queued
use miden_node.Prelude.{ℕ, Option, none, some, true, false, List, [], ◌∷◌}
use miden_node.Collections.BTreeMap
use miden_node.Collections.BTreeMap.{contains_key}
use miden_node.NtxBuilder.Outside.{Outside}
use miden_node.NtxBuilder.Account.{
  AccountState, commit_delta, revert_delta, revert_note, commit_nullifier, revert_nullifier,
}
use miden_node.NtxBuilder.State.{State}

module _ (O : Outside) (StoreError : Type 0) where
  -- `self.accounts.get_mut(&prefix).unwrap().commit_delta()`, of the impact's account.
  unfoldable pub commit_account : Option ℕ → State O StoreError → Option (State O StoreError)
  commit_account none s = some s
  commit_account (some p) s = elim (BTreeMap.get p s.accounts) [
    | none ↦ none
    | some account ↦ elim (commit_delta O account) [
      | none ↦ none
      | some account' ↦ some (record s { accounts = BTreeMap.insert p account' s.accounts })
    ]
  ]

  -- The loop of `commit_transaction`.
  unfoldable pub commit_nullifiers : List ℕ → State O StoreError → Option (State O StoreError)
  commit_nullifiers [] s = some s
  commit_nullifiers (nullifier ∷ rest) s = elim (BTreeMap.get nullifier s.nullifier_idx) [
    | none ↦ none
    | some p ↦
        let s1 = record s { nullifier_idx = BTreeMap.remove nullifier s.nullifier_idx } in
        elim (BTreeMap.get p s.accounts) [
          | none ↦ commit_nullifiers rest s1
          | some account ↦ elim (commit_nullifier O nullifier account) [
            | none ↦ none
            | some account' ↦
                commit_nullifiers rest
                  (record s1 { accounts = BTreeMap.insert p account' s.accounts })
          ]
        ]
  ]

  unfoldable pub commit_transaction : ℕ → State O StoreError → Option (State O StoreError)
  commit_transaction tx s = elim (BTreeMap.get tx s.inflight_txs) [
    | none ↦ some s
    | some impact ↦
        elim (commit_account impact.account_delta
          (record s { inflight_txs = BTreeMap.remove tx s.inflight_txs })) [
            | none ↦ none
            | some s' ↦ commit_nullifiers impact.nullifiers s'
          ]
  ]

  -- The revert of the account's delta; an account whose creation is reverted is removed.
  unfoldable pub revert_account : Option ℕ → State O StoreError → Option (State O StoreError)
  revert_account none s = some s
  revert_account (some p) s = elim (BTreeMap.get p s.accounts) [
    | none ↦ none
    | some account ↦ elim (revert_delta O account) [
      | none ↦ none
      | some (account', false) ↦
          some (record s { accounts = BTreeMap.insert p account' s.accounts })
      | some (account', true) ↦ some (record s { accounts = BTreeMap.remove p s.accounts })
    ]
  ]

  -- `if let Some(account) = self.accounts.get_mut(&prefix) { f(account) }`
  unfoldable pub modify_account :
      ℕ → (AccountState O → AccountState O) → State O StoreError → State O StoreError
  modify_account p f s = elim (BTreeMap.get p s.accounts) [
    | none ↦ s
    | some account ↦ record s { accounts = BTreeMap.insert p (f account) s.accounts }
  ]

  -- The first loop of `revert_transaction`.
  unfoldable pub revert_notes : List ℕ → State O StoreError → Option (State O StoreError)
  revert_notes [] s = some s
  revert_notes (note ∷ rest) s = elim (BTreeMap.get note s.nullifier_idx) [
    | none ↦ none
    | some p ↦ revert_notes rest (
        modify_account p (revert_note O note)
          (record s { nullifier_idx = BTreeMap.remove note s.nullifier_idx }))
  ]

  -- The second loop of `revert_transaction`.
  unfoldable pub revert_nullifiers : List ℕ → State O StoreError → Option (State O StoreError)
  revert_nullifiers [] s = some s
  revert_nullifiers (nullifier ∷ rest) s = elim (BTreeMap.get nullifier s.nullifier_idx) [
    | none ↦ none
    | some p ↦ revert_nullifiers rest (modify_account p (revert_nullifier O nullifier) s)
  ]

  unfoldable pub revert_transaction : ℕ → State O StoreError → Option (State O StoreError)
  revert_transaction tx s = elim (BTreeMap.get tx s.inflight_txs) [
    | none ↦ some s
    | some impact ↦
        elim (revert_account impact.account_delta
          (record s { inflight_txs = BTreeMap.remove tx s.inflight_txs })) [
            | none ↦ none
            | some s1 ↦ elim (revert_notes impact.notes s1) [
              | none ↦ none
              | some s2 ↦ revert_nullifiers impact.nullifiers s2
            ]
          ]
  ]
