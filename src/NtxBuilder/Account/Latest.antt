-- ===== src/NtxBuilder/Account/Latest.antt =====
-- Which operations of crates/ntx-builder/src/state/account.rs leave an account with a state.
use miden_node.Prelude.{
  ℕ, ◌≡◌, refl, true, some, arith, is_some, last?, last?-append, Option-cases, List-cases, inl, inr,
}
use miden_node.Collections.BTreeMap
use miden_node.NtxBuilder.Outside.{Outside}
use miden_node.NtxBuilder.Account.{
  AccountState, latest_account, from_committed_account, from_uncommitted_account, add_note,
  add_delta, commit_delta, add_nullifier, commit_nullifier,
}

module _ (O : Outside) where
  -- The account has a committed or an inflight state.
  abbrev pub HasState : AccountState O → Type 0
  HasState a = is_some (latest_account O a) ≡ true

  pub from_committed_account-HasState :
      (account : O.Account) → HasState (from_committed_account O account)
  unfolding latest_account from_committed_account
  from_committed_account-HasState account = refl

  pub from_uncommitted_account-HasState :
      (account : O.Account) → HasState (from_uncommitted_account O account)
  unfolding latest_account from_uncommitted_account
  from_uncommitted_account-HasState account = refl

  pub add_note-HasState :
      (note : O.NetworkNote) (a : AccountState O) → HasState a → HasState (add_note O note a)
  unfolding latest_account add_note
  add_note-HasState note a h = h

  pub add_delta-HasState :
      (d : O.AccountDelta) (a b : AccountState O) → add_delta O d a ≡ some b → HasState b
  unfolding latest_account add_delta
  add_delta-HasState d a b e = elim (Option-cases (latest_account O a)) [
    | inl gone ↦ absurd (ground (arith, gone, e))
    | inr (x, found) ↦ elim (Option-cases (O.apply_delta x d)) [
      | inl bad ↦ absurd (ground (arith, found, bad, e))
      | inr (y, good) ↦ ground (arith, found, good, e, last?-append a.inflight y)
    ]
  ]

  pub commit_delta-HasState : (a b : AccountState O) → commit_delta O a ≡ some b → HasState b
  unfolding latest_account commit_delta
  commit_delta-HasState a b e = elim (List-cases a.inflight) [
    | inl nil ↦ absurd (ground (arith, nil, e))
    | inr (x, rest, at) ↦ elim (Option-cases (last? rest)) [
      | inl gone ↦ ground (arith, at, gone, e)
      | inr (y, last) ↦ ground (arith, at, last, e)
    ]
  ]

  pub add_nullifier-HasState :
      (n : ℕ) (a b : AccountState O) → add_nullifier O n a ≡ some b → HasState a → HasState b
  unfolding latest_account add_nullifier
  add_nullifier-HasState n a b e h = elim (Option-cases (BTreeMap.get n a.available_notes)) [
    | inl gone ↦ absurd (ground (arith, gone, e))
    | inr (x, found) ↦ ground (arith, found, e, h)
  ]

  pub commit_nullifier-HasState :
      (n : ℕ) (a b : AccountState O) → commit_nullifier O n a ≡ some b → HasState a → HasState b
  unfolding latest_account commit_nullifier
  commit_nullifier-HasState n a b e h = elim (Option-cases (BTreeMap.get n a.nullified_notes)) [
    | inl gone ↦ absurd (ground (arith, gone, e))
    | inr (x, found) ↦ ground (arith, found, e, h)
  ]
