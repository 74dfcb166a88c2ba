-- ===== src/NtxBuilder/State/Queue.antt =====
-- The queue of the accounts: crates/ntx-builder/src/state/mod.rs.
use miden_node.Prelude.{
  ℕ, ◌<◌, ◌≡◌, refl, true, false, some, List, [], ◌∷◌, arith, take, is_empty, is_some, List-cases,
  inl, inr, ◌⊎◌, zero, suc,
}
use miden_node.Collections.BTreeMap
use miden_node.Collections.BTreeMap.{contains_key, get-remove}
use miden_node.Collections.BTreeSet
use miden_node.Collections.BTreeSet.{contains}
use miden_node.Collections.Distinct.{IsDistinct}
use miden_node.NtxBuilder.Outside.{Outside}
use miden_node.NtxBuilder.Account.{AccountState, latest_account, notes, account_state_is_empty}
use miden_node.NtxBuilder.State.{State, TransactionCandidate}

pub take-is_empty :
    {A : Type 0} (n : ℕ) (xs : List A) → 0 < n → is_empty (take n xs) ≡ true → is_empty xs ≡ true
take-is_empty zero xs pos h = absurd (omega arith)
take-is_empty (suc n) [] pos h = refl
take-is_empty (suc n) (x ∷ xs) pos h = cc

pub empty-notes :
    {O : Outside} (a : AccountState O)
    → account_state_is_empty O a ≡ true
    → is_empty (notes O a) ≡ true
unfolding account_state_is_empty notes
empty-notes a h = elim (List-cases a.available_notes) [
  | inl nil ↦ rw nil refl
  | inr (n, more, cons) ↦ absurd (ground (arith, cons))
]

module _ {O : Outside} {StoreError : Type 0} where
  -- The queue holds each tracked account once, and nothing else; an account has a state.
  pub record IsQueued (s : State O StoreError) : Type 0 where
    pub tracked : (p : ℕ) → contains p s.queue ≡ contains_key p s.accounts
    pub once : IsDistinct s.queue
    pub stateful :
        (p : ℕ) (a : AccountState O)
        → BTreeMap.get p s.accounts ≡ some a
        → is_some (latest_account O a) ≡ true

  -- The account is locked, or it has no note to consume.
  abbrev pub IsIdle : State O StoreError → ℕ → Type 0
  IsIdle s p =
      contains p s.in_progress ≡ false
      → (a : AccountState O) → BTreeMap.get p s.accounts ≡ some a
      → is_empty (notes O a) ≡ true

  -- A candidate that is selected in `s`, with the state after it.
  pub record Selects (limit : ℕ) (s s' : State O StoreError) (c : TransactionCandidate O StoreError)
      : Type 0 where
    pub p : ℕ
    pub account_state : AccountState O
    pub found : BTreeMap.get p s.accounts ≡ some account_state
    pub free : contains p s.in_progress ≡ false
    pub latest : latest_account O account_state ≡ some c.account
    pub first_notes : c.notes ≡ take limit (notes O account_state)
    pub has_notes : is_empty c.notes ≡ false
    pub locked : s'.in_progress ≡ BTreeSet.insert p s.in_progress

  -- The accounts after a selection, and the rest of the state: only empty accounts are dropped.
  pub record Prunes (s s' : State O StoreError) : Type 0 where
    pub kept :
        (p : ℕ) (a : AccountState O)
        → BTreeMap.get p s'.accounts ≡ some a
        → BTreeMap.get p s.accounts ≡ some a
    pub dropped :
        (p : ℕ) (a : AccountState O)
        → BTreeMap.get p s.accounts ≡ some a
        → (BTreeMap.get p s'.accounts ≡ some a) ⊎ (account_state_is_empty O a ≡ true)
    pub inflight_txs : s'.inflight_txs ≡ s.inflight_txs
    pub nullifier_idx : s'.nullifier_idx ≡ s.nullifier_idx

  pub Prunes-same :
      (s s' : State O StoreError)
      → s'.accounts ≡ s.accounts
      → s'.inflight_txs ≡ s.inflight_txs
      → s'.nullifier_idx ≡ s.nullifier_idx
      → Prunes s s'
  Prunes-same s s' e i n = record {
    kept = λ p a h. ground (arith, e);
    dropped = λ p a h. inl (ground (arith, e));
    inflight_txs = i;
    nullifier_idx = n;
  }
