-- ===== src/NtxBuilder/Settled/Reverts.antt =====
-- What `State::revert_transaction` of crates/ntx-builder/src/state/mod.rs leaves to later calls.
use miden_node.Prelude.{
  ℕ, ◌≡◌, refl, none, some, List, [], ◌∷◌, arith, Option-cases, inl, inr, if◌then◌else◌,
}
use mathlib.Core.Path.{subst}
use mathlib.Core.Option.{some-injective}
use miden_node.Collections.BTreeMap
use miden_node.Collections.BTreeMap.{get-insert, get-remove}
use miden_node.Collections.BTreeSet.{contains}
use miden_node.NtxBuilder.Outside.{Outside}
use miden_node.NtxBuilder.Account.{AccountState, revert_note, revert_nullifier}
use miden_node.NtxBuilder.State.{State}
use miden_node.NtxBuilder.Settled.{modify_account, revert_notes, revert_nullifiers}

module _ {O : Outside} {StoreError : Type 0} where
  -- What the loops of a revert leave alone: an account that is not tracked stays so.
  pub record Keeps (s s' : State O StoreError) : Type 0 where
    pub queue : s'.queue ≡ s.queue
    pub in_progress : s'.in_progress ≡ s.in_progress
    pub inflight_txs : s'.inflight_txs ≡ s.inflight_txs
    pub untracked : (p : ℕ) → BTreeMap.get p s.accounts ≡ none → BTreeMap.get p s'.accounts ≡ none

  Keeps-trans : {s t u : State O StoreError} → Keeps s t → Keeps t u → Keeps s u
  Keeps-trans f g = record {
    queue = cc (f.queue, g.queue);
    in_progress = cc (f.in_progress, g.in_progress);
    inflight_txs = cc (f.inflight_txs, g.inflight_txs);
    untracked = λ p h. g.untracked p (f.untracked p h);
  }

  Keeps-refl : (s : State O StoreError) → Keeps s s
  Keeps-refl s = record {
    queue = refl;
    in_progress = refl;
    inflight_txs = refl;
    untracked = λ p h. h;
  }

  untracked_eq :
      (p : ℕ) (f : AccountState O → AccountState O) (s : State O StoreError)
      → BTreeMap.get p s.accounts ≡ none
      → s ≡ modify_account O StoreError p f s
  unfolding modify_account
  untracked_eq p f s gone = rw (gone, modify_account) refl

  tracked_eq :
      (p : ℕ) (f : AccountState O → AccountState O) (s : State O StoreError) (a : AccountState O)
      → BTreeMap.get p s.accounts ≡ some a
      → record s { accounts = BTreeMap.insert p (f a) s.accounts }
        ≡ modify_account O StoreError p f s
  unfolding modify_account
  tracked_eq p f s a found = rw (found, modify_account) refl

  pub modify_account-Keeps :
      (p : ℕ) (f : AccountState O → AccountState O) (s : State O StoreError)
      → Keeps s (modify_account O StoreError p f s)
        × ((modify_account O StoreError p f s).nullifier_idx ≡ s.nullifier_idx)
  modify_account-Keeps p f s =
      let after = λ (x : State O StoreError). Keeps s x × (x.nullifier_idx ≡ s.nullifier_idx) in
      elim (Option-cases (BTreeMap.get p s.accounts)) [
        | inl gone ↦ subst after (untracked_eq p f s gone) (Keeps-refl s, refl)
        | inr (a, found) ↦ subst after (tracked_eq p f s a found) (
          record {
            queue = refl;
            in_progress = refl;
            inflight_txs = refl;
            untracked = λ q h. ground (arith, found, get-insert q p (f a) s.accounts);
          },
          refl,
        )
      ]

  pub revert_notes-Keeps :
      (ns : List ℕ) (s s' : State O StoreError)
      → revert_notes O StoreError ns s ≡ some s'
      → Keeps s s'
        × ((n : ℕ)
            → BTreeMap.get n s'.nullifier_idx
              ≡ (if contains n ns then none else BTreeMap.get n s.nullifier_idx))
  unfolding revert_notes contains
  revert_notes-Keeps [] s s' e =
      subst
        (λ (x : State O StoreError).
          Keeps s x × ((n : ℕ) → BTreeMap.get n x.nullifier_idx ≡ BTreeMap.get n s.nullifier_idx))
        (some-injective s s' e) (Keeps-refl s, λ n. refl)
  revert_notes-Keeps (m ∷ ns) s s' e = elim (Option-cases (BTreeMap.get m s.nullifier_idx)) [
    | inl gone ↦ absurd (ground (arith, gone))
    | inr (p, found) ↦
        let s1 = record s { nullifier_idx = BTreeMap.remove m s.nullifier_idx } in
        let (k, i) = modify_account-Keeps p (revert_note O m) s1 in
        let (k', i') =
          revert_notes-Keeps ns (modify_account O StoreError p (revert_note O m) s1) s'
            (ground (arith, found, e)) in
        (
          Keeps-trans
              (Keeps-trans
                (record {
                  queue = refl;
                  in_progress = refl;
                  inflight_txs = refl;
                  untracked = λ q h. h;
                })
                k)
              k',
          λ n. ground (arith, i' n, i, get-remove n m s.nullifier_idx),
        )
  ]

  pub revert_nullifiers-Keeps :
      (ns : List ℕ) (s s' : State O StoreError)
      → revert_nullifiers O StoreError ns s ≡ some s'
      → Keeps s s' × (s'.nullifier_idx ≡ s.nullifier_idx)
  unfolding revert_nullifiers
  revert_nullifiers-Keeps [] s s' e =
      subst (λ (x : State O StoreError). Keeps s x × (x.nullifier_idx ≡ s.nullifier_idx))
        (some-injective s s' e) (Keeps-refl s, refl)
  revert_nullifiers-Keeps (m ∷ ns) s s' e = elim (Option-cases (BTreeMap.get m s.nullifier_idx)) [
    | inl gone ↦ absurd (ground (arith, gone))
    | inr (p, found) ↦
        let (k, i) = modify_account-Keeps p (revert_nullifier O m) s in
        let (k', i') =
          revert_nullifiers-Keeps ns (modify_account O StoreError p (revert_nullifier O m) s) s'
            (ground (arith, found, e)) in
        (Keeps-trans k k', cc)
  ]
