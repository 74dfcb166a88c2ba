-- ===== src/NtxBuilder/Settled/Panics.antt =====
-- Where `State` of crates/ntx-builder/src/state/mod.rs panics after a revert.
use miden_node.Prelude.{
  ℕ, ◌≡◌, ◌≢◌, refl, ap, true, false, Option, none, some, List, [], ◌∷◌, arith, Option-cases,
  Bool-cases, inl, inr, ◌==◌, length, suc,
}
use mathlib.Core.Path.{subst, sym}
use miden_node.Collections.BTreeMap
use miden_node.Collections.BTreeMap.{get-insert, get-remove}
use miden_node.Collections.BTreeSet.{contains}
use miden_node.NtxBuilder.Outside.{Outside}
use miden_node.NtxBuilder.Account.{AccountState, revert_delta, revert_nullifier}
use miden_node.NtxBuilder.State.{State, TransactionImpact, rotate, select_loop, select_candidate}
use miden_node.NtxBuilder.Settled.{
  modify_account, revert_account, revert_notes, revert_nullifiers, revert_transaction,
}
use miden_node.NtxBuilder.Settled.Reverts.{
  revert_notes-Keeps, revert_nullifiers-Keeps, modify_account-Keeps,
}

module _ {O : Outside} {StoreError : Type 0} where
  -- The three parts of a revert.
  record Reverted (s s' : State O StoreError) (impact : TransactionImpact) (tx : ℕ) : Type 0 where
    s1 : State O StoreError
    s2 : State O StoreError
    account :
        revert_account O StoreError impact.account_delta
          (record s { inflight_txs = BTreeMap.remove tx s.inflight_txs })
        ≡ some s1
    notes : revert_notes O StoreError impact.notes s1 ≡ some s2
    nullifiers : revert_nullifiers O StoreError impact.nullifiers s2 ≡ some s'

  revert_transaction-Reverted :
      (tx : ℕ) (impact : TransactionImpact) (s s' : State O StoreError)
      → BTreeMap.get tx s.inflight_txs ≡ some impact
      → revert_transaction O StoreError tx s ≡ some s'
      → Reverted s s' impact tx
  unfolding revert_transaction
  revert_transaction-Reverted tx impact s s' found e =
      let before = record s { inflight_txs = BTreeMap.remove tx s.inflight_txs } in
      elim (Option-cases (revert_account O StoreError impact.account_delta before)) [
        | inl gone ↦ absurd (ground (arith, found, gone, e))
        | inr (s1, account) ↦ elim (Option-cases (revert_notes O StoreError impact.notes s1)) [
          | inl gone ↦ absurd (ground (arith, found, account, gone, e))
          | inr (s2, notes) ↦ record {
            s1 = s1;
            s2 = s2;
            account = account;
            notes = notes;
            nullifiers = ground (arith, found, account, notes, e);
          }
        ]
      ]

  -- The revert of the account leaves the transactions, the queue and the nullifiers.
  revert_account_frame :
      (o : Option ℕ) (s s' : State O StoreError)
      → revert_account O StoreError o s ≡ some s'
      → (s'.inflight_txs ≡ s.inflight_txs)
        × (s'.nullifier_idx ≡ s.nullifier_idx)
        × (s'.queue ≡ s.queue)
        × (s'.in_progress ≡ s.in_progress)
  unfolding revert_account
  revert_account_frame none s s' e = ground (arith, e)
  revert_account_frame (some p) s s' e = elim (Option-cases (BTreeMap.get p s.accounts)) [
    | inl gone ↦ absurd (ground (arith, gone))
    | inr (a, found) ↦ elim (Option-cases (revert_delta O a)) [
      | inl gone ↦ absurd (ground (arith, gone, found))
      | inr ((b, true), now) ↦ ground (arith, found, now, e)
      | inr ((b, false), now) ↦ ground (arith, found, now, e)
    ]
  ]

  revert_nullifiers-gone :
      (n : ℕ) (ns : List ℕ) (s : State O StoreError)
      → contains n ns ≡ true
      → BTreeMap.get n s.nullifier_idx ≡ none
      → revert_nullifiers O StoreError ns s ≡ none
  unfolding revert_nullifiers contains
  revert_nullifiers-gone n [] s h gone = absurd (ground arith)
  revert_nullifiers-gone n (m ∷ ns) s h gone =
      elim (Option-cases (BTreeMap.get m s.nullifier_idx)) [
        | inl lost ↦ rw (lost, revert_nullifiers) refl
        | inr (p, found) ↦
            let s1 = modify_account O StoreError p (revert_nullifier O m) s in
            let (k, i) = modify_account-Keeps p (revert_nullifier O m) s in
            let other : (n == m) ≡ false = elim (Bool-cases (n == m)) [
              | inr other ↦ other
              | inl eq ↦
                  let same : n ≡ m = ground arith in
                  absurd (
                    ground
                      (arith, found, subst (λ x. BTreeMap.get x s.nullifier_idx ≡ none) same gone))
            ] in
            ground (
              arith,
              found,
              revert_nullifiers-gone n ns s1 (ground arith) (ground (arith, i, gone)),
            )
      ]

  -- Where two distinct transactions are tracked, the first created a note and the second consumed it,
  -- and the revert of the first succeeds, a revert of the second after it panics.
  pub revert_transaction-panics :
      (tx1 tx2 : ℕ) (impact1 impact2 : TransactionImpact) (n : ℕ) (s s' : State O StoreError)
      → BTreeMap.get tx1 s.inflight_txs ≡ some impact1
      → BTreeMap.get tx2 s.inflight_txs ≡ some impact2
      → tx1 ≢ tx2
      → contains n impact1.notes ≡ true
      → contains n impact2.nullifiers ≡ true
      → revert_transaction O StoreError tx1 s ≡ some s'
      → revert_transaction O StoreError tx2 s' ≡ none
  unfolding revert_transaction
  revert_transaction-panics tx1 tx2 impact1 impact2 n s s' at1 at2 ne made used run =
      let r = revert_transaction-Reverted tx1 impact1 s s' at1 run in
      let before = record s { inflight_txs = BTreeMap.remove tx1 s.inflight_txs } in
      let (txs, _, _, _) = revert_account_frame impact1.account_delta before r.s1 r.account in
      let (k, idx) = revert_notes-Keeps impact1.notes r.s1 r.s2 r.notes in
      let (k', idx') = revert_nullifiers-Keeps impact1.nullifiers r.s2 s' r.nullifiers in
      let gone : BTreeMap.get n s'.nullifier_idx ≡ none = ground (arith, idx', idx n, made) in
      let other : (tx2 == tx1) ≡ false = elim (Bool-cases (tx2 == tx1)) [
        | inr other ↦ other
        | inl eq ↦ absurd (ne (ground arith))
      ] in
      let tracked : BTreeMap.get tx2 s'.inflight_txs ≡ some impact2 = ground (
        arith,
        k'.inflight_txs,
        k.inflight_txs,
        txs,
        other,
        at2,
        get-remove tx2 tx1 s.inflight_txs,
      ) in
      let before2 = record s' { inflight_txs = BTreeMap.remove tx2 s'.inflight_txs } in
      elim (Option-cases (revert_account O StoreError impact2.account_delta before2)) [
        | inl none1 ↦ ground (arith, tracked, none1)
        | inr (u1, account) ↦ elim (Option-cases (revert_notes O StoreError impact2.notes u1)) [
          | inl none2 ↦ ground (arith, tracked, account, none2)
          | inr (u2, notes) ↦
              let (_, idx1, _, _) = revert_account_frame impact2.account_delta before2 u1 account in
              let (_, idx2) = revert_notes-Keeps impact2.notes u1 u2 notes in
              let gone2 =
                revert_nullifiers-gone n impact2.nullifiers u2 used
                  (ground (arith, idx1, idx2 n, gone)) in
              ground (arith, tracked, account, notes, gone2)
        ]
      ]

  -- A reverted creation leaves the account untracked, and the queue as it was.
  revert_account-created :
      (p : ℕ) (a : AccountState O) (s s' : State O StoreError)
      → BTreeMap.get p s.accounts ≡ some a
      → a.committed ≡ none
      → (account : O.Account) × (a.inflight ≡ account ∷ [])
      → revert_account O StoreError (some p) s ≡ some s'
      → BTreeMap.get p s'.accounts ≡ none
  unfolding revert_account revert_delta
  revert_account-created p a s s' found fresh (account, single) e =
      ground (arith, found, fresh, single, get-remove p p s.accounts)

  rotate_lost :
      (limit p : ℕ) (rest : List ℕ) (s : State O StoreError)
      → s.queue ≡ p ∷ rest
      → contains p s.in_progress ≡ false
      → BTreeMap.get p s.accounts ≡ none
      → rotate O StoreError limit s ≡ none
  unfolding rotate
  rotate_lost limit p rest s front free gone = rw (front, free, gone) refl

  select_loop_lost :
      (limit n : ℕ) (s : State O StoreError)
      → rotate O StoreError limit s ≡ none
      → select_loop O StoreError limit (suc n) s ≡ none
  unfolding select_loop
  select_loop_lost limit n s lost = rw (lost, select_loop) refl

  select_candidate_lost :
      (limit p : ℕ) (rest : List ℕ) (s : State O StoreError)
      → s.queue ≡ p ∷ rest
      → rotate O StoreError limit s ≡ none
      → select_candidate O StoreError limit s ≡ none
  unfolding select_candidate
  select_candidate_lost limit p rest s front lost =
      subst (λ (n : ℕ). select_loop O StoreError limit n s ≡ none) (sym (ap length front))
        (select_loop_lost limit (length rest) s lost)

  -- Where a tracked transaction created the account at the front of the queue, which is not in
  -- progress, and has the only update of it, and the revert of the transaction succeeds, the next
  -- selection panics.
  pub select_candidate-panics :
      (tx p limit : ℕ) (impact : TransactionImpact) (a : AccountState O) (account : O.Account)
      (rest : List ℕ) (s s' : State O StoreError)
      → BTreeMap.get tx s.inflight_txs ≡ some impact
      → impact.account_delta ≡ some p
      → BTreeMap.get p s.accounts ≡ some a
      → a.committed ≡ none
      → a.inflight ≡ account ∷ []
      → s.queue ≡ p ∷ rest
      → contains p s.in_progress ≡ false
      → revert_transaction O StoreError tx s ≡ some s'
      → select_candidate O StoreError limit s' ≡ none
  select_candidate-panics tx p limit impact a account rest s s' at created found fresh single front
        free run =
      let r = revert_transaction-Reverted tx impact s s' at run in
      let before = record s { inflight_txs = BTreeMap.remove tx s.inflight_txs } in
      let (_, _, queue, busy) = revert_account_frame impact.account_delta before r.s1 r.account in
      let (k, _) = revert_notes-Keeps impact.notes r.s1 r.s2 r.notes in
      let (k', _) = revert_nullifiers-Keeps impact.nullifiers r.s2 s' r.nullifiers in
      let gone1 : BTreeMap.get p r.s1.accounts ≡ none =
        revert_account-created p a before r.s1 found fresh (account, single)
          (subst (λ (o : Option ℕ). revert_account O StoreError o before ≡ some r.s1) created
            r.account) in
      let gone : BTreeMap.get p s'.accounts ≡ none = k'.untracked p (k.untracked p gone1) in
      let front' : s'.queue ≡ p ∷ rest = cc (k'.queue, k.queue, queue, front) in
      let free' : contains p s'.in_progress ≡ false =
        ground (arith, k'.in_progress, k.in_progress, busy, free) in
      select_candidate_lost limit p rest s' front' (rotate_lost limit p rest s' front' free' gone)
