-- ===== src/NtxBuilder/Settled/Queued.antt =====
-- The queue under `State::commit_transaction` of crates/ntx-builder/src/state/mod.rs.
use miden_node.Prelude.{
  ℕ, ◌≡◌, refl, Option, none, some, List, [], ◌∷◌, arith, Option-cases, inl, inr,
}
use mathlib.Core.Path.{subst, sym}
use miden_node.Collections.BTreeMap
use miden_node.NtxBuilder.Outside.{Outside}
use miden_node.NtxBuilder.Account.{commit_delta, commit_nullifier}
use miden_node.NtxBuilder.Account.Latest.{commit_delta-HasState, commit_nullifier-HasState}
use miden_node.NtxBuilder.State.{State}
use miden_node.NtxBuilder.State.Queue.{IsQueued}
use miden_node.NtxBuilder.State.Fetch.{write-IsQueued}
use miden_node.NtxBuilder.Added.Queued.{IsQueued-same}
use miden_node.NtxBuilder.Settled.{commit_account, commit_nullifiers, commit_transaction}

module _ {O : Outside} {StoreError : Type 0} where
  commit_account-IsQueued :
      (o : Option ℕ) (s s' : State O StoreError)
      → IsQueued s
      → commit_account O StoreError o s ≡ some s'
      → IsQueued s'
  unfolding commit_account
  commit_account-IsQueued none s s' q e =
      let same : s' ≡ s = ground (arith, e) in subst IsQueued (sym same) q
  commit_account-IsQueued (some p) s s' q e = elim (Option-cases (BTreeMap.get p s.accounts)) [
    | inl gone ↦ absurd (ground (arith, gone, e))
    | inr (a, found) ↦ elim (Option-cases (commit_delta O a)) [
      | inl gone ↦ absurd (ground (arith, found, gone, e))
      | inr (b, now) ↦
          write-IsQueued {s = s} p a b q found (commit_delta-HasState O a b now)
            (ground (arith, found, now, e)) (ground (arith, found, now, e))
    ]
  ]

  commit_nullifiers-IsQueued :
      (ns : List ℕ) (s s' : State O StoreError)
      → IsQueued s
      → commit_nullifiers O StoreError ns s ≡ some s'
      → IsQueued s'
  unfolding commit_nullifiers
  commit_nullifiers-IsQueued [] s s' q e =
      let same : s' ≡ s = ground (arith, e) in subst IsQueued (sym same) q
  commit_nullifiers-IsQueued (n ∷ ns) s s' q e =
      elim (Option-cases (BTreeMap.get n s.nullifier_idx)) [
        | inl gone ↦ absurd (ground (arith, gone, e))
        | inr (p, known) ↦
            let s1 = record s { nullifier_idx = BTreeMap.remove n s.nullifier_idx } in
            let q1 : IsQueued s1 = IsQueued-same {s = s} refl refl q in
            elim (Option-cases (BTreeMap.get p s.accounts)) [
              | inl gone ↦ commit_nullifiers-IsQueued ns s1 s' q1 (ground (arith, known, gone, e))
              | inr (a, found) ↦ elim (Option-cases (commit_nullifier O n a)) [
                | inl gone ↦ absurd (ground (arith, known, found, gone, e))
                | inr (b, now) ↦
                    let t = record s1 { accounts = BTreeMap.insert p b s.accounts } in
                    let q' : IsQueued t =
                      write-IsQueued {s = s1} p a b q1 found
                        (commit_nullifier-HasState O n a b now (q.stateful p a found)) refl refl in
                    commit_nullifiers-IsQueued ns t s' q' (ground (arith, known, found, now, e))
              ]
            ]
      ]

  pub commit_transaction-IsQueued :
      (tx : ℕ) (s s' : State O StoreError)
      → IsQueued s
      → commit_transaction O StoreError tx s ≡ some s'
      → IsQueued s'
  unfolding commit_transaction
  commit_transaction-IsQueued tx s s' q e = elim (Option-cases (BTreeMap.get tx s.inflight_txs)) [
    | inl gone ↦ let same : s' ≡ s = ground (arith, gone, e) in subst IsQueued (sym same) q
    | inr (impact, found) ↦
        let before = record s { inflight_txs = BTreeMap.remove tx s.inflight_txs } in
        let q1 : IsQueued before = IsQueued-same {s = s} refl refl q in
        elim (Option-cases (commit_account O StoreError impact.account_delta before)) [
          | inl gone ↦ absurd (ground (arith, found, gone, e))
          | inr (t, run) ↦
              commit_nullifiers-IsQueued impact.nullifiers t s'
                (commit_account-IsQueued impact.account_delta before t q1 run)
                (ground (arith, found, run, e))
        ]
  ]
