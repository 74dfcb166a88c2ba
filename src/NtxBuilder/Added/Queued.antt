-- ===== src/NtxBuilder/Added/Queued.antt =====
-- The queue under `State::add_transaction` of crates/ntx-builder/src/state/mod.rs.
use miden_node.Prelude.{
  ℕ, ◌≡◌, refl, Option, none, some, List, [], ◌∷◌, arith, Option-cases, Bool-cases, inl, inr,
  Result, ok, err, Result-cases,
}
use mathlib.Core.Path.{subst, sym}
use miden_node.Collections.BTreeMap
use miden_node.Collections.BTreeMap.{contains_key}
use miden_node.Collections.BTreeSet
use miden_node.NtxBuilder.Outside.{Outside}
use miden_node.NtxBuilder.Account.{
  from_uncommitted_account, add_delta, add_nullifier, AccountUpdateDetails, NetworkAccountUpdate,
  new, delta, from_protocol, prefix,
}
use miden_node.NtxBuilder.Account.Latest.{
  from_uncommitted_account-HasState, add_delta-HasState, add_nullifier-HasState,
}
use miden_node.NtxBuilder.State.{
  State, Store, TransactionImpact, default_impact, UpdateError, fetch_account, add_network_note,
  impact_is_empty,
}
use miden_node.Collections.Distinct.{IsDistinct}
use miden_node.NtxBuilder.State.Queue.{IsQueued}
use miden_node.NtxBuilder.State.Fetch.{
  write-IsQueued, track-IsQueued, fetch_account-IsQueued, add_network_note-IsQueued,
}
use miden_node.NtxBuilder.Added.{
  apply_update, update_account, add_notes, consume, track_impact, add_transaction,
}

-- An account that an update creates is not tracked.
abbrev pub IsFresh :
    {O : Outside} {E : Type 0} → Option (AccountUpdateDetails O) → State O E → Type 0
IsFresh {O} o s =
    (details : AccountUpdateDetails O) (account : O.Account) (p : ℕ)
    → o ≡ some details
    → from_protocol O details ≡ some (new account)
    → prefix O (new account) ≡ some p
    → BTreeMap.get p s.accounts ≡ none

module _ {O : Outside} {StoreError : Type 0} where
  pub IsQueued-same :
      {s s' : State O StoreError}
      → s'.queue ≡ s.queue
      → s'.accounts ≡ s.accounts
      → IsQueued s
      → IsQueued s'
  IsQueued-same eq_q eq_a q = record {
    tracked = λ p. ground (arith, eq_q, eq_a, q.tracked p);
    once = subst IsDistinct (sym eq_q) q.once;
    stateful = λ p a h. q.stateful p a (ground (arith, eq_a, h));
  }

  apply_update-IsQueued :
      (store : Store O StoreError) (update : NetworkAccountUpdate O) (p : ℕ)
      (s s' : State O StoreError) (r : Result (Unit {0}) (UpdateError StoreError))
      → IsQueued s
      → ((account : O.Account) → update ≡ new account → BTreeMap.get p s.accounts ≡ none)
      → apply_update O StoreError store update p s ≡ some (s', r)
      → IsQueued s'
  unfolding apply_update
  apply_update-IsQueued store (new account) p s s' r q fresh e =
      track-IsQueued p (from_uncommitted_account O account) q (fresh account refl)
        (from_uncommitted_account-HasState O account) (ground (arith, e)) (ground (arith, e))
  apply_update-IsQueued store (delta d) p s s' r q fresh e =
      elim (Result-cases (fetch_account O StoreError store p s)) [
        | inr (x, bad) ↦ let same : s' ≡ s = ground (arith, bad, e) in subst IsQueued (sym same) q
        | inl ((t, none), run) ↦
            let (q', _) = fetch_account-IsQueued store p s t none q run in
            let same : s' ≡ t = ground (arith, run, e) in subst IsQueued (sym same) q'
        | inl ((t, some a), run) ↦
            let (q', found) = fetch_account-IsQueued store p s t (some a) q run in
            elim (Option-cases (add_delta O d a)) [
              | inl gone ↦ absurd (ground (arith, run, gone, e))
              | inr (b, now) ↦
                  write-IsQueued {s = t} p a b q' found (add_delta-HasState O d a b now)
                    (ground (arith, run, now, e)) (ground (arith, run, now, e))
            ]
      ]

  update_account-IsQueued :
      (store : Store O StoreError) (o : Option (AccountUpdateDetails O)) (s s' : State O StoreError)
      (r : Result (Option ℕ) (UpdateError StoreError))
      → IsQueued s
      → IsFresh o s
      → update_account O StoreError store o s ≡ some (s', r)
      → IsQueued s'
  unfolding update_account
  update_account-IsQueued store none s s' r q fresh e =
      let same : s' ≡ s = ground (arith, e) in subst IsQueued (sym same) q
  update_account-IsQueued store (some d) s s' r q fresh e =
      elim (Option-cases (from_protocol O d)) [
        | inl gone ↦ let same : s' ≡ s = ground (arith, gone, e) in subst IsQueued (sym same) q
        | inr (u, known) ↦ elim (Option-cases (prefix O u)) [
          | inl gone ↦ absurd (ground (arith, known, gone, e))
          | inr (p, at) ↦ elim (Option-cases (apply_update O StoreError store u p s)) [
            | inl gone ↦ absurd (ground (arith, known, at, gone, e))
            | inr ((t, x), run) ↦
                let q' =
                  apply_update-IsQueued store u p s t x q
                    (λ account is_new.
                      fresh d account p refl (ground (arith, known, is_new))
                        (subst (λ (v : NetworkAccountUpdate O). prefix O v ≡ some p) is_new at))
                    run in
                elim (Result-cases x) [
                  | inl (y, good) ↦
                      IsQueued-same {s = t} (ground (arith, known, at, run, good, e))
                        (ground (arith, known, at, run, good, e)) q'
                  | inr (y, bad) ↦
                      IsQueued-same {s = t} (ground (arith, known, at, run, bad, e))
                        (ground (arith, known, at, run, bad, e)) q'
                ]
          ]
        ]
      ]

  add_notes-IsQueued :
      (store : Store O StoreError) (ns : List O.NetworkNote) (impact : TransactionImpact)
      (s : State O StoreError)
      → IsQueued s
      → IsQueued (add_notes O StoreError store ns impact s).0
  unfolding add_notes
  add_notes-IsQueued store [] impact s q = q
  add_notes-IsQueued store (n ∷ ns) impact s q =
      let s1 = record s {
        nullifier_idx = BTreeMap.insert (O.nullifier n) (O.account_prefix n) s.nullifier_idx;
      } in
      let impact' = record impact { notes = BTreeSet.insert (O.nullifier n) impact.notes } in
      let q1 : IsQueued s1 = IsQueued-same {s = s} refl refl q in
      elim (Result-cases (add_network_note O StoreError store n s1)) [
        | inr (x, bad) ↦
            IsQueued-same {s = s1} (rw (bad, add_notes) refl) (rw (bad, add_notes) refl) q1
        | inl (t, good) ↦
            IsQueued-same {s = (add_notes O StoreError store ns impact' t).0}
              (rw (good, add_notes) refl) (rw (good, add_notes) refl)
              (add_notes-IsQueued store ns impact' t
                (add_network_note-IsQueued store n s1 t q1 good))
      ]

  consume-IsQueued :
      (ns : List ℕ) (impact impact' : TransactionImpact) (s s' : State O StoreError)
      → IsQueued s
      → consume O StoreError ns impact s ≡ some (s', impact')
      → IsQueued s'
  unfolding consume
  consume-IsQueued [] impact impact' s s' q e =
      let same : s' ≡ s = ground (arith, e) in subst IsQueued (sym same) q
  consume-IsQueued (n ∷ ns) impact impact' s s' q e =
      elim (Option-cases (BTreeMap.get n s.nullifier_idx)) [
        | inl gone ↦ consume-IsQueued ns impact impact' s s' q (ground (arith, gone, e))
        | inr (p, known) ↦ elim (Option-cases (BTreeMap.get p s.accounts)) [
          | inl gone ↦ absurd (ground (arith, known, gone, e))
          | inr (a, found) ↦ elim (Option-cases (add_nullifier O n a)) [
            | inl gone ↦ absurd (ground (arith, known, found, gone, e))
            | inr (b, now) ↦
                let t = record s { accounts = BTreeMap.insert p b s.accounts } in
                let more = record impact { nullifiers = BTreeSet.insert n impact.nullifiers } in
                let q' : IsQueued t =
                  write-IsQueued {s = s} p a b q found
                    (add_nullifier-HasState O n a b now (q.stateful p a found)) refl refl in
                consume-IsQueued ns more impact' t s' q' (ground (arith, known, found, now, e))
          ]
        ]
      ]

  track_impact-IsQueued :
      (id : ℕ) (impact : TransactionImpact) (s : State O StoreError)
      → IsQueued s
      → IsQueued (track_impact O StoreError id impact s)
  unfolding track_impact
  track_impact-IsQueued id impact s q = elim (Bool-cases (impact_is_empty impact)) [
    | inl nothing ↦ IsQueued-same {s = s} (rw nothing refl) (rw nothing refl) q
    | inr some_impact ↦ IsQueued-same {s = s} (rw some_impact refl) (rw some_impact refl) q
  ]

  pub add_transaction-IsQueued :
      (store : Store O StoreError) (id : ℕ) (nullifiers : List ℕ) (ns : List O.NetworkNote)
      (o : Option (AccountUpdateDetails O)) (s s' : State O StoreError)
      (r : Result (Unit {0}) (UpdateError StoreError))
      → IsQueued s
      → IsFresh o s
      → add_transaction O StoreError store id nullifiers ns o s ≡ some (s', r)
      → IsQueued s'
  unfolding add_transaction
  add_transaction-IsQueued store id nullifiers ns o s s' r q fresh e =
      elim (Bool-cases (contains_key id s.inflight_txs)) [
        | inl known ↦ let same : s' ≡ s = ground (arith, known, e) in subst IsQueued (sym same) q
        | inr unknown ↦ elim (Option-cases (update_account O StoreError store o s)) [
          | inl gone ↦ absurd (ground (arith, unknown, gone, e))
          | inr ((t, err x), run) ↦
              let q' = update_account-IsQueued store o s t (err x) q fresh run in
              let same : s' ≡ t = ground (arith, unknown, run, e) in subst IsQueued (sym same) q'
          | inr ((t, ok updated), run) ↦
              let q' = update_account-IsQueued store o s t (ok updated) q fresh run in
              let impact = record default_impact { account_delta = updated } in
              let q2 = add_notes-IsQueued store ns impact t q' in
              let u = (add_notes O StoreError store ns impact t).0 in
              elim (Result-cases (add_notes O StoreError store ns impact t).1) [
                | inr (x, bad) ↦
                    let same : s' ≡ u = ground (arith, unknown, run, bad, e) in
                    subst IsQueued (sym same) q2
                | inl (i, good) ↦ elim (Option-cases (consume O StoreError nullifiers i u)) [
                  | inl gone ↦ absurd (ground (arith, unknown, run, good, gone, e))
                  | inr ((v, i'), used) ↦
                      let q3 = consume-IsQueued nullifiers i i' u v q2 used in
                      let same : s' ≡ track_impact O StoreError id i' v =
                        ground (arith, unknown, run, good, used, e) in
                      subst IsQueued (sym same) (track_impact-IsQueued id i' v q3)
                ]
              ]
        ]
      ]
