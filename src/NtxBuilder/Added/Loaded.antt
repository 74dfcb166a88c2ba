-- ===== src/NtxBuilder/Added/Loaded.antt =====
-- The notes that `State::load` of crates/ntx-builder/src/state/mod.rs takes from the store.
use miden_node.Prelude.{
  ℕ, ◌≡◌, ◌∙◌, refl, Option, none, some, Result, err, List, [], ◌∷◌, arith, ok, Option-cases,
  Result-cases, inl, inr,
}
use mathlib.Core.Path.{subst, sym}
use miden_node.Collections.BTreeMap
use miden_node.NtxBuilder.Outside.{Outside}
use miden_node.NtxBuilder.Account.{
  AccountState, add_delta, AccountUpdateDetails, NetworkAccountUpdate, new, delta, from_protocol,
  prefix,
}
use miden_node.NtxBuilder.State.{
  State, Store, TransactionImpact, default_impact, UpdateError, fetch_account, add_network_note,
  load_notes, load,
}
use miden_node.NtxBuilder.Added.{apply_update, update_account, add_notes, consume, add_transaction}

module _ {O : Outside} {StoreError : Type 0} where
  -- Fetching and adding a note leave the index of nullifiers and the transactions.
  record Frames (s s' : State O StoreError) : Type 0 where
    nullifier_idx : s'.nullifier_idx ≡ s.nullifier_idx
    inflight_txs : s'.inflight_txs ≡ s.inflight_txs

  add_network_note-Frames :
      (store : Store O StoreError) (note : O.NetworkNote) (s s' : State O StoreError)
      → add_network_note O StoreError store note s ≡ ok s'
      → Frames s s'
  unfolding add_network_note fetch_account
  add_network_note-Frames store note s s' e =
      elim (Option-cases (BTreeMap.get (O.account_prefix note) s.accounts)) [
        | inr (a, found) ↦ record {
          nullifier_idx = ground (arith, found, e);
          inflight_txs = ground (arith, found, e);
        }
        | inl gone ↦ elim (Result-cases (store.network_account (O.account_prefix note))) [
          | inr (x, bad) ↦ absurd (ground (arith, gone, bad, e))
          | inl (none, nothing) ↦ record {
            nullifier_idx = ground (arith, gone, nothing, e);
            inflight_txs = ground (arith, gone, nothing, e);
          }
          | inl (some a, there) ↦ record {
            nullifier_idx = ground (arith, gone, there, e);
            inflight_txs = ground (arith, gone, there, e);
          }
        ]
      ]

  load_notes-Frames :
      (store : Store O StoreError) (ns : List O.NetworkNote) (s s' : State O StoreError)
      → load_notes O StoreError store ns s ≡ ok s'
      → Frames s s'
  unfolding load_notes
  load_notes-Frames store [] s s' e = record {
    nullifier_idx = ground (arith, e);
    inflight_txs = ground (arith, e);
  }
  load_notes-Frames store (n ∷ ns) s s' e =
      elim (Result-cases (add_network_note O StoreError store n s)) [
        | inr (x, bad) ↦ absurd (ground (arith, bad, e))
        | inl (t, good) ↦
            let f = add_network_note-Frames store n s t good in
            let g = load_notes-Frames store ns t s' (ground (arith, good, e)) in
            record {
              nullifier_idx = cc (f.nullifier_idx, g.nullifier_idx);
              inflight_txs = cc (f.inflight_txs, g.inflight_txs);
            }
      ]

  consume-unknown :
      (ns : List ℕ) (impact : TransactionImpact) (s : State O StoreError)
      → s.nullifier_idx ≡ []
      → consume O StoreError ns impact s ≡ some (s, impact)
  unfolding consume BTreeMap.get
  consume-unknown [] impact s e = refl
  consume-unknown (n ∷ ns) impact s e =
      let lost : BTreeMap.get n s.nullifier_idx ≡ none =
        subst (λ (m : BTreeMap.BTreeMap ℕ). BTreeMap.get n m ≡ none) (sym e) refl in
      rw (lost, consume) (consume-unknown ns impact s e)

  abbrev empty_state : State O StoreError
  empty_state = record {
    accounts = [];
    queue = [];
    in_progress = [];
    inflight_txs = [];
    nullifier_idx = [];
  }

  fetch_account-idx :
      (store : Store O StoreError) (p : ℕ) (s s' : State O StoreError) (x : Option (AccountState O))
      → fetch_account O StoreError store p s ≡ ok (s', x)
      → s'.nullifier_idx ≡ s.nullifier_idx
  unfolding fetch_account
  fetch_account-idx store p s s' x e = elim (Option-cases (BTreeMap.get p s.accounts)) [
    | inr (a, found) ↦ ground (arith, found, e)
    | inl gone ↦ elim (Result-cases (store.network_account p)) [
      | inr (y, bad) ↦ absurd (ground (arith, gone, bad, e))
      | inl (none, nothing) ↦ ground (arith, gone, nothing, e)
      | inl (some a, there) ↦ ground (arith, gone, there, e)
    ]
  ]

  apply_update-idx :
      (store : Store O StoreError) (update : NetworkAccountUpdate O) (p : ℕ)
      (s s' : State O StoreError) (r : Result (Unit {0}) (UpdateError StoreError))
      → apply_update O StoreError store update p s ≡ some (s', r)
      → s'.nullifier_idx ≡ s.nullifier_idx
  unfolding apply_update
  apply_update-idx store (new account) p s s' r e = ground (arith, e)
  apply_update-idx store (delta d) p s s' r e =
      elim (Result-cases (fetch_account O StoreError store p s)) [
        | inr (x, bad) ↦ ground (arith, bad, e)
        | inl ((t, none), run) ↦
            let kept = fetch_account-idx store p s t none run in ground (arith, run, e, kept)
        | inl ((t, some a), run) ↦
            let kept = fetch_account-idx store p s t (some a) run in
            elim (Option-cases (add_delta O d a)) [
              | inl gone ↦ absurd (ground (arith, run, gone, e))
              | inr (b, now) ↦ ground (arith, run, now, e, kept)
            ]
      ]

  update_account-idx :
      (store : Store O StoreError) (o : Option (AccountUpdateDetails O)) (s s' : State O StoreError)
      (r : Result (Option ℕ) (UpdateError StoreError))
      → update_account O StoreError store o s ≡ some (s', r)
      → s'.nullifier_idx ≡ s.nullifier_idx
  unfolding update_account
  update_account-idx store none s s' r e = ground (arith, e)
  update_account-idx store (some d) s s' r e = elim (Option-cases (from_protocol O d)) [
    | inl gone ↦ ground (arith, gone, e)
    | inr (u, known) ↦ elim (Option-cases (prefix O u)) [
      | inl gone ↦ absurd (ground (arith, known, gone, e))
      | inr (p, at) ↦ elim (Option-cases (apply_update O StoreError store u p s)) [
        | inl gone ↦ absurd (ground (arith, known, at, gone, e))
        | inr ((t, x), run) ↦
            let kept = apply_update-idx store u p s t x run in
            elim (Result-cases x) [
              | inl (y, good) ↦ ground (arith, known, at, run, good, e, kept)
              | inr (y, bad) ↦ ground (arith, known, at, run, bad, e, kept)
            ]
      ]
    ]
  ]

  -- With no nullifier in the index, those of a transaction without network notes do not matter.
  add_transaction-unknown :
      (store : Store O StoreError) (s : State O StoreError) (id : ℕ) (nullifiers : List ℕ)
      (o : Option (AccountUpdateDetails O))
      → s.nullifier_idx ≡ []
      → add_transaction O StoreError store id nullifiers [] o s
        ≡ add_transaction O StoreError store id [] [] o s
  unfolding add_transaction add_notes
  add_transaction-unknown store s id nullifiers o none_known =
      elim (Option-cases (update_account O StoreError store o s)) [
        | inl gone ↦ ground (arith, gone)
        | inr ((t, err x), run) ↦ ground (arith, run)
        | inr ((t, ok updated), run) ↦
            let impact = record default_impact { account_delta = updated } in
            let kept = update_account-idx store o s t (ok updated) run ∙ none_known in
            let given = consume-unknown nullifiers impact t kept in
            let empty = consume-unknown [] impact t kept in ground (arith, run, given, empty)
      ]

  -- After a load that succeeds, whatever notes it took from the store, a transaction without network
  -- notes is handled in the same way whatever nullifiers it has.
  pub add_transaction-loaded :
      (store later : Store O StoreError) (s : State O StoreError) (id : ℕ) (nullifiers : List ℕ)
      (o : Option (AccountUpdateDetails O))
      → load O StoreError store ≡ ok s
      → add_transaction O StoreError later id nullifiers [] o s
        ≡ add_transaction O StoreError later id [] [] o s
  unfolding load
  add_transaction-loaded store later s id nullifiers o e =
      elim (Result-cases store.unconsumed_network_notes) [
        | inr (x, bad) ↦ absurd (ground (arith, bad, e))
        | inl (ns, good) ↦
            let f = load_notes-Frames store ns empty_state s (ground (arith, good, e)) in
            add_transaction-unknown later s id nullifiers o f.nullifier_idx
      ]
