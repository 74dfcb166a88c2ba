-- ===== src/NtxBuilder/State/Fetch.antt =====
-- `State::fetch_account` and `State::load` of crates/ntx-builder/src/state/mod.rs, and the queue.
use miden_node.Prelude.{
  ℕ, ◌≡◌, refl, true, false, Option, none, some, List, [], ◌∷◌, ◌++◌, arith, is_some, Option-cases,
  Bool-cases, inl, inr, ◌==◌, ok, Result-cases,
}
use mathlib.Core.Path.{subst, sym}
use miden_node.Collections.BTreeMap
use miden_node.Collections.BTreeMap.{contains_key, get-insert}
use miden_node.Collections.BTreeSet.{contains}
use miden_node.NtxBuilder.Outside.{Outside}
use miden_node.NtxBuilder.Account.{AccountState, latest_account, from_committed_account, add_note}
use miden_node.NtxBuilder.Account.Latest.{from_committed_account-HasState, add_note-HasState}
use miden_node.NtxBuilder.State.{State, Store, fetch_account, add_network_note, load_notes, load}
use miden_node.Collections.Distinct.{IsDistinct, contains-rotate, IsDistinct-rotate}
use miden_node.NtxBuilder.State.Queue.{IsQueued}

module _ {O : Outside} {StoreError : Type 0} where
  -- A tracked account is written.
  pub write-IsQueued :
      {s s' : State O StoreError} (p : ℕ) (a b : AccountState O)
      → IsQueued s
      → BTreeMap.get p s.accounts ≡ some a
      → is_some (latest_account O b) ≡ true
      → s'.queue ≡ s.queue
      → s'.accounts ≡ BTreeMap.insert p b s.accounts
      → IsQueued s'
  write-IsQueued {s} {s'} p a b q found has eq_q eq_a = record {
    tracked = λ k. elim (Bool-cases (k == p)) [
      | inl same ↦
          let is_p : k ≡ p = ground arith in
          subst (λ x. contains x s'.queue ≡ contains_key x s'.accounts) (sym is_p)
            (ground (arith, eq_q, eq_a, q.tracked p, found, get-insert p p b s.accounts))
      | inr other ↦ ground (arith, eq_q, eq_a, q.tracked k, other, get-insert k p b s.accounts)
    ];
    once = subst IsDistinct (sym eq_q) q.once;
    stateful = λ k x h. elim (Bool-cases (k == p)) [
      | inl same ↦
          let is_b : x ≡ b = ground (arith, eq_a, h, same, get-insert k p b s.accounts) in
          subst (λ y. is_some (latest_account O y) ≡ true) (sym is_b) has
      | inr other ↦ q.stateful k x (ground (arith, eq_a, h, other, get-insert k p b s.accounts))
    ];
  }

  -- An account that is not tracked is written and queued.
  pub track-IsQueued :
      {s s' : State O StoreError} (p : ℕ) (b : AccountState O)
      → IsQueued s
      → BTreeMap.get p s.accounts ≡ none
      → is_some (latest_account O b) ≡ true
      → s'.queue ≡ s.queue ++ p ∷ []
      → s'.accounts ≡ BTreeMap.insert p b s.accounts
      → IsQueued s'
  track-IsQueued {s} {s'} p b q gone has eq_q eq_a =
      let out : contains p s.queue ≡ false = ground (arith, q.tracked p, gone) in
      record {
        tracked = λ k. ground (
          arith,
          eq_q,
          eq_a,
          q.tracked k,
          contains-rotate k p s.queue,
          get-insert k p b s.accounts,
        );
        once = subst IsDistinct (sym eq_q) (IsDistinct-rotate p s.queue out q.once);
        stateful = λ k x h. elim (Bool-cases (k == p)) [
          | inl same ↦
              let is_b : x ≡ b = ground (arith, eq_a, h, same, get-insert k p b s.accounts) in
              subst (λ y. is_some (latest_account O y) ≡ true) (sym is_b) has
          | inr other ↦ q.stateful k x (ground (arith, eq_a, h, other, get-insert k p b s.accounts))
        ];
      }

  pub fetch_account-IsQueued :
      (store : Store O StoreError) (p : ℕ) (s s' : State O StoreError) (o : Option (AccountState O))
      → IsQueued s
      → fetch_account O StoreError store p s ≡ ok (s', o)
      → IsQueued s' × (BTreeMap.get p s'.accounts ≡ o)
  unfolding fetch_account
  fetch_account-IsQueued store p s s' o q e = elim (Option-cases (BTreeMap.get p s.accounts)) [
    | inr (a, found) ↦
        let same : s' ≡ s = ground (arith, found, e) in
        (subst IsQueued (sym same) q, ground (arith, found, e))
    | inl gone ↦ elim (Result-cases (store.network_account p)) [
      | inr (x, bad) ↦ absurd (ground (arith, gone, bad, e))
      | inl (none, nothing) ↦
          let same : s' ≡ s = ground (arith, gone, nothing, e) in
          (subst IsQueued (sym same) q, ground (arith, gone, nothing, e))
      | inl (some account, there) ↦
          let b = from_committed_account O account in
          let eq_a : s'.accounts ≡ BTreeMap.insert p b s.accounts =
            ground (arith, gone, there, e) in
          let eq_o : o ≡ some b = ground (arith, gone, there, e) in
          (
            track-IsQueued p b q gone (from_committed_account-HasState O account)
                (ground (arith, gone, there, e)) eq_a,
            ground (arith, eq_a, eq_o, get-insert p p b s.accounts),
          )
    ]
  ]

  pub add_network_note-IsQueued :
      (store : Store O StoreError) (note : O.NetworkNote) (s s' : State O StoreError)
      → IsQueued s
      → add_network_note O StoreError store note s ≡ ok s'
      → IsQueued s'
  unfolding add_network_note
  add_network_note-IsQueued store note s s' q e =
      let p = O.account_prefix note in
      elim (Result-cases (fetch_account O StoreError store p s)) [
        | inr (x, bad) ↦ absurd (ground (arith, bad, e))
        | inl ((t, none), run) ↦
            let (q', _) = fetch_account-IsQueued store p s t none q run in
            let same : s' ≡ t = ground (arith, run, e) in subst IsQueued (sym same) q'
        | inl ((t, some a), run) ↦
            let (q', found) = fetch_account-IsQueued store p s t (some a) q run in
            let has = add_note-HasState O note a (q'.stateful p a found) in
            write-IsQueued {s = t} p a (add_note O note a) q' found has (ground (arith, run, e))
              (ground (arith, run, e))
      ]

  load_notes-IsQueued :
      (store : Store O StoreError) (ns : List O.NetworkNote) (s s' : State O StoreError)
      → IsQueued s
      → load_notes O StoreError store ns s ≡ ok s'
      → IsQueued s'
  unfolding load_notes
  load_notes-IsQueued store [] s s' q e =
      let same : s' ≡ s = ground (arith, e) in subst IsQueued (sym same) q
  load_notes-IsQueued store (n ∷ ns) s s' q e =
      elim (Result-cases (add_network_note O StoreError store n s)) [
        | inr (x, bad) ↦ absurd (ground (arith, bad, e))
        | inl (t, good) ↦
            load_notes-IsQueued store ns t s' (add_network_note-IsQueued store n s t q good)
              (ground (arith, good, e))
      ]

  pub load-IsQueued :
      (store : Store O StoreError) (s : State O StoreError)
      → load O StoreError store ≡ ok s
      → IsQueued s
  unfolding load contains BTreeMap.get
  load-IsQueued store s e = elim (Result-cases store.unconsumed_network_notes) [
    | inr (x, bad) ↦ absurd (ground (arith, bad, e))
    | inl (ns, good) ↦
        load_notes-IsQueued store ns
          (record {
            accounts = [];
            queue = [];
            in_progress = [];
            inflight_txs = [];
            nullifier_idx = [];
          })
          s
          (record {
            tracked = λ p. refl;
            once = tt;
            stateful = λ p a h. absurd (ground (arith, h));
          })
          (ground (arith, good, e))
  ]
