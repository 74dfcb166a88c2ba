-- ===== src/NtxBuilder/Events/Reach.antt =====
-- The life of the builder's state, crates/ntx-builder/src/state/mod.rs, as long as nothing is reverted.
use miden_node.Prelude.{
  ℕ, ◌<◌, ◌≡◌, Option, some, List, [], ◌∷◌, arith, Option-cases, inl, inr, Result, ok,
}
use mathlib.Core.Path.{subst, sym}
use miden_node.NtxBuilder.Outside.{Outside}
use miden_node.NtxBuilder.Account.{AccountUpdateDetails}
use miden_node.NtxBuilder.State.{
  State, Store, UpdateError, load, TransactionCandidate, select_candidate, candidate_failed,
}
use miden_node.NtxBuilder.State.Queue.{IsQueued}
use miden_node.NtxBuilder.State.Fetch.{load-IsQueued}
use miden_node.NtxBuilder.State.Select.{Selection, select_candidate-Selection}
use miden_node.NtxBuilder.Added.Queued.{IsFresh, IsQueued-same, add_transaction-IsQueued}
use miden_node.NtxBuilder.Settled.{commit_transaction}
use miden_node.NtxBuilder.Settled.Queued.{commit_transaction-IsQueued}
use miden_node.NtxBuilder.Events.{transaction_added, block_committed, for_each, mempool_update}

module _ {O : Outside} {StoreError : Type 0} where
  -- One call, with any answers of the store: an added transaction that creates no tracked account, a
  -- block, a selection, or a failure that is reported.
  pub data Step (s s' : State O StoreError) : Type 0 where
    added :
        (store : Store O StoreError) (id : ℕ) (nullifiers : List ℕ) (notes : List O.NetworkNote)
        (o : Option (AccountUpdateDetails O)) (r : Result (Unit {0}) (UpdateError StoreError))
        → IsFresh o s
        → mempool_update O StoreError store (transaction_added id nullifiers notes o) s
          ≡ some (s', r)
        → Step s s'
    committed :
        (store : Store O StoreError) (txs : List ℕ) (r : Result (Unit {0}) (UpdateError StoreError))
        → mempool_update O StoreError store (block_committed txs) s ≡ some (s', r)
        → Step s s'
    selected :
        (limit : ℕ) (o : Option (TransactionCandidate O StoreError))
        → 0 < limit
        → select_candidate O StoreError limit s ≡ some (s', o)
        → Step s s'
    failed : (p : ℕ) → s' ≡ candidate_failed O StoreError p s → Step s s'

  -- From a load of the store on.
  pub data Reach : State O StoreError → Type 0 where
    loaded :
        {s : State O StoreError} (store : Store O StoreError)
        → load O StoreError store ≡ ok s
        → Reach s
    step : {s s' : State O StoreError} → Reach s → Step s s' → Reach s'

  commits-IsQueued :
      (txs : List ℕ) (s s' : State O StoreError)
      → IsQueued s
      → for_each O StoreError (commit_transaction O StoreError) txs s ≡ some s'
      → IsQueued s'
  unfolding for_each
  commits-IsQueued [] s s' q e =
      let same : s' ≡ s = ground (arith, e) in subst IsQueued (sym same) q
  commits-IsQueued (tx ∷ txs) s s' q e =
      elim (Option-cases (commit_transaction O StoreError tx s)) [
        | inl gone ↦ absurd (ground (arith, gone, e))
        | inr (t, run) ↦
            commits-IsQueued txs t s' (commit_transaction-IsQueued tx s t q run)
              (ground (arith, run, e))
      ]

  Step-IsQueued : {s s' : State O StoreError} → Step s s' → IsQueued s → IsQueued s'
  unfolding mempool_update candidate_failed
  Step-IsQueued {s} {s'} (added store id nullifiers notes o r fresh e) q =
      add_transaction-IsQueued store id nullifiers notes o s s' r q fresh e
  Step-IsQueued {s} {s'} (committed store txs r e) q =
      elim (Option-cases (for_each O StoreError (commit_transaction O StoreError) txs s)) [
        | inl gone ↦ absurd (ground (arith, gone, e))
        | inr (t, run) ↦
            let same : s' ≡ t = ground (arith, run, e) in
            subst IsQueued (sym same) (commits-IsQueued txs s t q run)
      ]
  Step-IsQueued {s} {s'} (selected limit o pos e) q =
      let (t, o', run, sel) = select_candidate-Selection limit pos s q in
      let same : s' ≡ t = ground (arith, run, e) in subst IsQueued (sym same) sel.queued
  Step-IsQueued {s} {s'} (failed p e) q =
      IsQueued-same {s = s} (ground (arith, e)) (ground (arith, e)) q

  Reach-IsQueued : {s : State O StoreError} → Reach s → IsQueued s
  Reach-IsQueued (loaded {s} store e) = load-IsQueued store s e
  Reach-IsQueued (step r st) = Step-IsQueued st (Reach-IsQueued r)

  -- After a load and any calls but reverts, where no added transaction creates an account that is
  -- tracked, a selection with a limit above 0 does not panic; it drops empty accounts only, and keeps
  -- the queue right. Either it returns an account that is tracked and not in progress, in its latest
  -- state, with its first notes up to the limit, at least one, and the account is then in progress; or
  -- it returns nothing, and every account of the queue is in progress or has no note to consume.
  pub select_candidate-Reach :
      (s : State O StoreError) (limit : ℕ)
      → Reach s
      → 0 < limit
      → (s' : State O StoreError) × (o : Option (TransactionCandidate O StoreError))
        × (select_candidate O StoreError limit s ≡ some (s', o))
        × Selection limit s s' s.queue o
  select_candidate-Reach s limit r pos = select_candidate-Selection limit pos s (Reach-IsQueued r)
