-- ===== src/NtxBuilder/State/Select.antt =====
-- `State::select_candidate` of crates/ntx-builder/src/state/mod.rs.
use miden_node.Prelude.{
  ℕ, zero, suc, ◌<◌, ◌≤◌, ◌≡◌, refl, ap, true, Option, none, some, List, ◌∷◌, arith, take, length,
  List-cases, inl, inr, ◌⊎◌, take_append_le, take_all, length-append, Bool-cases, ◌==◌,
}
use mathlib.Core.Path.{subst, ◌∙◌, sym}
use miden_node.Collections.BTreeSet.{contains}
use miden_node.NtxBuilder.Outside.{Outside}
use miden_node.NtxBuilder.State.{State, TransactionCandidate, rotate, select_loop, select_candidate}
use miden_node.NtxBuilder.State.Queue.{IsQueued, IsIdle, Selects, Prunes, empty-notes}
use miden_node.NtxBuilder.State.Rotate.{rotate_lem}

module _ {O : Outside} {StoreError : Type 0} where
  Prunes-refl : (s : State O StoreError) → Prunes s s
  Prunes-refl s = record {
    kept = λ p a h. h;
    dropped = λ p a h. inl h;
    inflight_txs = refl;
    nullifier_idx = refl;
  }

  Prunes-trans : {s t u : State O StoreError} → Prunes s t → Prunes t u → Prunes s u
  Prunes-trans f g = record {
    kept = λ p a h. f.kept p a (g.kept p a h);
    dropped = λ p a h. elim (f.dropped p a h) [ inl k ↦ g.dropped p a k | inr e ↦ inr e ];
    inflight_txs = g.inflight_txs ∙ f.inflight_txs;
    nullifier_idx = g.nullifier_idx ∙ f.nullifier_idx;
  }

  -- A selection after an account was rotated is one before.
  Selects-before :
      {limit : ℕ} {s t u : State O StoreError} {k : TransactionCandidate O StoreError}
      → Prunes s t
      → t.in_progress ≡ s.in_progress
      → Selects limit t u k
      → Selects limit s u k
  Selects-before f same x = record {
    p = x.p;
    account_state = x.account_state;
    found = f.kept x.p x.account_state x.found;
    free = ground (arith, same, x.free);
    latest = x.latest;
    first_notes = x.first_notes;
    has_notes = x.has_notes;
    locked = ground (arith, same, x.locked);
  }

  IsIdle-before :
      {s t : State O StoreError}
      → Prunes s t
      → t.in_progress ≡ s.in_progress
      → (p : ℕ) → IsIdle t p
      → IsIdle s p
  IsIdle-before f same p idle free a h = elim (f.dropped p a h) [
    | inl k ↦ idle (ground (arith, same, free)) a k
    | inr e ↦ empty-notes a e
  ]

  -- What a selection returns, and leaves.
  pub record Selection (limit : ℕ) (s s' : State O StoreError) (idle : List ℕ)
      (o : Option (TransactionCandidate O StoreError)) : Type 0 where
    pub queued : IsQueued s'
    pub prunes : Prunes s s'
    pub outcome :
        ((o ≡ none)
          × (s'.in_progress ≡ s.in_progress)
          × ((p : ℕ) → contains p idle ≡ true → IsIdle s p))
        ⊎ ((k : TransactionCandidate O StoreError) × (o ≡ some k) × Selects limit s s' k)

  -- The account at the front, and then what the other turns of the loop return.
  Selection-cons :
      {limit : ℕ} {s t u : State O StoreError} {idle : List ℕ} (c : ℕ)
      {o : Option (TransactionCandidate O StoreError)}
      → Prunes s t
      → t.in_progress ≡ s.in_progress
      → IsIdle s c
      → Selection limit t u idle o
      → Selection limit s u (c ∷ idle) o
  unfolding contains
  Selection-cons {s = s} {idle = idle} c f same here x = record {
    queued = x.queued;
    prunes = Prunes-trans f x.prunes;
    outcome = elim x.outcome [
      | inr (k, e, sel) ↦ inr (k, e, Selects-before f same sel)
      | inl (e, kept, rest) ↦ inl (
        e,
        kept ∙ same,
        λ p h. elim (Bool-cases (p == c)) [
          | inl eq ↦
              let is_c : p ≡ c = ground arith in subst (λ (q : ℕ). IsIdle s q) (sym is_c) here
          | inr other ↦ IsIdle-before f same p (rest p (ground (arith, other, h)))
        ],
      )
    ];
  }

  module _ (limit : ℕ) (pos : 0 < limit) where
    select_loop-next :
        (n : ℕ) (s t : State O StoreError)
        → rotate O StoreError limit s ≡ some (t, none)
        → select_loop O StoreError limit (suc n) s ≡ select_loop O StoreError limit n t
    unfolding select_loop
    select_loop-next n s t run = rw (run, select_loop) refl

    select_loop-found :
        (n : ℕ) (s t : State O StoreError) (k : TransactionCandidate O StoreError)
        → rotate O StoreError limit s ≡ some (t, some k)
        → select_loop O StoreError limit (suc n) s ≡ some (t, some k)
    unfolding select_loop
    select_loop-found n s t k run = rw (run, select_loop) refl

    select_loop_lem :
        (n : ℕ) (s : State O StoreError)
        → IsQueued s
        → n ≤ length s.queue
        → (s' : State O StoreError) × (o : Option (TransactionCandidate O StoreError))
          × (select_loop O StoreError limit n s ≡ some (s', o))
          × Selection limit s s' (take n s.queue) o
    unfolding select_loop contains
    select_loop_lem zero s queued le = (
      s,
      none,
      refl,
      record {
        queued = queued;
        prunes = Prunes-refl s;
        outcome = inl (refl, refl, λ p h. absurd (ground arith));
      },
    )
    select_loop_lem (suc n) s queued le = elim (List-cases s.queue) [
      | inl nil ↦ absurd (ground (arith, nil))
      | inr (c, rest, at) ↦
          let (t, o, run, r) = rotate_lem limit pos s queued c rest at in
          elim r.outcome [
            | inr (k, found, sel) ↦ (
              t,
              some k,
              select_loop-found n s t k (run ∙ ap (λ x. some (t, x)) found),
              record { queued = r.queued'; prunes = r.prunes; outcome = inr (k, refl, sel) },
            )
            | inl (nothing, same, idle) ↦
                let (more, behind) = r.behind in
                let long : n ≤ length rest = ground (arith, at) in
                let (u, o', run', sel) =
                  select_loop_lem n t r.queued'
                    (omega (arith, ap length behind, length-append rest more)) in
                let seen : take n t.queue ≡ take n rest =
                  ap (take n) behind ∙ take_append_le n rest more long in
                (
                  u,
                  o',
                  select_loop-next n s t (run ∙ ap (λ x. some (t, x)) nothing) ∙ run',
                  subst (λ (q : List ℕ). Selection limit s u (take (suc n) q) o') (sym at)
                      (Selection-cons c r.prunes same idle
                        (subst (λ (q : List ℕ). Selection limit t u q o') seen sel)),
                )
          ]
    ]

    -- Where the queue holds each tracked account once and each account has a state, and for a limit
    -- above 0, `select_candidate` does not panic and keeps that so. It drops empty accounts and changes
    -- no other account, transaction or nullifier. A candidate that it returns is the latest state of an
    -- account that was not in progress, with its first notes up to the limit and at least one, and the
    -- account is then in progress. Where it returns none, the accounts in progress stay as they were,
    -- and each account of the queue was in progress or had no notes.
    pub select_candidate-Selection :
        (s : State O StoreError)
        → IsQueued s
        → (s' : State O StoreError) × (o : Option (TransactionCandidate O StoreError))
          × (select_candidate O StoreError limit s ≡ some (s', o))
          × Selection limit s s' s.queue o
    unfolding select_candidate
    select_candidate-Selection s queued =
        let (s', o, run, sel) = select_loop_lem (length s.queue) s queued (omega arith) in
        (
          s',
          o,
          run,
          subst (λ (q : List ℕ). Selection limit s s' q o) (take_all (length s.queue) s.queue refl)
              sel,
        )
