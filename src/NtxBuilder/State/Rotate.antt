-- ===== src/NtxBuilder/State/Rotate.antt =====
-- The body of the loop of `select_candidate`: crates/ntx-builder/src/state/mod.rs.
use miden_node.Prelude.{
  ℕ, ◌<◌, ◌≡◌, refl, sym, true, false, Option, none, some, List, [], ◌∷◌, ◌++◌, arith, take,
  is_empty, Option-cases, Bool-cases, List-cases, inl, inr, ◌⊎◌, ◌==◌,
}
use mathlib.Core.Path.{subst}
use mathlib.Core.List.{append-nil}
use miden_node.Collections.BTreeMap
use miden_node.Collections.BTreeMap.{contains_key, get-remove}
use miden_node.Collections.BTreeSet
use miden_node.Collections.BTreeSet.{contains}
use miden_node.NtxBuilder.Outside.{Outside}
use miden_node.NtxBuilder.Account.{AccountState, latest_account, notes, account_state_is_empty}
use miden_node.NtxBuilder.State.{State, TransactionCandidate, rotate}
use miden_node.Collections.Distinct.{IsDistinct, contains-rotate, IsDistinct-rotate}
use miden_node.NtxBuilder.State.Queue.{
  take-is_empty, IsQueued, IsIdle, Selects, Prunes, Prunes-same, empty-notes,
}

module _ {O : Outside} {StoreError : Type 0} where
  module _ (limit : ℕ) (pos : 0 < limit) (s : State O StoreError) (queued : IsQueued s) (c : ℕ)
      (rest : List ℕ) (at : s.queue ≡ c ∷ rest) where
    -- What the body of the loop does to the account at the front of the queue.
    pub record Rotation (s' : State O StoreError) (o : Option (TransactionCandidate O StoreError))
        : Type 0 where
      pub queued' : IsQueued s'
      pub prunes : Prunes s s'
      pub behind : (more : List ℕ) × (s'.queue ≡ rest ++ more)
      pub outcome :
          ((o ≡ none) × (s'.in_progress ≡ s.in_progress) × IsIdle s c)
          ⊎ ((k : TransactionCandidate O StoreError) × (o ≡ some k) × Selects limit s s' k)

    rotated-IsQueued :
        (s' : State O StoreError)
        → s'.queue ≡ rest ++ c ∷ []
        → s'.accounts ≡ s.accounts
        → IsQueued s'
    unfolding contains
    rotated-IsQueued s' q e =
        let once : IsDistinct (c ∷ rest) = subst IsDistinct at queued.once in
        let fresh : contains c rest ≡ false = once.0 in
        record {
          tracked = λ p. ground (arith, q, e, at, queued.tracked p, contains-rotate p c rest);
          once = rw q (IsDistinct-rotate c rest fresh once.1);
          stateful = λ p a h. queued.stateful p a (ground (arith, e));
        }

    pruned-IsQueued :
        (s' : State O StoreError)
        → s'.queue ≡ rest
        → s'.accounts ≡ BTreeMap.remove c s.accounts
        → IsQueued s'
    unfolding contains
    pruned-IsQueued s' q e =
        let once : IsDistinct (c ∷ rest) = subst IsDistinct at queued.once in
        let fresh : contains c rest ≡ false = once.0 in
        record {
          tracked =
              λ p. ground (arith, q, e, at, queued.tracked p, fresh, get-remove p c s.accounts);
          once = rw q once.1;
          stateful = λ p a h. queued.stateful p a (ground (arith, e, get-remove p c s.accounts));
        }

    same_account :
        (a b : AccountState O)
        → BTreeMap.get c s.accounts ≡ some a
        → BTreeMap.get c s.accounts ≡ some b
        → a ≡ b
    same_account a b found h = cc

    -- The front account, when it is rotated and not selected.
    skips : IsIdle s c → Rotation (record s { queue = rest ++ c ∷ [] }) none
    skips idle = record {
      queued' = rotated-IsQueued (record s { queue = rest ++ c ∷ [] }) refl refl;
      prunes = Prunes-same s (record s { queue = rest ++ c ∷ [] }) refl refl refl;
      behind = (c ∷ [], refl);
      outcome = inl (refl, refl, idle);
    }

    -- The front account, when it is empty.
    prunes_empty :
        (a : AccountState O)
        → BTreeMap.get c s.accounts ≡ some a
        → account_state_is_empty O a ≡ true
        → Rotation (record s { accounts = BTreeMap.remove c s.accounts; queue = rest }) none
    unfolding account_state_is_empty notes
    prunes_empty a found gone = record {
      queued' =
          pruned-IsQueued (record s { accounts = BTreeMap.remove c s.accounts; queue = rest }) refl
            refl;
      prunes = record {
        kept = λ p b h. ground (arith, get-remove p c s.accounts);
        dropped = λ p b h. elim (Bool-cases (p == c)) [
          | inl same ↦ inr (ground (arith, same, found, gone))
          | inr other ↦ inl (ground (arith, other, get-remove p c s.accounts))
        ];
        inflight_txs = refl;
        nullifier_idx = refl;
      };
      behind = ([], rw append-nil);
      outcome = inl (
        refl,
        refl,
        λ free b h.
            subst (λ (x : AccountState O). is_empty (notes O x) ≡ true) (same_account a b found h)
              (empty-notes a gone),
      );
    }

    -- The front account, when it is selected.
    selects :
        (a : AccountState O) (latest : O.Account) (note : O.NetworkNote) (more : List O.NetworkNote)
        → BTreeMap.get c s.accounts ≡ some a
        → contains c s.in_progress ≡ false
        → take limit (notes O a) ≡ note ∷ more
        → latest_account O a ≡ some latest
        → Rotation
            (record s { queue = rest ++ c ∷ []; in_progress = BTreeSet.insert c s.in_progress })
            (some (record { account = latest; notes = note ∷ more }))
    selects a latest note more found free taken has =
        let s' = record s {
          queue = rest ++ c ∷ [];
          in_progress = BTreeSet.insert c s.in_progress;
        } in
        record {
          queued' = rotated-IsQueued s' refl refl;
          prunes = Prunes-same s s' refl refl refl;
          behind = (c ∷ [], refl);
          outcome = inr (
            record { account = latest; notes = note ∷ more },
            refl,
            record {
              p = c;
              account_state = a;
              found = found;
              free = free;
              latest = has;
              first_notes = sym taken;
              has_notes = refl;
              locked = refl;
            },
          );
        }

    pub rotate_lem :
        (s' : State O StoreError) × (o : Option (TransactionCandidate O StoreError)) × (rotate O
            StoreError limit s
          ≡ some (s', o))
        × Rotation s' o
    unfolding rotate contains
    rotate_lem =
        let rotated = record s { queue = rest ++ c ∷ [] } in
        let in_queue : contains c s.queue ≡ true = ground (arith, at) in
        elim (Bool-cases (contains c s.in_progress)) [
          | inl busy ↦ (
            rotated,
            none,
            rw (at, busy) refl,
            skips (λ free. absurd (ground (arith, busy, free))),
          )
          | inr free ↦ elim (Option-cases (BTreeMap.get c s.accounts)) [
            | inl gone ↦ absurd (ground (arith, gone, in_queue, queued.tracked c))
            | inr (a, found) ↦ elim (Bool-cases (account_state_is_empty O a)) [
              | inl gone ↦ (
                record s { accounts = BTreeMap.remove c s.accounts; queue = rest },
                none,
                rw (at, free, found, gone) refl,
                prunes_empty a found gone,
              )
              | inr full ↦ elim (List-cases (take limit (notes O a))) [
                | inl nothing ↦ (
                  rotated,
                  none,
                  rw (at, free, found, full, nothing) refl,
                  skips (λ _ b h.
                      subst (λ (x : AccountState O). is_empty (notes O x) ≡ true)
                        (same_account a b found h)
                        (take-is_empty limit (notes O a) pos (rw nothing refl))),
                )
                | inr (note, more, taken) ↦ elim (Option-cases (latest_account O a)) [
                  | inl gone ↦ absurd (ground (arith, gone, queued.stateful c a found))
                  | inr (latest, has) ↦ (
                    record rotated { in_progress = BTreeSet.insert c s.in_progress },
                    some (record { account = latest; notes = note ∷ more }),
                    rw (at, free, found, full, taken, has) refl,
                    selects a latest note more found free taken has,
                  )
                ]
              ]
            ]
          ]
        ]
