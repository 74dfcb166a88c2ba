-- ===== src/BlockProducer/Account/Segments.antt =====
-- What `InflightAccountState` promises: two lists of states, the committed ones and after them the
-- inflight ones. Each method is described on the two lists, with the panics.
use miden_node.Prelude.{
  ℕ, ◌+◌, ◌-◌, ◌≤◌, ◌≡◌, refl, ap, true, false, ◌&&◌, none, some, List, [], ◌∷◌, ◌++◌,
  if◌then◌else◌, is_empty, length, leb, ◌==◌, take, drop, last?, arith, length-append,
  take-length-append, take-append-drop, length-take, length-drop, drop_append_le, Bool-cases, inl,
  inr,
}
use mathlib.Core.Option
use mathlib.Core.List.{append_assoc, append-nil}
use native.Mathlib.Nat.{zero-add, suc-add}
use miden_node.BlockProducer.Account.{
  InflightAccountState, AccountStatus, empty, non_empty, insert, current_state, revert, commit,
  prune_committed, emptiness,
}

pub record Segments : Type 0 where
  pub settled : List (ℕ × ℕ)
  pub inflight : List (ℕ × ℕ)

-- The account state that stands for the two lists.
pub of_segments : Segments → InflightAccountState
of_segments s = record { states = s.settled ++ s.inflight; committed = length s.settled }

abbrev pub status : Segments → AccountStatus
status s = if is_empty s.settled && is_empty s.inflight then empty else non_empty

abbrev pub IsValid : InflightAccountState → Type 0
IsValid a = a.committed ≤ length a.states

take_append : (n : ℕ) (xs ys : List (ℕ × ℕ)) → take (length xs + n) (xs ++ ys) ≡ xs ++ take n ys
take_append n [] ys = rw (zero-add n)
take_append n (x ∷ xs) ys = rw (suc-add (length xs) n) (ap (◌∷◌ x) (take_append n xs ys))

drop-length-append : (xs ys : List (ℕ × ℕ)) → drop (length xs) (xs ++ ys) ≡ ys
drop-length-append [] ys = refl
drop-length-append (x ∷ xs) ys = drop-length-append xs ys

is_empty-append : (xs ys : List (ℕ × ℕ)) → is_empty (xs ++ ys) ≡ (is_empty xs && is_empty ys)
is_empty-append [] ys = refl
is_empty-append (x ∷ xs) ys = refl

last?-append_ne : (xs ys : List (ℕ × ℕ)) → is_empty ys ≡ false → last? (xs ++ ys) ≡ last? ys
last?-append_ne [] ys h = refl
last?-append_ne (x ∷ xs) [] h = cc
last?-append_ne (x ∷ []) (y ∷ ys) h = refl
last?-append_ne (x ∷ z ∷ xs) (y ∷ ys) h = last?-append_ne (z ∷ xs) (y ∷ ys) h

is_empty-eq_nil : (xs : List (ℕ × ℕ)) → is_empty xs ≡ true → xs ≡ []
is_empty-eq_nil [] h = refl
is_empty-eq_nil (x ∷ xs) h = cc

-- Exactly the valid states stand for two lists.
pub of_segments_surjective :
    (a : InflightAccountState) → IsValid a → (s : Segments) × (of_segments s ≡ a)
unfolding of_segments
of_segments_surjective a v = (
  record { settled = take a.committed a.states; inflight = drop a.committed a.states },
  λ i. record {
    states = take-append-drop a.committed a.states i;
    committed = length-take a.committed a.states v i;
  },
)

pub of_segments-IsValid : (s : Segments) → IsValid (of_segments s)
unfolding of_segments
of_segments-IsValid s = omega (arith, length-append s.settled s.inflight)

-- The parent that `insert` finds.
parent-inflight :
    (xs ys : List (ℕ × ℕ))
    → (if length (xs ++ ys) - length xs == 0
        then none
        else Option.map (λ (e : ℕ × ℕ). e.1) (last? (xs ++ ys)))
      ≡ Option.map (λ (e : ℕ × ℕ). e.1) (last? ys)
parent-inflight xs [] = ground (arith, length-append xs [])
parent-inflight xs (y ∷ ys) =
    ground (arith, length-append xs (y ∷ ys), last?-append_ne xs (y ∷ ys) refl)

module _ (s : Segments) where
  length-inflight : length (s.settled ++ s.inflight) - length s.settled ≡ length s.inflight
  length-inflight = omega (arith, length-append s.settled s.inflight)

  -- A new state is inflight; its parent is the last inflight state, if there is one.
  pub insert-of_segments :
      (state tx : ℕ)
      → insert (of_segments s) state tx ≡ (
        of_segments (record s { inflight = s.inflight ++ (state, tx) ∷ [] }),
        Option.map (λ e. e.1) (last? s.inflight),
      )
  unfolding insert of_segments
  insert-of_segments state tx = rw (append_assoc, parent-inflight s.settled s.inflight)

  -- What is left when the last `n` inflight states are gone.
  abbrev pub without_last : ℕ → Segments
  without_last n = record s { inflight = take (length s.inflight - n) s.inflight }

  -- The last `n` inflight states are reverted; with fewer the call panics.
  pub revert-of_segments :
      (n : ℕ)
      → revert (of_segments s) n ≡ (
          if leb n (length s.inflight)
          then some (of_segments (without_last n), status (without_last n))
          else none)
  unfolding revert of_segments
  revert-of_segments n = elim (Bool-cases (leb n (length s.inflight))) [
    | inl e ↦
        let shorter : length (s.settled ++ s.inflight) - n
            ≡ length s.settled + (length s.inflight - n) =
          ground (arith, length-append s.settled s.inflight) in
        rw (
          length-inflight,
          e,
          shorter,
          take_append (length s.inflight - n) s.settled s.inflight,
          is_empty-append s.settled (take (length s.inflight - n) s.inflight),
        )
    | inr e ↦ rw (length-inflight, e)
  ]

  -- The first `n` inflight states are committed; with fewer the call panics.
  pub commit-of_segments :
      (n : ℕ)
      → commit (of_segments s) n ≡ (
          if leb n (length s.inflight)
          then some (
              of_segments
                (record { settled = s.settled ++ take n s.inflight; inflight = drop n s.inflight }))
          else none)
  unfolding commit of_segments
  commit-of_segments n = elim (Bool-cases (leb n (length s.inflight))) [
    | inl e ↦ rw (
      length-inflight,
      e,
      append_assoc,
      take-append-drop n s.inflight,
      length-append s.settled (take n s.inflight),
      length-take n s.inflight (ground arith),
    )
    | inr e ↦ rw (length-inflight, e)
  ]

  -- The first `n` committed states are pruned; with fewer the call panics.
  pub prune_committed-of_segments :
      (n : ℕ)
      → prune_committed (of_segments s) n ≡ (
          if leb n (length s.settled)
          then some (
            of_segments (record s { settled = drop n s.settled }),
            status (record s { settled = drop n s.settled }),
          )
          else none)
  unfolding prune_committed of_segments
  prune_committed-of_segments n = elim (Bool-cases (leb n (length s.settled))) [
    | inl e ↦ rw (
      e,
      drop_append_le n s.settled s.inflight (ground arith),
      length-drop n s.settled,
      is_empty-append (drop n s.settled) s.inflight,
    )
    | inr e ↦ rw e
  ]

  -- The current state is the last one, of the inflight states if there are any.
  pub current_state-of_segments :
      current_state (of_segments s)
      ≡ Option.map (λ e. e.0) (last? (if is_empty s.inflight then s.settled else s.inflight))
  unfolding current_state of_segments
  current_state-of_segments = elim (Bool-cases (is_empty s.inflight)) [
    | inl e ↦ rw (is_empty-eq_nil s.inflight e, append-nil)
    | inr e ↦ rw (e, last?-append_ne s.settled s.inflight e)
  ]

-- The methods on the account that stands for two lists of states, the committed and the inflight
-- ones: a new state is inflight, and its parent is the last inflight one, if there is one; the last
-- `n` inflight states are reverted, the first `n` inflight ones committed, and the first `n`
-- committed ones pruned, and with fewer the call panics; a revert and a prune report whether any
-- state is left; the current state is the last one, of the inflight states if there are any.
pub methods-of_segments :
    (s : Segments) (state tx n : ℕ)
    → (insert (of_segments s) state tx ≡ (
      of_segments (record s { inflight = s.inflight ++ (state, tx) ∷ [] }),
      Option.map (λ e. e.1) (last? s.inflight),
    ))
      × (revert (of_segments s) n ≡ (
          if leb n (length s.inflight)
          then some (of_segments (without_last s n), status (without_last s n))
          else none))
      × (commit (of_segments s) n ≡ (
          if leb n (length s.inflight)
          then some (
              of_segments
                (record { settled = s.settled ++ take n s.inflight; inflight = drop n s.inflight }))
          else none))
      × (prune_committed (of_segments s) n ≡ (
          if leb n (length s.settled)
          then some (
            of_segments (record s { settled = drop n s.settled }),
            status (record s { settled = drop n s.settled }),
          )
          else none))
      × (current_state (of_segments s)
          ≡ Option.map (λ e. e.0) (last? (if is_empty s.inflight then s.settled else s.inflight)))
methods-of_segments s state tx n = (
  insert-of_segments s state tx,
  revert-of_segments s n,
  commit-of_segments s n,
  prune_committed-of_segments s n,
  current_state-of_segments s,
)

-- A valid account whose newest state is reverted is as it was before the state was inserted.
pub revert-insert :
    (a : InflightAccountState) (state tx : ℕ)
    → IsValid a
    → revert (insert a state tx).0 1 ≡ some (a, emptiness a)
unfolding revert insert
revert-insert a state tx v =
    let added = (state, tx) ∷ [] in
    let fits : leb 1 (length (a.states ++ added) - a.committed) ≡ true =
      ground (arith, length-append a.states added) in
    let shorter : length (a.states ++ added) - 1 ≡ length a.states =
      ground (arith, length-append a.states added) in
    rw (fits, shorter, take-length-append a.states added)
