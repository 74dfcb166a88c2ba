-- ===== src/NtxBuilder/Account/Notes.antt =====
-- The notes of an account as a state machine: crates/ntx-builder/src/state/account.rs.
use miden_node.Prelude.{
  ℕ, ◌≡◌, refl, Bool, true, false, ◌&&◌, Option, none, some, arith, if◌then◌else◌, ◌==◌,
  Option-cases, inl, inr, ◌⊎◌,
}
use miden_node.Collections.BTreeMap
use miden_node.Collections.BTreeMap.{BTreeMap, contains_key, get-insert, get-remove}
use miden_node.NtxBuilder.Outside.{Outside}
use miden_node.NtxBuilder.Account.{
  AccountState, add_nullifier, commit_nullifier, revert_nullifier, revert_note,
}

-- What happens to a note of the account.
pub data NoteStatus : Type 0 where
  unknown : NoteStatus
  available : NoteStatus
  nullified : NoteStatus

pub data NoteAction : Type 0 where
  nullify : NoteAction
  commit : NoteAction
  restore : NoteAction
  discard : NoteAction

-- The state machine: a note is consumed once, and a consumption is committed or taken back.
abbrev pub act : NoteAction → NoteStatus → Option NoteStatus
act nullify unknown = none
act nullify available = some nullified
act nullify nullified = none
act commit unknown = none
act commit available = none
act commit nullified = some unknown
act restore unknown = some unknown
act restore available = some available
act restore nullified = some available
act discard status = some unknown

abbrev status_of : Bool → Bool → NoteStatus
status_of is_available true = nullified
status_of true false = available
status_of false false = unknown

module _ (O : Outside) where
  abbrev pub status : ℕ → AccountState O → NoteStatus
  status n s = status_of (contains_key n s.available_notes) (contains_key n s.nullified_notes)

  -- The operation of the account for an action.
  abbrev pub run : NoteAction → ℕ → AccountState O → Option (AccountState O)
  run nullify n s = add_nullifier O n s
  run commit n s = commit_nullifier O n s
  run restore n s = some (revert_nullifier O n s)
  run discard n s = some (revert_note O n s)

  -- No note is both available and nullified.
  abbrev pub IsDisjoint : AccountState O → Type 0
  IsDisjoint s =
      (k : ℕ) → (contains_key k s.available_notes && contains_key k s.nullified_notes) ≡ false

  module _ (n : ℕ) (s : AccountState O) (disjoint : IsDisjoint s) where
    -- What an action that succeeds with a status does.
    abbrev Moves : Option (AccountState O) → NoteStatus → Type 0
    Moves result t =
        (s' : AccountState O) × (result ≡ some s')
        × IsDisjoint s'
        × ((k : ℕ) → status k s' ≡ (if k == n then t else status k s))

    nullify-Moves :
        (note : O.NetworkNote)
        → BTreeMap.get n s.available_notes ≡ some note
        → (status n s ≡ available) × Moves (add_nullifier O n s) nullified
    unfolding add_nullifier
    nullify-Moves note found = (
      ground (arith, disjoint n),
      (
        record s {
          available_notes = BTreeMap.remove n s.available_notes;
          nullified_notes = BTreeMap.insert n note s.nullified_notes;
        },
        rw (found, add_nullifier) refl,
        λ k. ground (
          arith,
          disjoint k,
          get-remove k n s.available_notes,
          get-insert k n note s.nullified_notes,
        ),
        λ k. ground (
          arith,
          disjoint k,
          get-remove k n s.available_notes,
          get-insert k n note s.nullified_notes,
        ),
      ),
    )

    commit-Moves :
        (note : O.NetworkNote)
        → BTreeMap.get n s.nullified_notes ≡ some note
        → (status n s ≡ nullified) × Moves (commit_nullifier O n s) unknown
    unfolding commit_nullifier
    commit-Moves note found = (
      ground (arith, disjoint n),
      (
        record s {
          available_notes = s.available_notes;
          nullified_notes = BTreeMap.remove n s.nullified_notes;
        },
        rw (found, commit_nullifier) refl,
        λ k. ground (arith, disjoint k, get-remove k n s.nullified_notes),
        λ k. ground (arith, disjoint k, get-remove k n s.nullified_notes),
      ),
    )

    restore-Moves :
        (note : O.NetworkNote)
        → BTreeMap.get n s.nullified_notes ≡ some note
        → (status n s ≡ nullified) × Moves (some (revert_nullifier O n s)) available
    unfolding revert_nullifier
    restore-Moves note found = (
      ground (arith, disjoint n),
      (
        record s {
          available_notes = BTreeMap.insert n note s.available_notes;
          nullified_notes = BTreeMap.remove n s.nullified_notes;
        },
        rw (found, revert_nullifier) refl,
        λ k. ground (
          arith,
          disjoint k,
          get-remove k n s.nullified_notes,
          get-insert k n note s.available_notes,
        ),
        λ k. ground (
          arith,
          disjoint k,
          get-remove k n s.nullified_notes,
          get-insert k n note s.available_notes,
        ),
      ),
    )

    discard-Moves : Moves (some (revert_note O n s)) unknown
    unfolding revert_note
    discard-Moves = (
      revert_note O n s,
      refl,
      λ k.
          ground
            (arith, disjoint k, get-remove k n s.available_notes, get-remove k n s.nullified_notes),
      λ k.
          ground
            (arith, disjoint k, get-remove k n s.available_notes, get-remove k n s.nullified_notes),
    )

    same-Moves :
        BTreeMap.get n s.nullified_notes ≡ none → Moves (some (revert_nullifier O n s)) (status n s)
    unfolding revert_nullifier
    same-Moves gone = (s, rw (gone, revert_nullifier) refl, disjoint, λ k. ground arith)

    -- For an account in which no note is both available and nullified, each of `add_nullifier`,
    -- `commit_nullifier`, `revert_nullifier` and `revert_note` panics exactly where the state machine of
    -- a note has no step, and otherwise moves the one note as the state machine says, leaves the
    -- others, and keeps that none is both available and nullified.
    pub run_lem :
        (a : NoteAction)
        → (act a (status n s) ≡ none) × (run a n s ≡ none)
          ⊎ (t : NoteStatus) × (act a (status n s) ≡ some t) × Moves (run a n s) t
    unfolding add_nullifier commit_nullifier
    run_lem nullify = elim (Option-cases (BTreeMap.get n s.available_notes)) [
      | inl gone ↦ inl (ground (arith, gone), ground (arith, gone))
      | inr (note, found) ↦
          let (at, moves) = nullify-Moves note found in inr (nullified, rw at refl, moves)
    ]
    run_lem commit = elim (Option-cases (BTreeMap.get n s.nullified_notes)) [
      | inl gone ↦ inl (ground (arith, gone), ground (arith, gone))
      | inr (note, found) ↦
          let (at, moves) = commit-Moves note found in inr (unknown, rw at refl, moves)
    ]
    run_lem restore = elim (Option-cases (BTreeMap.get n s.nullified_notes)) [
      | inl gone ↦ inr (status n s, ground (arith, gone), same-Moves gone)
      | inr (note, found) ↦
          let (at, moves) = restore-Moves note found in inr (available, rw at refl, moves)
    ]
    run_lem discard = inr (unknown, refl, discard-Moves)
