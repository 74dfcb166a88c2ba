-- ===== src/NtxBuilder/Tests.antt =====
-- The builder at small states: an account is a pair of its prefix and its version.
use miden_node.Prelude.{
  ℕ, ◌≡◌, ◌+◌, ◌⊎◌, ◌==◌, refl, true, Option, none, some, [], ◌∷◌, arith, ok, if◌then◌else◌,
}
use miden_node.Collections.BTreeMap
use miden_node.Collections.BTreeSet
use miden_node.Collections.BTreeSet.{contains}
use miden_node.NtxBuilder.Outside.{Outside}
use miden_node.NtxBuilder.Account.{
  AccountState, add_note, revert_note, revert_delta, delta_update, from_committed_account,
}
use miden_node.NtxBuilder.Account.Notes.{
  NoteStatus, available, act, nullify, status, run, IsDisjoint, run_lem,
}
use miden_node.NtxBuilder.State.{
  State, Store, TransactionImpact, TransactionCandidate, load, load_notes, add_network_note,
  fetch_account, select_candidate,
}
use miden_node.NtxBuilder.State.Select.{Selection}
use miden_node.NtxBuilder.Added.{add_transaction}
use miden_node.NtxBuilder.Added.Loaded.{add_transaction-loaded}
use miden_node.NtxBuilder.Settled.{
  revert_transaction, revert_account, revert_notes, revert_nullifiers, modify_account,
}
use miden_node.NtxBuilder.Settled.Panics.{revert_transaction-panics, select_candidate-panics}
use miden_node.NtxBuilder.Events.Reach.{loaded, select_candidate-Reach}

-- A note is a pair of its nullifier and the prefix that it targets.
abbrev outside : Outside
outside = record {
  Account = ℕ × ℕ;
  AccountDelta = ℕ × ℕ;
  id = λ a. a.0;
  delta_id = λ d. d.0;
  is_network = λ id. true;
  prefix_as_u64 = λ id. id;
  apply_delta = λ a d. some (a.0, a.1 + d.1);
  NetworkNote = ℕ × ℕ;
  nullifier = λ n. n.0;
  account_prefix = λ n. n.1;
}

-- The store has account 0, and a note for it.
abbrev store : Store outside ℕ
store = record {
  unconsumed_network_notes = ok ((60, 0) ∷ []);
  network_account = λ p. ok (if p == 0 then some (0, 1) else none);
}

-- The account, with its note.
abbrev with_note : AccountState outside
with_note = record {
  committed = some (0, 1);
  inflight = [];
  available_notes = (60, (60, 0)) ∷ [];
  nullified_notes = [];
}

abbrev start : State outside ℕ
start = record {
  accounts = (0, with_note) ∷ [];
  queue = 0 ∷ [];
  in_progress = [];
  inflight_txs = [];
  nullifier_idx = [];
}

-- All that a run computes with.
program : Unit {0}
unfolding load load_notes add_network_note fetch_account from_committed_account add_note
    revert_transaction revert_account revert_notes revert_nullifiers modify_account revert_delta
    revert_note contains BTreeMap.get BTreeMap.insert BTreeMap.remove BTreeSet.insert
    BTreeSet.remove
program = tt

load-start : load outside ℕ store ≡ ok start
unfolding program
load-start = refl

run_lem_example :
    (act nullify available ≡ none) × (run outside nullify 60 with_note ≡ none)
    ⊎ (t : NoteStatus) × (act nullify available ≡ some t)
      × ((s' : AccountState outside) × (run outside nullify 60 with_note ≡ some s')
          × IsDisjoint outside s'
          × ((k : ℕ) → status outside k s' ≡ (if k == 60 then t else status outside k with_note)))
unfolding BTreeMap.get
run_lem_example = run_lem outside 60 with_note (λ k. ground arith) nullify

select_candidate-Reach_example :
    (s' : State outside ℕ) × (o : Option (TransactionCandidate outside ℕ)) × (select_candidate
        outside ℕ 50 start
      ≡ some (s', o))
    × Selection 50 start s' start.queue o
select_candidate-Reach_example =
    select_candidate-Reach start 50 (loaded store load-start) (omega arith)

-- The account is updated by a transaction that consumes the note.
add_transaction-loaded_example :
    add_transaction outside ℕ store 5 (60 ∷ []) [] (some (delta_update (0, 1))) start
    ≡ add_transaction outside ℕ store 5 [] [] (some (delta_update (0, 1))) start
add_transaction-loaded_example =
    add_transaction-loaded store store start 5 (60 ∷ []) (some (delta_update (0, 1))) load-start

-- Transaction 5 created note 61, which transaction 6 consumed.
abbrev created : TransactionImpact
created = record { account_delta = none; notes = 61 ∷ []; nullifiers = [] }

abbrev consumed : TransactionImpact
consumed = record { account_delta = none; notes = []; nullifiers = 61 ∷ [] }

abbrev chained : State outside ℕ
chained = record start {
  accounts = (0, record with_note { nullified_notes = (61, (61, 0)) ∷ [] }) ∷ [];
  inflight_txs = (5, created) ∷ (6, consumed) ∷ [];
  nullifier_idx = (61, 0) ∷ [];
}

-- The note is gone.
abbrev unchained : State outside ℕ
unchained = record start { inflight_txs = (6, consumed) ∷ [] }

reverted : revert_transaction outside ℕ 5 chained ≡ some unchained
unfolding program
reverted = refl

revert_transaction-panics_example : revert_transaction outside ℕ 6 unchained ≡ none
unfolding contains BTreeMap.get
revert_transaction-panics_example =
    revert_transaction-panics 5 6 created consumed 61 chained unchained refl refl (omega arith) refl
      refl reverted

-- Transaction 7 created account 2.
abbrev creating : TransactionImpact
creating = record { account_delta = some 2; notes = []; nullifiers = [] }

abbrev fresh_account : AccountState outside
fresh_account = record {
  committed = none;
  inflight = (2, 1) ∷ [];
  available_notes = [];
  nullified_notes = [];
}

abbrev with_account : State outside ℕ
with_account = record start {
  accounts = (2, fresh_account) ∷ [];
  queue = 2 ∷ [];
  inflight_txs = (7, creating) ∷ [];
}

-- The account is gone, and its prefix is still queued.
abbrev without_account : State outside ℕ
without_account = record start { accounts = []; queue = 2 ∷ [] }

account_reverted : revert_transaction outside ℕ 7 with_account ≡ some without_account
unfolding program
account_reverted = refl

select_candidate-panics_example : select_candidate outside ℕ 50 without_account ≡ none
unfolding contains BTreeMap.get
select_candidate-panics_example =
    select_candidate-panics 7 2 50 creating fresh_account (2, 1) [] with_account without_account
      refl refl refl refl refl refl refl account_reverted
