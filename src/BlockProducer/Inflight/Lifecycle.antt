-- ===== src/BlockProducer/Inflight/Lifecycle.antt =====
-- The methods of `InflightState` that revert, commit and prune transactions.
use miden_node.Prelude.{
  ℕ, ◌+◌, Option, none, some, List, [], ◌∷◌, ◌++◌, if◌then◌else◌, length, leb, ◌>>=◌,
}
use miden_node.Collections.BTreeSet
use miden_node.Collections.BTreeSet.{BTreeSet, contains}
use miden_node.Collections.BTreeMap
use miden_node.Collections.BTreeMap.{BTreeMap}
use miden_node.BlockProducer.Account
use miden_node.BlockProducer.Account.{InflightAccountState, AccountStatus, status_is_empty}
use miden_node.BlockProducer.Inflight.{InflightState, Delta, OutputNoteState, committed}

-- The account's new state is stored, or the account is pruned if it is empty.
unfoldable pub store_account :
    ℕ
    → InflightAccountState × AccountStatus
    → BTreeMap InflightAccountState
    → BTreeMap InflightAccountState
store_account account (a, status) m =
    if status_is_empty status then BTreeMap.remove account m else BTreeMap.insert account a m

-- `assert!(self.nullifiers.remove(&nullifier))`, for each nullifier.
unfoldable pub take_nullifiers : List ℕ → BTreeSet → Option BTreeSet
take_nullifiers [] s = some s
take_nullifiers (n ∷ ns) s =
    let rest = take_nullifiers ns (BTreeSet.remove n s) in if contains n s then rest else none

-- `assert!(self.output_notes.remove(&note).is_some())`, for each note.
unfoldable pub take_notes : List ℕ → BTreeMap OutputNoteState → Option (BTreeMap OutputNoteState)
take_notes [] m = some m
take_notes (n ∷ ns) m = elim (BTreeMap.get n m) [
  | none ↦ none
  | some _ ↦ take_notes ns (BTreeMap.remove n m)
]

-- The body of the loop of `revert_transactions`.
unfoldable pub revert_one : InflightState → ℕ → Option InflightState
revert_one s tx = do
  delta ← BTreeMap.get tx s.transaction_deltas
  account ← BTreeMap.get delta.account s.accounts
  reverted ← Account.revert account 1
  nullifiers ← take_nullifiers delta.nullifiers s.nullifiers
  notes ← take_notes delta.output_notes s.output_notes
  some (record s {
    transaction_deltas = BTreeMap.remove tx s.transaction_deltas;
    accounts = store_account delta.account reverted s.accounts;
    nullifiers = nullifiers;
    output_notes = notes;
  })

unfoldable pub revert_transactions : InflightState → BTreeSet → Option InflightState
revert_transactions s [] = some s
revert_transactions s (tx ∷ txs) = elim (revert_one s tx) [
  | none ↦ none
  | some s' ↦ revert_transactions s' txs
]

-- `get_mut(note).expect(..).commit()`, for each note.
unfoldable pub commit_notes : List ℕ → BTreeMap OutputNoteState → Option (BTreeMap OutputNoteState)
commit_notes [] m = some m
commit_notes (n ∷ ns) m = elim (BTreeMap.get n m) [
  | none ↦ none
  | some _ ↦ commit_notes ns (BTreeMap.insert n committed m)
]

-- The body of the loop of `commit_block`, with the deltas of the block so far.
unfoldable pub commit_one :
    InflightState → BTreeMap Delta → ℕ → Option (InflightState × BTreeMap Delta)
commit_one s block_deltas tx = do
  delta ← BTreeMap.get tx s.transaction_deltas
  account ← BTreeMap.get delta.account s.accounts
  account' ← Account.commit account 1
  notes ← commit_notes delta.output_notes s.output_notes
  some (
    record s {
      transaction_deltas = BTreeMap.remove tx s.transaction_deltas;
      accounts = BTreeMap.insert delta.account account' s.accounts;
      output_notes = notes;
    },
    BTreeMap.insert tx delta block_deltas,
  )

unfoldable pub commit_all :
    InflightState → BTreeMap Delta → List ℕ → Option (InflightState × BTreeMap Delta)
commit_all s block_deltas [] = some (s, block_deltas)
commit_all s block_deltas (tx ∷ txs) = elim (commit_one s block_deltas tx) [
  | none ↦ none
  | some (s', deltas) ↦ commit_all s' deltas txs
]

unfoldable pub remove_notes : List ℕ → BTreeMap OutputNoteState → BTreeMap OutputNoteState
remove_notes [] m = m
remove_notes (n ∷ ns) m = remove_notes ns (BTreeMap.remove n m)

unfoldable pub remove_nullifiers : List ℕ → BTreeSet → BTreeSet
remove_nullifiers [] s = s
remove_nullifiers (n ∷ ns) s = remove_nullifiers ns (BTreeSet.remove n s)

-- The body of the loop of `prune_block`.
unfoldable pub prune_delta : InflightState → Delta → Option InflightState
prune_delta s delta = do
  account ← BTreeMap.get delta.account s.accounts
  pruned ← Account.prune_committed account 1
  some (record s {
    accounts = store_account delta.account pruned s.accounts;
    nullifiers = remove_nullifiers delta.nullifiers s.nullifiers;
    output_notes = remove_notes delta.output_notes s.output_notes;
  })

unfoldable pub prune_deltas : InflightState → BTreeMap Delta → Option InflightState
prune_deltas s [] = some s
prune_deltas s ((_, delta) ∷ block) = elim (prune_delta s delta) [
  | none ↦ none
  | some s' ↦ prune_deltas s' block
]

-- The oldest block is pruned if there are more than the state retains.
unfoldable pub prune_oldest : InflightState → List (BTreeMap Delta) → Option InflightState
prune_oldest s [] = none
prune_oldest s (block ∷ blocks) = prune_deltas (record s { committed_blocks = blocks }) block

unfoldable pub prune_block : InflightState → Option InflightState
prune_block s =
    if leb (length s.committed_blocks) s.num_retained_blocks
    then some s
    else prune_oldest s s.committed_blocks

unfoldable pub commit_block : InflightState → List ℕ → Option InflightState
commit_block s txs = do
  (s', block_deltas) ← commit_all s [] txs
  s'' ← prune_block (record s' { committed_blocks = s'.committed_blocks ++ block_deltas ∷ [] })
  some (record s'' { chain_tip = s''.chain_tip + 1 })
