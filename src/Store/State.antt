-- ===== src/Store/State.antt =====
-- The state of crates/store/src/state.rs, `State`, and how a block is applied to it. The writer lock is
-- held through `apply_block`, so a call of it is a function on the state.
pub mod Chain
pub mod Consistent
pub mod Grow
pub mod Await
pub mod Apply
pub mod Limit
pub mod LateSave
use miden_node.Prelude.{
  ℕ, ◌+◌, ◌==◌, ltb, drop, take, ◌++◌, if◌then◌else◌, true, false, not, Bool, Option, none, some,
  is_some, List, [], ◌∷◌, filter, is_empty, map, Result, ok, err, ◌||◌,
}
use miden_node.Collections.BTreeMap
use miden_node.Collections.BTreeMap.{BTreeMap}
use miden_node.Store.Outside.{Outside, Tree}
use miden_node.Store.Block.{
  BlockHeader, ProvenBlock, OutputNote, full, partial, header, InvalidBlockError, ApplyBlockError,
  DatabaseError, duplicated_nullifiers, invalid_output_note_type, invalid_block_tx_commitment,
  new_block_invalid_account_root, new_block_invalid_block_num, new_block_invalid_chain_commitment,
  new_block_invalid_note_root, new_block_invalid_nullifier_root, new_block_invalid_prev_commitment,
  new_block_nullifier_already_spent, new_block_duplicate_account_id_prefix, database_error,
  io_error, invalid_block_error, closed_channel, concurrent_write, db_block_header_empty,
  db_update_task_failed,
}
use miden_node.Store.Database.{Db, select_block_header, write_block}

-- What can fail outside the model, for one call: the query of the last header, the writing of the block
-- file, the writes of the database transaction, and its commit.
pub record Faults : Type 0 where
  pub select : Option DatabaseError
  pub save : Option ℕ
  pub write : Option DatabaseError
  pub commit : Option DatabaseError

module _ (O : Outside) where
  pub record InnerState : Type 0 where
    pub nullifier_tree : O.nullifiers.Repr
    pub blockchain : O.Mmr
    pub account_tree : O.accounts.Repr

  -- The block store has the bytes of a block under its number. `saves` has the tasks that still write
  -- such a file, with the number and the bytes, the newest first: a call that is refused leaves its
  -- task running.
  pub record State : Type 0 where
    pub db : Db O
    pub block_store : BTreeMap ℕ
    pub saves : List (ℕ × ℕ)
    pub inner : InnerState

  -- The part of `load` that builds the trees, with their errors.
  unfoldable pub load_inner : Db O → Result InnerState ℕ
  load_inner db = elim (O.nullifiers.with_entries db.nullifiers) [
    | err e ↦ err e
    | ok nullifier_tree ↦ elim (O.accounts.with_entries db.accounts) [
      | err e ↦ err e
      | ok account_tree ↦ ok (record {
        nullifier_tree = nullifier_tree;
        blockchain = O.mmr_of (map (λ h. h.commitment) db.block_headers);
        account_tree = account_tree;
      })
    ]
  ]

  -- `none` is the panic of an empty chain.
  unfoldable pub latest_block_num : InnerState → Option ℕ
  latest_block_num inner = O.chain_tip inner.blockchain

  -- A block beyond the latest is not shown.
  unfoldable pub load_block : ℕ → State → Option (Option ℕ)
  load_block block_num s = elim (latest_block_num s.inner) [
    | none ↦ none
    | some latest ↦
        some (if ltb latest block_num then none else BTreeMap.get block_num s.block_store)
  ]

  -- The checks of `apply_block` before the block is saved.
  unfoldable pub check_header :
      Faults → ProvenBlock O → Db O → Result (Unit {0}) (ApplyBlockError O)
  check_header faults block db =
      let h = block.header in
      if not (h.tx_commitment == block.tx_commitment)
      then err
          (invalid_block_error (invalid_block_tx_commitment block.tx_commitment h.tx_commitment))
      else elim faults.select [
        | some e ↦ err (database_error e)
        | none ↦ elim (select_block_header db.block_headers) [
          | none ↦ err db_block_header_empty
          | some prev_block ↦
              if not (h.block_num == prev_block.block_num + 1)
              then err (
                  invalid_block_error
                    (new_block_invalid_block_num (prev_block.block_num + 1) h.block_num))
              else if not (h.prev_block_commitment == prev_block.commitment)
              then err (invalid_block_error new_block_invalid_prev_commitment)
              else ok tt
        ]
      ]

  -- The scope of `apply_block` that computes the updates of the trees.
  unfoldable pub compute_updates :
      ProvenBlock O
      → InnerState
      → Result (O.nullifiers.Update × O.accounts.Update) (InvalidBlockError O)
  compute_updates block inner =
      let h = block.header in
      let duplicates =
        filter (λ n. is_some (O.nullifiers.get inner.nullifier_tree n)) block.created_nullifiers in
      let entries = map (λ n. (n, h.block_num)) block.created_nullifiers in
      if not (is_empty duplicates)
      then err (duplicated_nullifiers duplicates)
      else if not (O.hash_peaks inner.blockchain == h.chain_commitment)
      then err new_block_invalid_chain_commitment
      else elim (O.nullifiers.compute_mutations inner.nullifier_tree entries) [
        | err e ↦ err (new_block_nullifier_already_spent e)
        | ok nullifier_update ↦
            if not (O.nullifiers.update_root nullifier_update == h.nullifier_root)
            then err new_block_invalid_nullifier_root
            else elim (O.accounts.compute_mutations inner.account_tree block.updated_accounts) [
              | err e ↦ err (new_block_duplicate_account_id_prefix e)
              | ok account_update ↦
                  if not (O.accounts.update_root account_update == h.account_root)
                  then err new_block_invalid_account_root
                  else ok (nullifier_update, account_update)
            ]
      ]

  -- The note records, as far as they differ: a full note has details.
  unfoldable pub note_records :
      List (OutputNote O) → Result (List (O.Note × Bool)) (InvalidBlockError O)
  note_records [] = ok []
  note_records (full n ∷ more) = elim (note_records more) [
    | err e ↦ err e
    | ok rs ↦ ok ((n, true) ∷ rs)
  ]
  note_records (header n ∷ more) = elim (note_records more) [
    | err e ↦ err e
    | ok rs ↦ ok ((n, false) ∷ rs)
  ]
  note_records (partial n ∷ more) = err (invalid_output_note_type n)

  -- The last scope of `apply_block`, with the roots of the trees at the computation of the updates, and
  -- the database transaction that waits for its commit: `none` is a panic.
  unfoldable pub update_inner :
      Faults
      → ProvenBlock O
      → ℕ × ℕ
      → O.nullifiers.Update × O.accounts.Update
      → Db O
      → State
      → Option (State × Result (Unit {0}) (ApplyBlockError O))
  update_inner faults block (nullifier_root, account_root) (nullifier_update, account_update) db s =
      if not (O.nullifiers.root s.inner.nullifier_tree == nullifier_root)
        || not (O.accounts.root s.inner.account_tree == account_root)
      then some (s, err concurrent_write)
      else elim faults.commit [
        | some e ↦ some (s, err (db_update_task_failed e))
        | none ↦ elim (O.nullifiers.apply_mutations nullifier_update s.inner.nullifier_tree) [
          | err _ ↦ none
          | ok nullifier_tree ↦
              elim (O.accounts.apply_mutations account_update s.inner.account_tree) [
                | err _ ↦ none
                | ok account_tree ↦ some (
                  record s {
                    db = db;
                    inner = record {
                      nullifier_tree = nullifier_tree;
                      blockchain = O.push block.commitment s.inner.blockchain;
                      account_tree = account_tree;
                    };
                  },
                  ok tt,
                )
              ]
        ]
      ]

  -- The database transaction, up to its commit.
  unfoldable pub write :
      Faults → ProvenBlock O → List (O.Note × Bool) → Db O → Result (Db O) (ApplyBlockError O)
  write faults block notes db = elim faults.write [
    | some _ ↦ err closed_channel
    | none ↦ elim (write_block db block notes) [ err _ ↦ err closed_channel | ok db' ↦ ok db' ]
  ]

  abbrev pub roots : InnerState → ℕ × ℕ
  roots inner = (O.nullifiers.root inner.nullifier_tree, O.accounts.root inner.account_tree)

  -- The start of the task that writes the block file.
  unfoldable pub save_block : ProvenBlock O → State → State
  save_block block s = record s { saves = (block.header.block_num, block.bytes) ∷ s.saves }

  -- The call waits for its task, the newest one.
  unfoldable pub await_save :
      Faults → ProvenBlock O → State → State × Result (Unit {0}) (ApplyBlockError O)
  await_save faults block s =
      let done = record s { saves = drop 1 s.saves } in
      elim faults.save [
        | some e ↦ (done, err (io_error e))
        | none ↦ (
          record done {
            block_store = BTreeMap.insert block.header.block_num block.bytes s.block_store;
          },
          ok tt,
        )
      ]

  -- A task that is left running writes its file, at any later time: the one at this place of `saves`.
  unfoldable pub finish_save : ℕ → State → State
  finish_save i s = elim (drop i s.saves) [
    | [] ↦ s
    | (block_num, bytes) ∷ more ↦ record s {
      saves = take i s.saves ++ more;
      block_store = BTreeMap.insert block_num bytes s.block_store;
    }
  ]

  -- What `apply_block` does once the block is being saved.
  unfoldable pub apply_saved :
      Faults → ProvenBlock O → State → Option (State × Result (Unit {0}) (ApplyBlockError O))
  apply_saved faults block s = elim (compute_updates block s.inner) [
    | err e ↦ some (s, err (invalid_block_error e))
    | ok updates ↦
        if not (block.note_root == block.header.note_root)
        then some (s, err (invalid_block_error new_block_invalid_note_root))
        else elim (note_records block.output_notes) [
          | err e ↦ some (s, err (invalid_block_error e))
          | ok notes ↦ elim (write faults block notes s.db) [
            | err e ↦ some (s, err e)
            | ok db ↦
                let (s', saved) = await_save faults block s in
                elim saved [
                  | err e ↦ some (s', err e)
                  | ok _ ↦ update_inner faults block (roots s.inner) updates db s'
                ]
          ]
        ]
  ]

  unfoldable pub apply_block :
      Faults → ProvenBlock O → State → Option (State × Result (Unit {0}) (ApplyBlockError O))
  apply_block faults block s = elim (check_header faults block s.db) [
    | err e ↦ some (s, err e)
    | ok _ ↦ apply_saved faults block (save_block block s)
  ]
