-- ===== src/Store/State/Limit.antt =====
-- The limit on nullifiers in `insert_nullifiers_for_block` of crates/store/src/db/sql/mod.rs, as
-- `apply_block` of crates/store/src/state.rs meets it.
use miden_node.Prelude.{
  ◌<◌, ◌≢◌, List, arith, ok, some, inl, inr, Result-cases, length, Bool, Bool-cases, ◌==◌,
}
use miden_node.Store.Outside.{Outside}
use miden_node.Store.Block.{ProvenBlock}
use miden_node.Store.Database.{Db, write_block, insert_block_header, insert_nullifiers_for_block}
use miden_node.Store.State.{
  Faults, State, write, apply_saved, save_block, apply_block, compute_updates, note_records,
  check_header,
}

module _ (O : Outside) (faults : Faults) (block : ProvenBlock O) where
  write-limit :
      (notes : List (O.Note × Bool)) (db db' : Db O)
      → 1000 < length block.created_nullifiers
      → write O faults block notes db ≢ ok db'
  unfolding write write_block insert_nullifiers_for_block
  write-limit notes db db' many e =
      elim (Result-cases (insert_block_header block.header db.block_headers)) [
        | inl (hs, good) ↦ ground (arith, good, many, e)
        | inr (x, bad) ↦ ground (arith, bad, e)
      ]

  apply_saved-limit :
      (s s' : State O)
      → 1000 < length block.created_nullifiers
      → apply_saved O faults block s ≢ some (s', ok tt)
  unfolding apply_saved
  apply_saved-limit s s' many e = elim (Result-cases (compute_updates O block s.inner)) [
    | inr (x, bad) ↦ ground (arith, bad, e)
    | inl (u, good) ↦ elim (Bool-cases (block.note_root == block.header.note_root)) [
      | inr bad ↦ ground (arith, good, bad, e)
      | inl root ↦ elim (Result-cases (note_records O block.output_notes)) [
        | inr (x, bad) ↦ ground (arith, good, root, bad, e)
        | inl (notes, noted) ↦ elim (Result-cases (write O faults block notes s.db)) [
          | inr (x, bad) ↦ ground (arith, good, root, noted, bad, e)
          | inl (db', wrote) ↦ absurd (write-limit notes s.db db' many wrote)
        ]
      ]
    ]
  ]

  -- A call with a block of more than 1000 nullifiers succeeds on no state.
  pub apply_block-limit :
      (s s' : State O)
      → 1000 < length block.created_nullifiers
      → apply_block O faults block s ≢ some (s', ok tt)
  unfolding apply_block
  apply_block-limit s s' many e = elim (Result-cases (check_header O faults block s.db)) [
    | inr (x, bad) ↦ ground (arith, bad, e)
    | inl (_, good) ↦ apply_saved-limit (save_block O block s) s' many (ground (arith, good, e))
  ]
