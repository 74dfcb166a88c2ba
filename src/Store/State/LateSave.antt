-- ===== src/Store/State/LateSave.antt =====
-- A block file that is written late: `apply_block` of crates/store/src/state.rs does not wait for the
-- task that writes the file of a refused block.
use miden_node.Prelude.{ℕ, ◌≡◌, some, List, ◌∷◌, arith, ok, err, inl, inr, Result-cases}
use mathlib.Core.Path.{subst}
use miden_node.Collections.BTreeMap
use miden_node.Store.Outside.{Outside}
use miden_node.Store.Block.{ProvenBlock, InvalidBlockError, invalid_block_error}
use miden_node.Store.State.{
  Faults, State, check_header, compute_updates, apply_saved, save_block, apply_block, load_block,
  latest_block_num, finish_save,
}
use miden_node.Store.State.Consistent.{IsOutside, IsConsistent, check_header-ok, Applied}
use miden_node.Store.State.Apply.{apply_block-IsConsistent}

module _ (O : Outside) where
  -- A block that fails behind the checks of its header is refused, and its task is left.
  refused_leaves :
      (faults : Faults) (block : ProvenBlock O) (s : State O) (e : InvalidBlockError O)
      → check_header O faults block s.db ≡ ok tt
      → compute_updates O block s.inner ≡ err e
      → apply_block O faults block s ≡ some (save_block O block s, err (invalid_block_error e))
  unfolding apply_block apply_saved save_block
  refused_leaves faults block s e good bad = ground (arith, good, bad)

  -- A late write of the newest block is what readers see.
  finish_save-shown :
      (s : State O) (n bytes : ℕ) (more : List (ℕ × ℕ))
      → s.saves ≡ (n, bytes) ∷ more
      → latest_block_num O s.inner ≡ some n
      → load_block O n (finish_save O 0 s) ≡ some (some bytes)
  unfolding finish_save load_block
  finish_save-shown s n bytes more left tip =
      let done : finish_save O 0 s
          ≡ record s { saves = more; block_store = BTreeMap.insert n bytes s.block_store } =
        ground (arith, left) in
      ground (arith, done, tip, BTreeMap.get-insert_self n bytes s.block_store)

  save_block-IsConsistent :
      (block : ProvenBlock O) (s : State O)
      → IsConsistent O s
      → IsConsistent O (save_block O block s)
  unfolding save_block
  save_block-IsConsistent block s c = record {
    loaded = c.loaded;
    chain = c.chain;
    distinct = c.distinct;
    tip = c.tip;
  }

  apply_block-check_header :
      (faults : Faults) (block : ProvenBlock O) (s s' : State O)
      → apply_block O faults block s ≡ some (s', ok tt)
      → check_header O faults block s.db ≡ ok tt
  unfolding apply_block
  apply_block-check_header faults block s s' run =
      elim (Result-cases (check_header O faults block s.db)) [
        | inl (_, good) ↦ good
        | inr (e, bad) ↦ absurd (ground (arith, bad, run))
      ]

  succeeded :
      (outside : IsOutside O) (faults : Faults) (block : ProvenBlock O) (s s' : State O)
      → block.commitment ≡ block.header.commitment
      → IsConsistent O s
      → apply_block O faults block s ≡ some (s', ok tt)
      → Applied O block s s'
  succeeded outside faults block s s' same c run =
      let (t, r, run', _, out) = apply_block-IsConsistent O outside faults block s same c in
      let is_t : t ≡ s' = ground (arith, run, run') in
      elim out [
        | inl (_, a) ↦ subst (Applied O block s) is_t a
        | inr (_, e, lost) ↦ absurd (ground (arith, run, run', lost))
      ]

  -- On a consistent state, where a block with a valid header fails a check of the trees or of its
  -- nullifiers, and is refused, and then another block is applied: both have the same number, under
  -- which `load_block` reads the applied block; and when the task that the refused call left running
  -- writes its file, it reads the refused block.
  pub late_save :
      (outside : IsOutside O) (faults faults' : Faults) (refused applied : ProvenBlock O)
      (s s' s'' : State O) (e : InvalidBlockError O)
      → IsConsistent O s
      → check_header O faults refused s.db ≡ ok tt
      → compute_updates O refused s.inner ≡ err e
      → apply_block O faults refused s ≡ some (s', err (invalid_block_error e))
      → applied.commitment ≡ applied.header.commitment
      → apply_block O faults' applied s' ≡ some (s'', ok tt)
      → (refused.header.block_num ≡ applied.header.block_num)
        × (load_block O applied.header.block_num s'' ≡ some (some applied.bytes))
        × (load_block O applied.header.block_num (finish_save O 0 s'') ≡ some (some refused.bytes))
  unfolding save_block
  late_save outside faults faults' refused applied s s' s'' e c good bad run same run' =
      let is_t : s' ≡ save_block O refused s =
        ground (arith, run, refused_leaves faults refused s e good bad) in
      let run2 : apply_block O faults' applied (save_block O refused s) ≡ some (s'', ok tt) =
        cc (is_t, run') in
      let a =
        succeeded outside faults' applied (save_block O refused s) s'' same
          (save_block-IsConsistent refused s c) run2 in
      let (prev, last, next, _) = check_header-ok O faults refused s.db good in
      let (prev', last', next', _) =
        check_header-ok O faults' applied s.db
          (apply_block-check_header faults' applied (save_block O refused s) s'' run2) in
      let numbers : refused.header.block_num ≡ applied.header.block_num =
        ground (arith, last, last', next, next') in
      (
        numbers,
        a.shown,
        finish_save-shown s'' applied.header.block_num refused.bytes s.saves (cc (a.saves, numbers))
            a.latest,
      )
