-- ===== src/Store/State/Await.antt =====
-- The task that writes the block file in `apply_block` of crates/store/src/state.rs.
use miden_node.Prelude.{
  ℕ, ◌+◌, ◌<◌, ◌≡◌, ◌⊎◌, refl, some, arith, ok, err, Result, drop, inl, inr, Option-cases,
}
use miden_node.Collections.BTreeMap
use miden_node.Store.Outside.{Outside}
use miden_node.Store.Block.{ProvenBlock, ApplyBlockError, io_error}
use miden_node.Store.State.{Faults, State, latest_block_num, load_block, save_block, await_save}

module _ (O : Outside) where
  -- The state with the task that writes the block file, or behind it.
  pub record Saved (block : ProvenBlock O) (s t : State O) : Type 0 where
    pub db : t.db ≡ s.db
    pub inner : t.inner ≡ s.inner
    pub reads : (n : ℕ) → load_block O n t ≡ load_block O n s
    pub before :
        (n : ℕ)
        → n < block.header.block_num
        → BTreeMap.get n t.block_store ≡ BTreeMap.get n s.block_store
    pub saves : drop 1 t.saves ≡ s.saves

  pub save_block-Saved :
      (block : ProvenBlock O) (s : State O) → Saved block s (save_block O block s)
  unfolding save_block load_block
  save_block-Saved block s = record {
    db = refl;
    inner = refl;
    reads = λ n. refl;
    before = λ n low. refl;
    saves = refl;
  }

  -- The block file is there, and its task is done.
  pub record Awaited (block : ProvenBlock O) (s t : State O) : Type 0 where
    pub db : t.db ≡ s.db
    pub inner : t.inner ≡ s.inner
    pub reads : (n : ℕ) → load_block O n t ≡ load_block O n s
    pub before :
        (n : ℕ)
        → n < block.header.block_num
        → BTreeMap.get n t.block_store ≡ BTreeMap.get n s.block_store
    pub saved : BTreeMap.get block.header.block_num t.block_store ≡ some block.bytes
    pub saves : t.saves ≡ s.saves

  -- The block file is written where no reader looks.
  pub await_save-Awaited :
      (faults : Faults) (block : ProvenBlock O) (s t : State O) (latest : ℕ)
      → latest_block_num O s.inner ≡ some latest
      → block.header.block_num ≡ latest + 1
      → Saved block s t
      → (t' : State O) × (r : Result (Unit {0}) (ApplyBlockError O)) × (await_save O faults block t
          ≡ (t', r))
        × ((r ≡ ok tt) × Awaited block s t'
            ⊎ (t'.db ≡ s.db)
              × (t'.inner ≡ s.inner)
              × ((n : ℕ) → load_block O n t' ≡ load_block O n s)
              × (e : ApplyBlockError O) × (r ≡ err e))
  unfolding await_save load_block
  await_save-Awaited faults block s t latest tip next x =
      let num = block.header.block_num in
      let got = λ (n : ℕ). BTreeMap.get-insert n num block.bytes t.block_store in
      elim (Option-cases faults.save) [
        | inr (e, bad) ↦ (
          record t { saves = drop 1 t.saves },
          err (io_error e),
          ground (arith, bad),
          inr (x.db, x.inner, λ n. x.reads n, io_error e, refl),
        )
        | inl fine ↦ (
          record t {
            saves = drop 1 t.saves;
            block_store = BTreeMap.insert num block.bytes t.block_store;
          },
          ok tt,
          ground (arith, fine),
          inl (
            refl,
            record {
              db = x.db;
              inner = x.inner;
              reads = λ n. ground (arith, x.inner, x.reads n, tip, next, got n);
              before = λ n low. ground (arith, low, got n, x.before n low);
              saved = ground (arith, got num);
              saves = x.saves;
            },
          ),
        )
      ]
