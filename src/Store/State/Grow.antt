-- ===== src/Store/State/Grow.antt =====
-- The last scope of `apply_block` of crates/store/src/state.rs, where the state in memory is replaced.
use miden_node.Prelude.{◌≡◌, ◌⊎◌, refl, some, arith, ok, Result, err, inl, inr, map, Option-cases}
use miden_node.Store.Outside.{Outside}
use miden_node.Store.Block.{ProvenBlock, ApplyBlockError, db_update_task_failed}
use miden_node.Store.Database.{Db}
use miden_node.Store.State.{Faults, InnerState, State, update_inner, roots}
use miden_node.Store.State.Consistent.{IsOutside, Updates, Written, map-rotate, Loaded}

module _ (O : Outside) (outside : IsOutside O) where
  -- The new state in memory, which is that of the new database.
  pub record Grown (block : ProvenBlock O) (db' : Db O) (s s' : State O) : Type 0 where
    pub db : s'.db ≡ db'
    pub block_store : s'.block_store ≡ s.block_store
    pub saves : s'.saves ≡ s.saves
    pub blockchain : s'.inner.blockchain ≡ O.push block.commitment s.inner.blockchain
    pub loaded : Loaded O db' s'.inner
    pub nullifier_root : O.nullifiers.root s'.inner.nullifier_tree ≡ block.header.nullifier_root
    pub account_root : O.accounts.root s'.inner.account_tree ≡ block.header.account_root

  pub update_inner-Grown :
      (faults : Faults) (block : ProvenBlock O) (s : State O) (db' : Db O) (u : O.nullifiers.Update)
      (v : O.accounts.Update)
      → block.commitment ≡ block.header.commitment
      → Loaded O s.db s.inner
      → Updates O block s.inner u v
      → Written O block s.db db'
      → (s' : State O) × (r : Result (Unit {0}) (ApplyBlockError O)) × (update_inner O faults block
            (roots O s.inner)
            (u, v)
            db'
            s
          ≡ some (s', r))
        × ((r ≡ ok tt) × Grown block db' s s' ⊎ (s' ≡ s) × (e : ApplyBlockError O) × (r ≡ err e))
  unfolding update_inner
  update_inner-Grown faults block s db' u v same l up w =
      let entries = map (λ n. (n, block.header.block_num)) block.created_nullifiers in
      let (nt, n_run, n_root, n_made) =
        outside.nullifiers.applies s.db.nullifiers entries s.inner.nullifier_tree u l.nullifiers
          up.nullifiers in
      let (at, a_run, a_root, a_made) =
        outside.accounts.applies s.db.accounts block.updated_accounts s.inner.account_tree v
          l.accounts up.accounts in
      elim (Option-cases faults.commit) [
        | inr (e, bad) ↦ (
          s,
          err (db_update_task_failed e),
          ground (arith, bad),
          inr (refl, db_update_task_failed e, refl),
        )
        | inl fine ↦
            let inner : InnerState O = record {
              nullifier_tree = nt;
              blockchain = O.push block.commitment s.inner.blockchain;
              account_tree = at;
            } in
            (
              record s { db = db'; inner = inner },
              ok tt,
              ground (arith, fine, n_run, a_run),
              inl (
                refl,
                record {
                  db = refl;
                  block_store = refl;
                  saves = refl;
                  blockchain = refl;
                  loaded = record {
                    nullifiers = cc (w.nullifiers, n_made);
                    accounts = cc (w.accounts, a_made);
                    chain = cc (
                      w.block_headers,
                      map-rotate O s.db.block_headers block.header,
                      outside.chain (map (λ h. h.commitment) s.db.block_headers)
                          block.header.commitment,
                      l.chain,
                      same,
                    );
                  };
                  nullifier_root = cc (n_root, up.nullifier_root);
                  account_root = cc (a_root, up.account_root);
                },
              ),
            )
      ]
