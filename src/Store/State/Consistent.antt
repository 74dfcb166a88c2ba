-- ===== src/Store/State/Consistent.antt =====
-- The state of crates/store/src/state.rs in memory is that of the database.
use miden_node.Prelude.{
  ℕ, ◌<◌, ◌+◌, ◌≡◌, refl, ap, some, List, [], ◌∷◌, ◌++◌, last?, arith, ok, Bool, inl, inr, map,
  Result-cases, Option-cases,
}
use mathlib.Core.Path.{subst, sym}
use miden_node.Collections.Distinct.{IsDistinct}
use miden_node.Store.Outside.{Outside, IsTree}
use miden_node.Store.Block.{BlockHeader, ProvenBlock}
use miden_node.Store.Database.{
  Db, write_block, insert_nullifiers_for_block, insert_nullifiers, upsert_accounts,
  select_block_header,
}
use miden_node.Store.State.{
  latest_block_num, load_block, Faults, InnerState, State, load_inner, check_header,
  compute_updates, write,
}
use miden_node.Store.State.Chain.{IsChain, insert_block_header-chain, insert_nullifiers-ok}

-- What is relied on of the trees, and that a chain of commitments and its tip grow by `push`.
pub record IsOutside (O : Outside) : Type 0 where
  pub nullifiers : IsTree O.nullifiers (λ entries new. entries ++ new)
  pub accounts : IsTree O.accounts upsert_accounts
  pub chain : (xs : List ℕ) (x : ℕ) → O.mmr_of (xs ++ x ∷ []) ≡ O.push x (O.mmr_of xs)
  pub tip : (m : O.Mmr) (x n : ℕ) → O.chain_tip m ≡ some n → O.chain_tip (O.push x m) ≡ some (n + 1)

module _ (O : Outside) where
  -- The state in memory is what a restart would load, the headers are a chain, whose last one is the tip
  -- in memory, and no nullifier is recorded twice.
  pub record IsConsistent (s : State O) : Type 0 where
    pub loaded : load_inner O s.db ≡ ok s.inner
    pub chain : IsChain s.db.block_headers
    pub distinct : IsDistinct (map (λ r. r.0) s.db.nullifiers)
    pub tip :
        (l : BlockHeader)
        → last? s.db.block_headers ≡ some l
        → latest_block_num O s.inner ≡ some l.block_num

  -- A header that is let through is the next one.
  pub check_header-ok :
      (faults : Faults) (block : ProvenBlock O) (db : Db O)
      → check_header O faults block db ≡ ok tt
      → (prev : BlockHeader) × (last? db.block_headers ≡ some prev)
        × (block.header.block_num ≡ prev.block_num + 1)
        × (block.header.prev_block_commitment ≡ prev.commitment)
  unfolding check_header select_block_header
  check_header-ok faults block db e = elim (Option-cases (last? db.block_headers)) [
    | inl gone ↦ absurd (ground (arith, gone, e))
    | inr (prev, found) ↦ (prev, found, ground (arith, found, e), ground (arith, found, e))
  ]

  pub record Updates (block : ProvenBlock O) (inner : InnerState O) (u : O.nullifiers.Update)
      (v : O.accounts.Update) : Type 0 where
    pub nullifiers :
        O.nullifiers.compute_mutations inner.nullifier_tree
          (map (λ n. (n, block.header.block_num)) block.created_nullifiers)
        ≡ ok u
    pub accounts : O.accounts.compute_mutations inner.account_tree block.updated_accounts ≡ ok v
    pub nullifier_root : O.nullifiers.update_root u ≡ block.header.nullifier_root
    pub account_root : O.accounts.update_root v ≡ block.header.account_root
    pub chain_commitment : O.hash_peaks inner.blockchain ≡ block.header.chain_commitment

  pub compute_updates-ok :
      (block : ProvenBlock O) (inner : InnerState O) (u : O.nullifiers.Update)
      (v : O.accounts.Update)
      → compute_updates O block inner ≡ ok (u, v)
      → Updates block inner u v
  unfolding compute_updates
  compute_updates-ok block inner u v e = record {
    nullifiers = ground (arith, e);
    accounts = ground (arith, e);
    nullifier_root = ground (arith, e);
    account_root = ground (arith, e);
    chain_commitment = ground (arith, e);
  }

  -- What a block adds to the database.
  pub record Written (block : ProvenBlock O) (db db' : Db O) : Type 0 where
    pub block_headers : db'.block_headers ≡ db.block_headers ++ block.header ∷ []
    pub accounts : db'.accounts ≡ upsert_accounts db.accounts block.updated_accounts
    pub nullifiers :
        db'.nullifiers
        ≡ db.nullifiers ++ map (λ n. (n, block.header.block_num)) block.created_nullifiers

  pub write_block-ok :
      (block : ProvenBlock O) (notes : List (O.Note × Bool)) (db db' : Db O) (prev : BlockHeader)
      → IsChain db.block_headers
      → IsDistinct (map (λ r. r.0) db.nullifiers)
      → last? db.block_headers ≡ some prev
      → block.header.block_num ≡ prev.block_num + 1
      → block.header.prev_block_commitment ≡ prev.commitment
      → write_block db block notes ≡ ok db'
      → Written block db db'
        × IsChain db'.block_headers
        × IsDistinct (map (λ r. r.0) db'.nullifiers)
  unfolding write_block insert_nullifiers_for_block
  write_block-ok block notes db db' prev c d l n p e =
      let h = block.header in
      let (put, c') = insert_block_header-chain db.block_headers prev h c l n p in
      elim (Result-cases (insert_nullifiers db.nullifiers block.created_nullifiers h.block_num)) [
        | inr (x, bad) ↦ absurd (ground (arith, put, bad, e))
        | inl (rows, good) ↦
            let (same, d') =
              insert_nullifiers-ok db.nullifiers block.created_nullifiers h.block_num rows d good in
            let is_rows : db'.nullifiers ≡ rows = ground (arith, put, good, e) in
            let is_headers : db'.block_headers ≡ db.block_headers ++ h ∷ [] =
              ground (arith, put, good, e) in
            (
              record {
                block_headers = is_headers;
                accounts = ground (arith, put, good, e);
                nullifiers = cc (is_rows, same);
              },
              subst IsChain (sym is_headers) c',
              subst (λ rs. IsDistinct (map (λ r. r.0) rs)) (sym is_rows) d',
            )
      ]

  pub write-ok :
      (faults : Faults) (block : ProvenBlock O) (notes : List (O.Note × Bool)) (db db' : Db O)
      → write O faults block notes db ≡ ok db'
      → write_block db block notes ≡ ok db'
  unfolding write
  write-ok faults block notes db db' e = elim (Result-cases (write_block db block notes)) [
    | inr (x, bad) ↦ absurd (ground (arith, bad, e))
    | inl (db1, good) ↦ ground (arith, good, e)
  ]

  -- A block is applied: both trees and the chain in memory are those of its header, its file is shown
  -- to readers, the files of the blocks before stay, and no more tasks are left than before.
  pub record Applied (block : ProvenBlock O) (s s' : State O) : Type 0 where
    pub written : Written block s.db s'.db
    pub nullifier_root : O.nullifiers.root s'.inner.nullifier_tree ≡ block.header.nullifier_root
    pub account_root : O.accounts.root s'.inner.account_tree ≡ block.header.account_root
    pub chain_commitment : O.hash_peaks s.inner.blockchain ≡ block.header.chain_commitment
    pub latest : latest_block_num O s'.inner ≡ some block.header.block_num
    pub shown : load_block O block.header.block_num s' ≡ some (some block.bytes)
    pub others : (n : ℕ) → n < block.header.block_num → load_block O n s' ≡ load_block O n s
    pub saves : s'.saves ≡ s.saves

  abbrev pub Unchanged : State O → State O → Type 0
  Unchanged s s' =
      (s'.db ≡ s.db) × (s'.inner ≡ s.inner) × ((n : ℕ) → load_block O n s' ≡ load_block O n s)

  pub map-rotate :
      (hs : List BlockHeader) (h : BlockHeader)
      → map (λ k. k.commitment) (hs ++ h ∷ []) ≡ map (λ k. k.commitment) hs ++ h.commitment ∷ []
  map-rotate [] h = refl
  map-rotate (x ∷ hs) h = ap (◌∷◌ x.commitment) (map-rotate hs h)

  -- The trees of a loaded state.
  pub record Loaded (db : Db O) (inner : InnerState O) : Type 0 where
    pub nullifiers : O.nullifiers.with_entries db.nullifiers ≡ ok inner.nullifier_tree
    pub accounts : O.accounts.with_entries db.accounts ≡ ok inner.account_tree
    pub chain : inner.blockchain ≡ O.mmr_of (map (λ h. h.commitment) db.block_headers)

  pub load_inner-Loaded :
      (db : Db O) (inner : InnerState O) → load_inner O db ≡ ok inner → Loaded db inner
  unfolding load_inner
  load_inner-Loaded db inner e = record {
    nullifiers = ground (arith, e);
    accounts = ground (arith, e);
    chain = ground (arith, e);
  }

  pub Loaded-load_inner :
      (db : Db O) (inner : InnerState O) → Loaded db inner → load_inner O db ≡ ok inner
  unfolding load_inner
  Loaded-load_inner db inner l = ground (arith, l.nullifiers, l.accounts, l.chain)
