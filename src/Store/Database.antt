-- ===== src/Store/Database.antt =====
-- The database of crates/store/src/db/sql/mod.rs, as far as the state in memory comes from it: the
-- tables of block headers, accounts and nullifiers, in the order of their block numbers.
use miden_node.Prelude.{
  ℕ, ◌==◌, ltb, if◌then◌else◌, not, Bool, Option, List, [], ◌∷◌, ◌++◌, length, filter, any, last?,
  Result, ok, err,
}
use miden_node.Store.Outside.{Outside}
use miden_node.Store.Block.{BlockHeader, ProvenBlock, DatabaseError, constraint, query_param_limit}

-- A row of accounts has the identifier and the commitment, one of nullifiers the nullifier and its
-- block. `others` counts the writes to the other tables, with what they wrote.
pub record Db (O : Outside) : Type 0 where
  pub block_headers : List BlockHeader
  pub accounts : List (ℕ × ℕ)
  pub nullifiers : List (ℕ × ℕ)
  pub others : List (O.Body × List (O.Note × Bool))

-- `QueryParamNullifierLimit::LIMIT`
abbrev pub nullifier_limit : ℕ
nullifier_limit = 1000

-- The row is put at its place; its number is the key.
unfoldable pub insert_block_header :
    BlockHeader → List BlockHeader → Result (List BlockHeader) DatabaseError
insert_block_header h [] = ok (h ∷ [])
insert_block_header h (x ∷ xs) =
    let rest = insert_block_header h xs in
    if h.block_num == x.block_num
    then err (constraint h.block_num)
    else if ltb h.block_num x.block_num
    then ok (h ∷ x ∷ xs)
    else elim rest [ err e ↦ err e | ok ys ↦ ok (x ∷ ys) ]

-- Without a number, the last header.
unfoldable pub select_block_header : List BlockHeader → Option BlockHeader
select_block_header hs = last? hs

-- `INSERT OR REPLACE`: a row with the identifier is replaced, and the new one has the last block number.
unfoldable pub upsert_accounts : List (ℕ × ℕ) → List (ℕ × ℕ) → List (ℕ × ℕ)
upsert_accounts rows [] = rows
upsert_accounts rows ((id, c) ∷ more) =
    upsert_accounts (filter (λ r. not (r.0 == id)) rows ++ (id, c) ∷ []) more

-- The loop of `insert_nullifiers_for_block`; the nullifier is the key.
unfoldable pub insert_nullifiers : List (ℕ × ℕ) → List ℕ → ℕ → Result (List (ℕ × ℕ)) DatabaseError
insert_nullifiers rows [] block_num = ok rows
insert_nullifiers rows (n ∷ more) block_num =
    let rest = insert_nullifiers (rows ++ (n, block_num) ∷ []) more block_num in
    if any (λ r. r.0 == n) rows then err (constraint n) else rest

unfoldable pub insert_nullifiers_for_block :
    List (ℕ × ℕ) → List ℕ → ℕ → Result (List (ℕ × ℕ)) DatabaseError
insert_nullifiers_for_block rows nullifiers block_num =
    let rest = insert_nullifiers rows nullifiers block_num in
    if ltb nullifier_limit (length nullifiers)
    then err (query_param_limit (length nullifiers) nullifier_limit)
    else rest

-- The function `apply_block` of the database.
unfoldable pub write_block :
    {O : Outside} → Db O → ProvenBlock O → List (O.Note × Bool) → Result (Db O) DatabaseError
write_block db block notes = elim (insert_block_header block.header db.block_headers) [
  | err e ↦ err e
  | ok headers ↦
      elim (insert_nullifiers_for_block db.nullifiers block.created_nullifiers
        block.header.block_num) [
          | err e ↦ err e
          | ok nullifiers ↦ ok (record {
            block_headers = headers;
            accounts = upsert_accounts db.accounts block.updated_accounts;
            nullifiers = nullifiers;
            others = db.others ++ (block.body, notes) ∷ [];
          })
        ]
]
