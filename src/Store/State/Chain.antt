-- ===== src/Store/State/Chain.antt =====
-- The chain of the block headers in the database of crates/store.
use miden_node.Prelude.{
  ℕ, ap, ◌+◌, ◌≤◌, ◌≡◌, refl, false, some, List, [], ◌∷◌, ◌++◌, last?, arith, ok, ◌==◌, Bool-cases,
  inl, inr, map, any,
}
use mathlib.Core.Path.{subst, sym}
use mathlib.Core.List.{append_assoc, append-nil}
use miden_node.Collections.BTreeSet.{contains}
use miden_node.Collections.Distinct.{IsDistinct, IsDistinct-rotate}
use miden_node.Store.Block.{BlockHeader}
use miden_node.Store.Database.{insert_block_header, insert_nullifiers}

-- Each header follows the one before it.
abbrev pub IsChain : List BlockHeader → Type 0
IsChain [] = Unit
IsChain (x ∷ []) = Unit
IsChain (x ∷ y ∷ hs) =
    (y.block_num ≡ x.block_num + 1) × (y.prev_block_commitment ≡ x.commitment) × IsChain (y ∷ hs)

last-le :
    (x : BlockHeader) (hs : List BlockHeader) (l : BlockHeader)
    → IsChain (x ∷ hs)
    → last? (x ∷ hs) ≡ some l
    → x.block_num ≤ l.block_num
last-le x [] l c e = let same : x ≡ l = ground (arith, e) in ground (arith, same)
last-le x (y ∷ hs) l (n, _, c) e = let h = last-le y hs l c e in ground (arith, n, h)

-- A header that follows the last one is put at the end, and the chain goes on.
pub insert_block_header-chain :
    (hs : List BlockHeader) (l h : BlockHeader)
    → IsChain hs
    → last? hs ≡ some l
    → h.block_num ≡ l.block_num + 1
    → h.prev_block_commitment ≡ l.commitment
    → (insert_block_header h hs ≡ ok (hs ++ h ∷ [])) × IsChain (hs ++ h ∷ [])
unfolding insert_block_header
insert_block_header-chain [] l h c e n p = absurd (ground (arith, e))
insert_block_header-chain (x ∷ []) l h c e n p =
    let same : x ≡ l = ground (arith, e) in
    (ground (arith, same, n), (ground (arith, same, n), ground (arith, same, p), tt))
insert_block_header-chain (x ∷ y ∷ hs) l h (m, q, c) e n p =
    let (put, c') = insert_block_header-chain (y ∷ hs) l h c e n p in
    let below = last-le x (y ∷ hs) l (m, q, c) e in (ground (arith, put, below, n), (m, q, c'))

any-contains :
    (n : ℕ) (rows : List (ℕ × ℕ)) → any (λ r. r.0 == n) rows ≡ contains n (map (λ r. r.0) rows)
unfolding contains
any-contains n [] = refl
any-contains n ((k, b) ∷ rows) = ground (arith, any-contains n rows)

map-rotate :
    (rows : List (ℕ × ℕ)) (n b : ℕ)
    → map (λ r. r.0) (rows ++ (n, b) ∷ []) ≡ map (λ r. r.0) rows ++ n ∷ []
map-rotate [] n b = refl
map-rotate ((k, c) ∷ rows) n b = ap (◌∷◌ k) (map-rotate rows n b)

-- Inserted nullifiers come behind the rows, and no nullifier has two rows.
pub insert_nullifiers-ok :
    (rows : List (ℕ × ℕ)) (ns : List ℕ) (b : ℕ) (rows' : List (ℕ × ℕ))
    → IsDistinct (map (λ r. r.0) rows)
    → insert_nullifiers rows ns b ≡ ok rows'
    → (rows' ≡ rows ++ map (λ n. (n, b)) ns) × IsDistinct (map (λ r. r.0) rows')
unfolding insert_nullifiers
insert_nullifiers-ok rows [] b rows' d e =
    let same : rows' ≡ rows = ground (arith, e) in
    (cc (same, append-nil rows), subst (λ rs. IsDistinct (map (λ r. r.0) rs)) (sym same) d)
insert_nullifiers-ok rows (n ∷ more) b rows' d e = elim (Bool-cases (any (λ r. r.0 == n) rows)) [
  | inl known ↦ absurd (ground (arith, known, e))
  | inr new ↦
      let fresh : contains n (map (λ r. r.0) rows) ≡ false =
        ground (arith, new, any-contains n rows) in
      let d' = IsDistinct-rotate n (map (λ r. r.0) rows) fresh d in
      let (rest, d'') =
        insert_nullifiers-ok (rows ++ (n, b) ∷ []) more b rows'
          (subst IsDistinct (sym (map-rotate rows n b)) d') (ground (arith, new, e)) in
      (cc (rest, append_assoc rows ((n, b) ∷ []) (map (λ k. (k, b)) more)), d'')
]
