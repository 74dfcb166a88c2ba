-- ===== src/Store/Outside.antt =====
-- What crates/store takes from other crates: the trees and the chain of miden_objects. A digest, an
-- account identifier and a nullifier are numbers.
use miden_node.Prelude.{ℕ, ◌≡◌, Option, List, Result, ok}

-- `NullifierTree`, whose values are block numbers, or `AccountTree`, whose values are commitments. An
-- update is what `compute_mutations` returns.
pub record Tree : Type 1 where
  pub Repr : Type 0
  pub Update : Type 0
  pub with_entries : List (ℕ × ℕ) → Result Repr ℕ
  pub get : Repr → ℕ → Option ℕ
  pub root : Repr → ℕ
  pub compute_mutations : Repr → List (ℕ × ℕ) → Result Update ℕ
  pub update_root : Update → ℕ
  pub apply_mutations : Update → Repr → Result Repr ℕ

-- The documented behaviour, for the entries that come from old ones and an update by `extend`: computed
-- mutations apply, and lead to their root and to the tree of the entries.
pub record IsTree (T : Tree) (extend : List (ℕ × ℕ) → List (ℕ × ℕ) → List (ℕ × ℕ)) : Type 0 where
  pub applies :
      (entries new : List (ℕ × ℕ)) (t : T.Repr) (u : T.Update)
      → T.with_entries entries ≡ ok t
      → T.compute_mutations t new ≡ ok u
      → (t' : T.Repr) × (T.apply_mutations u t ≡ ok t')
        × (T.root t' ≡ T.update_root u)
        × (T.with_entries (extend entries new) ≡ ok t')

-- `Body` holds what a block has for the other tables of the database, `Tables`; a note comes with its
-- index.
pub record Outside : Type 1 where
  pub nullifiers : Tree
  pub accounts : Tree
  -- `Mmr` with the conversion of a list of commitments.
  pub Mmr : Type 0
  pub mmr_of : List ℕ → Mmr
  pub hash_peaks : Mmr → ℕ
  pub push : ℕ → Mmr → Mmr
  pub chain_tip : Mmr → Option ℕ
  pub Note : Type 0
  pub Body : Type 0
