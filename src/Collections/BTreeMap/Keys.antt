-- ===== src/Collections/BTreeMap/Keys.antt =====
-- The keys of a map under its operations, and the split of a map at a key.
use miden_node.Prelude.{
  ℕ, ◌<◌, ◌≡◌, refl, not, none, [], ◌∷◌, arith, ltb, if◌then◌else◌, filter, Bool-cases, inl, inr,
}
use miden_node.Collections.BTreeSet
use miden_node.Collections.BTreeSet.{contains, IsAscending}
use miden_node.Collections.BTreeMap
use miden_node.Collections.BTreeMap.{BTreeMap, contains_key}

module _ {ℓ} {V : Type ℓ} where
  pub keys-insert :
      (k : ℕ) (v : V) (m : BTreeMap V)
      → BTreeMap.keys (BTreeMap.insert k v m) ≡ BTreeSet.insert k (BTreeMap.keys m)
  unfolding BTreeMap.insert BTreeSet.insert
  keys-insert k v [] = refl
  keys-insert k v ((i, w) ∷ m) = ground (arith, keys-insert k v m)

  pub keys-remove :
      (k : ℕ) (m : BTreeMap V)
      → BTreeMap.keys (BTreeMap.remove k m) ≡ BTreeSet.remove k (BTreeMap.keys m)
  unfolding BTreeMap.remove BTreeSet.remove
  keys-remove k [] = refl
  keys-remove k ((i, w) ∷ m) = ground (arith, keys-remove k m)

  -- A key below all the keys is not there.
  pub get_below :
      (k i : ℕ) (w : V) (m : BTreeMap V)
      → IsAscending (BTreeMap.keys ((i, w) ∷ m))
      → k < i
      → BTreeMap.get k ((i, w) ∷ m) ≡ none
  unfolding BTreeMap.get
  get_below k i w m asc h = ground (arith, asc.0 k, BTreeMap.contains-keys k m)

  -- `split_off(limit)`: what is left behind, and what is returned.
  abbrev pub below : ℕ → BTreeMap V → BTreeMap V
  below limit = filter (λ e. ltb e.0 limit)

  abbrev pub split_off : ℕ → BTreeMap V → BTreeMap V
  split_off limit = filter (λ e. not (ltb e.0 limit))

  pub get-split_off :
      (k limit : ℕ) (m : BTreeMap V)
      → BTreeMap.get k (split_off limit m) ≡ (if ltb k limit then none else BTreeMap.get k m)
  unfolding BTreeMap.get
  get-split_off k limit [] = ground arith
  get-split_off k limit ((i, w) ∷ m) = ground (arith, get-split_off k limit m)

  pub split_off-IsAscending :
      (limit : ℕ) (m : BTreeMap V)
      → IsAscending (BTreeMap.keys m)
      → IsAscending (BTreeMap.keys (split_off limit m))
  split_off-IsAscending limit [] asc = tt
  split_off-IsAscending limit ((i, w) ∷ m) asc = elim (Bool-cases (ltb i limit)) [
    | inl e ↦ rw e (split_off-IsAscending limit m asc.1)
    | inr e ↦ rw e (
      λ y h. ground (
        arith,
        asc.0 y,
        BTreeMap.contains-keys y m,
        BTreeMap.contains-keys y (split_off limit m),
        get-split_off y limit m,
      ),
      split_off-IsAscending limit m asc.1,
    )
  ]
