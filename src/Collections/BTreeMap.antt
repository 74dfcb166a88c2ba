-- ===== src/Collections/BTreeMap.antt =====
-- `std::collections::BTreeMap` as the code uses it: a map from identifiers, iterated in ascending
-- order of the keys.
pub mod Keys
use miden_node.Prelude.{
  ℕ, suc, ◌<◌, ◌≡◌, refl, ap, Bool, true, false, Option, none, some, List, [], ◌∷◌, arith, ltb,
  ◌==◌, if◌then◌else◌, length, is_some, map,
}
use miden_node.Collections.BTreeSet.{contains}

abbrev pub BTreeMap {ℓ} : Type ℓ → Type ℓ
BTreeMap V = List (ℕ × V)

module _ {ℓ} {V : Type ℓ} where
  unfoldable pub get : ℕ → BTreeMap V → Option V
  get k [] = none
  get k ((i, v) ∷ m) = if k == i then some v else get k m

  unfoldable pub insert : ℕ → V → BTreeMap V → BTreeMap V
  insert k v [] = (k, v) ∷ []
  insert k v ((i, w) ∷ m) =
      if ltb k i then (k, v) ∷ (i, w) ∷ m else if k == i then (k, v) ∷ m else (i, w) ∷ insert k v m

  unfoldable pub remove : ℕ → BTreeMap V → BTreeMap V
  remove k [] = []
  remove k ((i, v) ∷ m) = if k == i then remove k m else (i, v) ∷ remove k m

  abbrev pub contains_key : ℕ → BTreeMap V → Bool
  contains_key k m = is_some (get k m)

  abbrev pub keys : BTreeMap V → List ℕ
  keys m = map (λ e. e.0) m

  abbrev pub values : BTreeMap V → List V
  values m = map (λ e. e.1) m

  pub get-insert :
      (j k : ℕ) (v : V) (m : BTreeMap V)
      → get j (insert k v m) ≡ (if j == k then some v else get j m)
  unfolding get insert
  get-insert j k v [] = refl
  get-insert j k v ((i, w) ∷ m) = ground (arith, get-insert j k v m)

  pub get-insert_self : (k : ℕ) (v : V) (m : BTreeMap V) → get k (insert k v m) ≡ some v
  get-insert_self k v m = ground (arith, get-insert k k v m)

  pub get-remove :
      (j k : ℕ) (m : BTreeMap V) → get j (remove k m) ≡ (if j == k then none else get j m)
  unfolding get remove
  get-remove j k [] = ground arith
  get-remove j k ((i, w) ∷ m) = ground (arith, get-remove j k m)

  pub length-remove-le : (k : ℕ) (m : BTreeMap V) → length (remove k m) < suc (length m)
  unfolding remove
  length-remove-le k [] = omega arith
  length-remove-le k ((i, w) ∷ m) = ground (arith, length-remove-le k m)

  -- The removal of a key that is present shrinks the map.
  pub length-remove :
      (k : ℕ) (m : BTreeMap V) → contains_key k m ≡ true → length (remove k m) < length m
  unfolding get remove
  length-remove k [] h = ground arith
  length-remove k ((i, w) ∷ m) h = ground (arith, length-remove k m, length-remove-le k m)

  pub contains-keys : (k : ℕ) (m : BTreeMap V) → contains k (keys m) ≡ contains_key k m
  unfolding get contains
  contains-keys k [] = refl
  contains-keys k ((i, w) ∷ m) = ground (arith, contains-keys k m)

  pub length-keys : (m : BTreeMap V) → length (keys m) ≡ length m
  length-keys [] = refl
  length-keys ((i, w) ∷ m) = ap suc (length-keys m)

  pub remove_absent : (k : ℕ) (m : BTreeMap V) → contains_key k m ≡ false → remove k m ≡ m
  unfolding get remove
  remove_absent k [] h = refl
  remove_absent k ((i, w) ∷ m) h = ground (arith, remove_absent k m)
