-- ===== src/Collections/Distinct.antt =====
-- Lists of identifiers without repetition.
use miden_node.Prelude.{ℕ, ◌≡◌, refl, false, ◌||◌, List, [], ◌∷◌, ◌++◌, arith, ◌==◌}
use miden_node.Collections.BTreeSet.{contains}

abbrev pub IsDistinct : List ℕ → Type 0
IsDistinct [] = Unit
IsDistinct (x ∷ xs) = (contains x xs ≡ false) × IsDistinct xs

pub contains-append :
    (k : ℕ) (xs ys : List ℕ) → contains k (xs ++ ys) ≡ (contains k xs || contains k ys)
unfolding contains
contains-append k [] ys = refl
contains-append k (x ∷ xs) ys = ground (arith, contains-append k xs ys)

pub contains-rotate :
    (k x : ℕ) (xs : List ℕ) → contains k (xs ++ x ∷ []) ≡ (k == x || contains k xs)
unfolding contains
contains-rotate k x xs = ground (arith, contains-append k xs (x ∷ []))

pub IsDistinct-rotate :
    (x : ℕ) (xs : List ℕ) → contains x xs ≡ false → IsDistinct xs → IsDistinct (xs ++ x ∷ [])
unfolding contains
IsDistinct-rotate x [] out d = (refl, tt)
IsDistinct-rotate x (y ∷ xs) out (fresh, d) =
    (ground (arith, contains-rotate y x xs), IsDistinct-rotate x xs (ground arith) d)

-- A member taken out of the middle.
pub IsDistinct-middle :
    (x : ℕ) (xs ys : List ℕ)
    → IsDistinct (xs ++ x ∷ ys)
    → IsDistinct (xs ++ ys) × (contains x (xs ++ ys) ≡ false)
unfolding contains
IsDistinct-middle x [] ys (fresh, d) = (d, fresh)
IsDistinct-middle x (y ∷ xs) ys (fresh, d) =
    let (d', out) = IsDistinct-middle x xs ys d in
    (
      (ground (arith, contains-append y xs (x ∷ ys), contains-append y xs ys), d'),
      ground (arith, contains-append y xs (x ∷ ys)),
    )

-- Membership beside a member in the middle.
pub contains-middle :
    (k x : ℕ) (xs ys : List ℕ) → contains k (xs ++ x ∷ ys) ≡ (k == x || contains k (xs ++ ys))
unfolding contains
contains-middle k x [] ys = refl
contains-middle k x (y ∷ xs) ys = ground (arith, contains-middle k x xs ys)
