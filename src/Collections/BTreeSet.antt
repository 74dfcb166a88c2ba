-- ===== src/Collections/BTreeSet.antt =====
-- `std::collections::BTreeSet` as the code uses it: a set of identifiers, iterated in ascending
-- order. The list is the iteration order; an insertion keeps it ascending.
use miden_node.Prelude.{
  ℕ, ◌<◌, ◌≤◌, ◌≡◌, refl, Bool, true, false, not, ◌&&◌, ◌||◌, List, [], ◌∷◌, ◌++◌, inl, inr, arith,
  ltb, ◌==◌, if◌then◌else◌, length, filter, is_empty, all, Bool-cases, flat_map,
}

abbrev pub BTreeSet : Type 0
BTreeSet = List ℕ

unfoldable pub contains : ℕ → BTreeSet → Bool
contains k [] = false
contains k (x ∷ s) = k == x || contains k s

unfoldable pub insert : ℕ → BTreeSet → BTreeSet
insert k [] = k ∷ []
insert k (x ∷ s) = if ltb k x then k ∷ x ∷ s else if k == x then x ∷ s else x ∷ insert k s

unfoldable pub remove : ℕ → BTreeSet → BTreeSet
remove k [] = []
remove k (x ∷ s) = if k == x then remove k s else x ∷ remove k s

-- `extend`, with the elements of any iterator.
unfoldable pub extend : BTreeSet → List ℕ → BTreeSet
extend s [] = s
extend s (x ∷ xs) = extend (insert x s) xs

-- `collect` into a set.
unfoldable pub from_iter : List ℕ → BTreeSet
unfolding extend insert
from_iter = extend []

-- `difference`, in the order of the first set.
unfoldable pub difference : BTreeSet → BTreeSet → BTreeSet
unfolding contains
difference s t = filter (λ k. not (contains k t)) s

-- The order that the type keeps: strictly ascending.
abbrev pub IsAscending : BTreeSet → Type 0
IsAscending [] = Unit
IsAscending (x ∷ s) = ((y : ℕ) → contains y s ≡ true → x < y) × IsAscending s

pub contains-insert : (j k : ℕ) (s : BTreeSet) → contains j (insert k s) ≡ (j == k || contains j s)
unfolding contains insert
contains-insert j k [] = refl
contains-insert j k (x ∷ s) = ground (arith, contains-insert j k s)

pub contains-remove :
    (j k : ℕ) (s : BTreeSet) → contains j (remove k s) ≡ (not (j == k) && contains j s)
unfolding contains remove
contains-remove j k [] = ground arith
contains-remove j k (x ∷ s) = ground (arith, contains-remove j k s)

pub contains-extend :
    (j : ℕ) (s : BTreeSet) (xs : List ℕ)
    → contains j (extend s xs) ≡ (contains j s || contains j xs)
unfolding contains extend
contains-extend j s [] = ground arith
contains-extend j s (x ∷ xs) =
    ground (arith, contains-extend j (insert x s) xs, contains-insert j x s)

pub contains-filter :
    (j : ℕ) (p : ℕ → Bool) (s : List ℕ) → contains j (filter p s) ≡ (p j && contains j s)
unfolding contains
contains-filter j p [] = ground arith
contains-filter j p (x ∷ s) = ground (arith, contains-filter j p s)

pub contains-difference :
    (j : ℕ) (s t : BTreeSet) → contains j (difference s t) ≡ (not (contains j t) && contains j s)
unfolding difference
contains-difference j s t = contains-filter j (λ k. not (contains k t)) s

pub contains-from_iter : (j : ℕ) (xs : List ℕ) → contains j (from_iter xs) ≡ contains j xs
unfolding from_iter contains
contains-from_iter j xs = contains-extend j [] xs

-- `filter(p).collect()` into a set.
pub contains-collect :
    (j : ℕ) (p : ℕ → Bool) (s : List ℕ)
    → contains j (from_iter (filter p s)) ≡ (p j && contains j s)
contains-collect j p s = ground (arith, contains-from_iter j (filter p s), contains-filter j p s)

pub length-difference-le : (s t : BTreeSet) → length (difference s t) ≤ length s
unfolding difference
length-difference-le [] t = omega arith
length-difference-le (x ∷ s) t = ground (arith, length-difference-le s t)

pub contains-append :
    (j : ℕ) (xs ys : List ℕ) → contains j (xs ++ ys) ≡ (contains j xs || contains j ys)
unfolding contains
contains-append j [] ys = refl
contains-append j (x ∷ xs) ys = ground (arith, contains-append j xs ys)

pub contains-cons : (j x : ℕ) (s : List ℕ) → contains j (x ∷ s) ≡ (j == x || contains j s)
unfolding contains
contains-cons j x s = refl

pub contains-nil : (j : ℕ) → contains j [] ≡ false
unfolding contains
contains-nil j = refl

pub contains-flat_map_intro :
    (f : ℕ → List ℕ) (s : List ℕ) (k j : ℕ)
    → contains k s ≡ true
    → contains j (f k) ≡ true
    → contains j (flat_map f s) ≡ true
unfolding contains
contains-flat_map_intro f [] k j h m = cc
contains-flat_map_intro f (x ∷ s) k j h m =
    ground (arith, contains-append j (f x) (flat_map f s), contains-flat_map_intro f s k j)

pub contains-flat_map_elim :
    (f : ℕ → List ℕ) (s : List ℕ) (j : ℕ)
    → contains j (flat_map f s) ≡ true
    → (k : ℕ) × (contains k s ≡ true) × (contains j (f k) ≡ true)
unfolding contains
contains-flat_map_elim f [] j h = absurd (cc)
contains-flat_map_elim f (x ∷ s) j h = elim (Bool-cases (contains j (f x))) [
  | inl here ↦ (x, ground arith, here)
  | inr later ↦
      let (k, m, n) =
        contains-flat_map_elim f s j (ground (arith, contains-append j (f x) (flat_map f s))) in
      (k, ground arith, n)
]

pub all_elim :
    (p : ℕ → Bool) (s : List ℕ) (j : ℕ) → all p s ≡ true → contains j s ≡ true → p j ≡ true
unfolding contains
all_elim p [] j h m = ground arith
all_elim p (x ∷ s) j h m = ground (arith, all_elim p s j)

pub all_intro :
    (p : ℕ → Bool) (s : List ℕ) → ((j : ℕ) → contains j s ≡ true → p j ≡ true) → all p s ≡ true
unfolding contains
all_intro p [] h = refl
all_intro p (x ∷ s) h = ground (arith, h x, all_intro p s (λ j m. h j (ground arith)))

pub all_transfer :
    (p q : ℕ → Bool) (s t : List ℕ)
    → ((j : ℕ) → contains j t ≡ true → (contains j s ≡ true → p j ≡ true) → q j ≡ true)
    → all p s ≡ true
    → all q t ≡ true
all_transfer p q s t h e = all_intro q t (λ j m. h j m (all_elim p s j e))

-- An empty list holds nothing, and a list that holds nothing is empty.
pub is_empty_elim : (s : List ℕ) (j : ℕ) → is_empty s ≡ true → contains j s ≡ false
unfolding contains
is_empty_elim [] j h = refl
is_empty_elim (x ∷ s) j h = ground arith

pub is_empty_intro : (s : List ℕ) → ((j : ℕ) → contains j s ≡ true → ⊥) → is_empty s ≡ true
unfolding contains
is_empty_intro [] h = refl
is_empty_intro (x ∷ s) h = absurd (h x (ground arith))

pub is_empty_witness : (s : List ℕ) → is_empty s ≡ false → (k : ℕ) × (contains k s ≡ true)
unfolding contains
is_empty_witness [] h = absurd (cc)
is_empty_witness (x ∷ s) h = (x, ground arith)

pub insert-is_empty : (k : ℕ) (s : BTreeSet) → is_empty (insert k s) ≡ false
unfolding insert
insert-is_empty k [] = refl
insert-is_empty k (x ∷ s) = ground arith

pub remove_absent : (k : ℕ) (s : BTreeSet) → contains k s ≡ false → remove k s ≡ s
unfolding contains remove
remove_absent k [] h = refl
remove_absent k (x ∷ s) h = ground (arith, remove_absent k s)

pub length-filter-le :
    (p q : ℕ → Bool) (s : List ℕ)
    → ((j : ℕ) → p j ≡ true → q j ≡ true)
    → length (filter p s) ≤ length (filter q s)
length-filter-le p q [] h = omega arith
length-filter-le p q (x ∷ s) h = ground (arith, h x, length-filter-le p q s h)

-- A new member of the second set shrinks the difference.
pub length-difference-insert :
    (k : ℕ) (s t : BTreeSet)
    → contains k s ≡ true
    → contains k t ≡ false
    → length (difference s (insert k t)) < length (difference s t)
unfolding contains difference
length-difference-insert k [] t h m = ground arith
length-difference-insert k (x ∷ s) t h m = ground (
  arith,
  length-difference-insert k s t,
  contains-insert x k t,
  length-filter-le (λ j. not (contains j (insert k t))) (λ j. not (contains j t)) s
      (λ j e. ground (arith, contains-insert j k t)),
)

-- Ascending order.
pub insert-IsAscending : (k : ℕ) (s : BTreeSet) → IsAscending s → IsAscending (insert k s)
unfolding contains insert
insert-IsAscending k [] h = (λ y e. ground arith, tt)
insert-IsAscending k (x ∷ s) h = elim (Bool-cases (ltb k x)) [
  | inl lt ↦ rw lt (λ y e. ground (arith, h.0 y), h)
  | inr ge ↦ elim (Bool-cases (k == x)) [
    | inl eq ↦ rw (ge, eq) h
    | inr ne ↦
        rw (ge, ne)
          (λ y e. ground (arith, h.0 y, contains-insert y k s), insert-IsAscending k s h.1)
  ]
]

pub remove-IsAscending : (k : ℕ) (s : BTreeSet) → IsAscending s → IsAscending (remove k s)
unfolding contains remove
remove-IsAscending k [] h = tt
remove-IsAscending k (x ∷ s) h = elim (Bool-cases (k == x)) [
  | inl eq ↦ rw eq (remove-IsAscending k s h.1)
  | inr ne ↦ rw ne (λ y e. ground (arith, h.0 y, contains-remove y k s), remove-IsAscending k s h.1)
]

pub extend-IsAscending : (s : BTreeSet) (xs : List ℕ) → IsAscending s → IsAscending (extend s xs)
unfolding extend
extend-IsAscending s [] h = h
extend-IsAscending s (x ∷ xs) h = extend-IsAscending (insert x s) xs (insert-IsAscending x s h)

pub from_iter-IsAscending : (xs : List ℕ) → IsAscending (from_iter xs)
unfolding from_iter
from_iter-IsAscending xs = extend-IsAscending [] xs tt

-- The head of an ascending set does not stand in its tail.
pub head-fresh : (x : ℕ) (s : BTreeSet) → IsAscending (x ∷ s) → contains x s ≡ false
head-fresh x s h = elim (Bool-cases (contains x s)) [
  | inl e ↦ absurd (omega (arith, h.0 x e))
  | inr e ↦ e
]
