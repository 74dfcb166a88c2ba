-- ===== src/Faucet/Bytes.antt =====
-- `to_le_bytes`, `from_le_bytes` and `from_be_bytes` of the unsigned integers, with the width in
-- bytes.
use miden_node.Prelude.{
  ℕ, zero, suc, ◌+◌, ◌*◌, ◌<◌, ◌≡◌, refl, ap, List, [], ◌∷◌, arith, length, foldl, all, ltb, true,
}
use mathlib.Core.List.{reverse}
use Prim.Native.Nat.{◌/◌, ◌%◌}

-- The number of values of `n` bytes.
abbrev pub values : ℕ → ℕ
values zero = 1
values (suc n) = 256 * values n

unfoldable pub to_le_bytes : ℕ → ℕ → List ℕ
to_le_bytes zero v = []
to_le_bytes (suc n) v = (v % 256) ∷ to_le_bytes n (v / 256)

unfoldable pub from_le_bytes : List ℕ → ℕ
from_le_bytes [] = 0
from_le_bytes (b ∷ bs) = b + 256 * from_le_bytes bs

unfoldable pub to_be_bytes : ℕ → ℕ → List ℕ
to_be_bytes n v = reverse (to_le_bytes n v)

unfoldable pub from_be_bytes : List ℕ → ℕ
from_be_bytes = foldl (λ v b. v * 256 + b) 0

pub length-to_le_bytes : (n v : ℕ) → length (to_le_bytes n v) ≡ n
unfolding to_le_bytes
length-to_le_bytes zero v = refl
length-to_le_bytes (suc n) v = ap suc (length-to_le_bytes n (v / 256))

pub from_le_bytes-to_le_bytes : (n v : ℕ) → v < values n → from_le_bytes (to_le_bytes n v) ≡ v
unfolding to_le_bytes from_le_bytes
from_le_bytes-to_le_bytes zero v h = omega arith
from_le_bytes-to_le_bytes (suc n) v h =
    omega (arith, from_le_bytes-to_le_bytes n (v / 256) (omega arith))

-- Each is a byte.
pub are_bytes-to_le_bytes : (n v : ℕ) → all (λ b. ltb b 256) (to_le_bytes n v) ≡ true
unfolding to_le_bytes
are_bytes-to_le_bytes zero v = refl
are_bytes-to_le_bytes (suc n) v =
    let small : v % 256 < 256 = omega arith in
    ground (arith, small, are_bytes-to_le_bytes n (v / 256))
