-- ===== src/Faucet/Pow/Target.antt =====
-- The target of a challenge against the number of challenges of its API key.
use miden_node.Prelude.{refl, ℕ, ◌-◌, ◌*◌, ◌<◌, ◌≤◌, ◌≡◌, some, arith, leb, if◌then◌else◌}
use Prim.Native.Nat.{◌^◌, ◌/◌}
use native.Mathlib.Nat.{
  le-div_iff_mul-le, div-mul-le_self, div-le_self, mul-le-mul_left, mul-le-mul_right, mod-eq_of_lt,
}
use miden_node.Faucet.Pow.{PowConfig, difficulty, target_for}

-- A larger divisor gives a smaller quotient.
div-le_left : (n b c : ℕ) → 0 < b → b ≤ c → n / c ≤ n / b
div-le_left n b c pos le =
    (le-div_iff_mul-le {y = n} pos).1
      (omega (arith, mul-le-mul_left (n / c) le, div-mul-le_self n c))

-- A shift that drops no bit multiplies.
difficulty_eq :
    (n rate : ℕ)
    → n * 2 ^ rate < 2 ^ 64
    → difficulty n rate ≡ (if leb (n * 2 ^ rate) 1 then 1 else n * 2 ^ rate)
unfolding difficulty
difficulty_eq n rate small = rw (mod-eq_of_lt small, difficulty) refl

difficulty_mono :
    (n m rate : ℕ)
    → n ≤ m
    → m * 2 ^ rate < 2 ^ 64
    → (0 < difficulty n rate) × (difficulty n rate ≤ difficulty m rate)
difficulty_mono n m rate le small =
    let grows : n * 2 ^ rate ≤ m * 2 ^ rate = mul-le-mul_right (2 ^ rate) le in
    let eq_m = difficulty_eq m rate small in
    let eq_n = difficulty_eq n rate (omega arith) in ground arith

-- While the shift drops no bit, more challenges of a key give a target that is no larger, and no
-- target is above `u64::MAX >> baseline`.
pub target_for_le :
    (config : PowConfig) (n m t u : ℕ)
    → n ≤ m
    → m * 2 ^ config.growth_rate < 2 ^ 64
    → target_for config n ≡ some t
    → target_for config m ≡ some u
    → (u ≤ t) × (t ≤ (2 ^ 64 - 1) / 2 ^ config.baseline)
unfolding target_for
target_for_le config n m t u le small ht hu =
    let most = (2 ^ 64 - 1) / 2 ^ config.baseline in
    let (pos, grows) = difficulty_mono n m config.growth_rate le small in
    let shrinks =
      div-le_left most (difficulty n config.growth_rate) (difficulty m config.growth_rate) pos
        grows in
    let bounded = div-le_self most (difficulty n config.growth_rate) in ground arith
