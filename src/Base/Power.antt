-- ===== src/Base/Power.antt =====
-- Powers of two.
use Prim.Native.Nat.{ℕ, zero, suc, ◌+◌, ◌-◌, ◌*◌, ◌^◌, ◌≤◌, ◌<◌}
use mathlib.Core.Path.{◌≡◌, ap}
use native.Mathlib.Nat.{two-pow-succ, pow-le-pow_right, add-suc, add-zero}
use native.Mathlib.Decide.{dec_lt}
use native.Mathlib.Omega.{arith}

pub two_pow-add : (a b : ℕ) → 2 ^ (a + b) ≡ 2 ^ a * 2 ^ b
two_pow-add a zero = rw add-zero (omega arith)
two_pow-add a (suc b) = rw add-suc (
    omega (
      arith,
      two-pow-succ (a + b),
      two-pow-succ b,
      two_pow-add a b,
      ap (λ (t : ℕ). 2 ^ a * t) (two-pow-succ b),
    ))

pub two_pow-pos : (a : ℕ) → 0 < 2 ^ a
two_pow-pos zero = omega arith
two_pow-pos (suc a) = omega (arith, two-pow-succ a, two_pow-pos a)

pub two_pow-split : (a b : ℕ) → a ≤ b → 2 ^ b ≡ 2 ^ a * 2 ^ (b - a)
two_pow-split a b h = let e : a + (b - a) ≡ b = omega arith in rw e at (two_pow-add a (b - a))

pub lt_of_two_pow-lt : (a b : ℕ) → 2 ^ a < 2 ^ b → a < b
lt_of_two_pow-lt a b h = elim (dec_lt a b) [
  | yes p ↦ p
  | no p ↦
      absurd (omega (arith, pow-le-pow_right {n = 2} (omega arith) {i = b} {j = a} (omega arith)))
]
