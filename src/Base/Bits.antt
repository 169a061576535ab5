-- ===== src/Base/Bits.antt =====
-- Masks and disjoint unions of bits as arithmetic, for every width, from the digit recursion of the
-- native operations; and masks on one byte, checked value by value.
use Prim.Native.Nat.{
  ℕ, zero, suc, ◌+◌, ◌-◌, ◌*◌, ◌/◌, ◌%◌, ◌^◌, ◌≤◌, ◌<◌, min, max, bit_and, bit_or, digits,
  bit_and-bitwise, bit_or-bitwise,
}
use mathlib.Core.Path.{◌≡◌, refl, sym, ap, ◌∙◌}
use mathlib.Core.Bool.{Bool, true, ◌&&◌}
use native.Mathlib.Nat.{
  two-pow-succ, mod-lt, mod-eq_of_lt, add-mul-mod_self_right, div-add-mod', div-div-eq-div-mul,
}
use native.Mathlib.Omega.{arith}
use windows_rs.Base.Tests.{◌==◌, ==→eq}
use windows_rs.Base.Power.{two_pow-pos}

-- The recursion of both operations does not depend on its fuel, once there is enough.
module _ (g : ℕ → ℕ) (h : ℕ → ℕ → ℕ) where
  enough_rounds : (a b k l : ℕ) → a ≤ l → a ≤ k → digits g h k a b ≡ digits g h l a b
  enough_rounds zero b zero zero more fewer = refl
  enough_rounds zero b (suc k) zero more fewer = refl
  enough_rounds zero b zero (suc l) more fewer = refl
  enough_rounds zero b (suc k) (suc l) more fewer = refl
  enough_rounds (suc a) b zero l more fewer = absurd (omega arith)
  enough_rounds (suc a) b (suc k) zero more fewer = absurd (omega arith)
  enough_rounds (suc a) b (suc k) (suc l) more fewer =
      omega (arith, enough_rounds (suc a / 2) (b / 2) k l (omega arith) (omega arith))

zero-bit_and : (b : ℕ) → bit_and 0 b ≡ 0
zero-bit_and b = bit_and-bitwise 0 b

zero-bit_or : (b : ℕ) → bit_or 0 b ≡ b
zero-bit_or b = bit_or-bitwise 0 b

-- Both operations, from the lowest bit on.
bit_and_step : (x y : ℕ) → bit_and x y ≡ min (x % 2) (y % 2) + 2 * bit_and (x / 2) (y / 2)
bit_and_step zero y = omega (arith, zero-bit_and (y / 2), zero-bit_and y)
bit_and_step (suc x) y =
    let rounds =
      enough_rounds (λ c. zero) min (suc x / 2) (y / 2) x (suc x / 2) (omega arith) (omega arith) in
    omega (arith, rounds, bit_and-bitwise (suc x / 2) (y / 2), bit_and-bitwise (suc x) y)

bit_or_step : (x y : ℕ) → bit_or x y ≡ max (x % 2) (y % 2) + 2 * bit_or (x / 2) (y / 2)
bit_or_step zero y = omega (arith, zero-bit_or (y / 2), zero-bit_or y)
bit_or_step (suc x) y =
    let rounds =
      enough_rounds (λ c. c) max (suc x / 2) (y / 2) x (suc x / 2) (omega arith) (omega arith) in
    omega (arith, rounds, bit_or-bitwise (suc x / 2) (y / 2), bit_or-bitwise (suc x) y)

bit_and-comm_below : (n x y : ℕ) → x ≤ n → y ≤ n → bit_and x y ≡ bit_and y x
bit_and-comm_below zero x y p q = let e : x ≡ y = omega arith in rw e refl
bit_and-comm_below (suc n) x y p q =
    let halves = bit_and-comm_below n (x / 2) (y / 2) (omega arith) (omega arith) in
    omega (arith, halves, bit_and_step x y, bit_and_step y x)

bit_or-comm_below : (n x y : ℕ) → x ≤ n → y ≤ n → bit_or x y ≡ bit_or y x
bit_or-comm_below zero x y p q = let e : x ≡ y = omega arith in rw e refl
bit_or-comm_below (suc n) x y p q =
    let halves = bit_or-comm_below n (x / 2) (y / 2) (omega arith) (omega arith) in
    omega (arith, halves, bit_or_step x y, bit_or_step y x)

pub bit_or_comm : (x y : ℕ) → bit_or x y ≡ bit_or y x
bit_or_comm x y = bit_or-comm_below (x + y) x y (omega arith) (omega arith)

pub bit_and-zero : (x : ℕ) → bit_and x 0 ≡ 0
bit_and-zero x = bit_and-comm_below x x 0 (omega arith) (omega arith) ∙ zero-bit_and x

pub bit_or-zero : (x : ℕ) → bit_or x 0 ≡ x
bit_or-zero x = bit_or_comm x 0 ∙ zero-bit_or x

mod_unique : (n m r q : ℕ) → r + q * m ≡ n → r < m → n % m ≡ r
mod_unique n m r q e h =
    ap (λ (t : ℕ). t % m) (sym e) ∙ add-mul-mod_self_right r q m ∙ mod-eq_of_lt h

-- The remainder by 2 ^ (k + 1), digit by digit.
mod_double : (p a : ℕ) → 0 < p → a % (p + p) ≡ a / 2 % p * 2 + a % 2
mod_double p a h =
    mod_unique a (p + p) (a / 2 % p * 2 + a % 2) (a / 2 / p) (omega (arith, div-add-mod' (a / 2) p))
      (omega (arith, mod-lt (a / 2) h))

-- `a & ((1 << k) - 1)`
pub bit_and-mask : (k a : ℕ) → bit_and a (2 ^ k - 1) ≡ a % 2 ^ k
bit_and-mask zero a = omega (arith, bit_and-zero a)
bit_and-mask (suc k) a =
    let half : (2 ^ suc k - 1) / 2 ≡ 2 ^ k - 1 = omega (arith, two-pow-succ k, two_pow-pos k) in
    rw
      (
        bit_and_step,
        half,
        bit_and-mask k (a / 2),
        two-pow-succ k,
        mod_double (2 ^ k) a (two_pow-pos k),
      )
      (omega (arith, two_pow-pos k))

-- `(a << k) | b` for `b` below 2 ^ k
pub bit_or-shifted : (k a b : ℕ) → b < 2 ^ k → bit_or (a * 2 ^ k) b ≡ a * 2 ^ k + b
bit_or-shifted zero a b h =
    let none_left : b ≡ 0 = omega arith in rw none_left (omega (arith, bit_or-zero (a * 1)))
bit_or-shifted (suc k) a b h =
    let double = ap (λ (t : ℕ). a * t) (two-pow-succ k) in
    let half : a * 2 ^ suc k / 2 ≡ a * 2 ^ k = omega (arith, double) in
    rw (bit_or_step, half, bit_or-shifted k a (b / 2) (omega (arith, two-pow-succ k)))
      (omega (arith, double))

-- A test of every number below a bound.
unfoldable pub holds_below : (ℕ → Bool) → ℕ → Bool
holds_below test zero = true
holds_below test (suc bound) = holds_below test bound && test bound

holds_below_lem :
    (test : ℕ → Bool) (bound i : ℕ) → i < bound → holds_below test bound ≡ true → test i ≡ true
unfolding holds_below
holds_below_lem test zero i small e = absurd (omega arith)
holds_below_lem test (suc bound) i small e = ground (arith, holds_below_lem test bound i)

pub agree_on_bytes :
    (f g : ℕ → ℕ) → holds_below (λ x. f x == g x) 256 ≡ true → (x : ℕ) → x < 256 → f x ≡ g x
agree_on_bytes f g h x lt = ==→eq (f x) (g x) (holds_below_lem _ 256 x lt h)

-- A field set above the bits that a mask keeps.
pub bit_or-masked : (k a b : ℕ) → bit_or (bit_and b (2 ^ k - 1)) (a * 2 ^ k) ≡ a * 2 ^ k + b % 2 ^ k
bit_or-masked k a b =
    rw (bit_and-mask k b, bit_or_comm (b % 2 ^ k) (a * 2 ^ k))
      (bit_or-shifted k a (b % 2 ^ k) (mod-lt b (two_pow-pos k)))

half_power : (a k : ℕ) → a / 2 ^ suc k ≡ a / 2 / 2 ^ k
half_power a k =
    let double : 2 ^ suc k ≡ 2 * 2 ^ k = omega (arith, two-pow-succ k) in
    rw (div-div-eq-div-mul a 2 (2 ^ k), double) refl

-- One bit.
pub bit_and-power : (k a : ℕ) → bit_and a (2 ^ k) ≡ a / 2 ^ k % 2 * 2 ^ k
bit_and-power zero a = omega (arith, bit_and-mask 1 a)
bit_and-power (suc k) a =
    let half : 2 ^ suc k / 2 ≡ 2 ^ k = omega (arith, two-pow-succ k) in
    let even : 2 ^ suc k % 2 ≡ 0 = omega (arith, two-pow-succ k) in
    rw (bit_and_step a (2 ^ suc k), half, even, bit_and-power k (a / 2), half_power a k)
      (omega (arith, ap (λ (t : ℕ). a / 2 / 2 ^ k % 2 * t) (two-pow-succ k)))
