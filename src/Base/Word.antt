-- ===== src/Base/Word.antt =====
-- Rust's operations on unsigned integers. On overflow a build with overflow checks panics (`trap`), and any other
-- keeps the low bits (`wrap`), so every operation takes the build's mode.
use Prim.Native.Nat.{ℕ, ◌+◌, ◌-◌, ◌*◌, ◌%◌, ◌^◌, ◌<◌, ◌≤◌}
use mathlib.Core.Path.{◌≡◌}
use native.Mathlib.Omega.{arith}
use windows_rs.Base.Tests.{ltb, leb, if◌then◌else◌}
use windows_rs.Base.Faults.{Outcome, ok, panic, Fault}

pub data Mode : Type 0 where
  trap wrap : Mode

abbrev pub u32_mod : ℕ
u32_mod = 2 ^ 32

abbrev pub IsU32 : ℕ → Type 0
IsU32 n = n < u32_mod

abbrev pub u64_mod : ℕ
u64_mod = 2 ^ 64

abbrev pub IsByte : ℕ → Type 0
IsByte n = n < 256

-- What an operation gives whose true result does not fit.
abbrev overflowed : Mode → ℕ → Outcome ℕ
overflowed trap v = panic Fault.overflow
overflowed wrap v = ok v

-- The true result `v` of an operation, cut to 32 bits where the mode asks for it.
unfoldable pub fit_u32 : Mode → ℕ → Outcome ℕ
fit_u32 m v = if ltb v u32_mod then ok v else overflowed m (v % u32_mod)

unfoldable pub add_u32 : Mode → ℕ → ℕ → Outcome ℕ
unfolding fit_u32
add_u32 m a b = fit_u32 m (a + b)

unfoldable pub mul_u32 : Mode → ℕ → ℕ → Outcome ℕ
unfolding fit_u32
mul_u32 m a b = fit_u32 m (a * b)

-- `a - b` on an unsigned type of the given modulus.
unfoldable pub sub_at : ℕ → Mode → ℕ → ℕ → Outcome ℕ
sub_at modulus m a b = if leb b a then ok (a - b) else overflowed m ((a + modulus - b) % modulus)

unfoldable pub sub_u32 : Mode → ℕ → ℕ → Outcome ℕ
unfolding sub_at
sub_u32 = sub_at u32_mod

pub add_u32_ok : (m : Mode) (a b : ℕ) → a + b < u32_mod → add_u32 m a b ≡ ok (a + b)
unfolding add_u32
add_u32_ok m a b h = ground arith

pub mul_u32_ok : (m : Mode) (a b : ℕ) → a * b < u32_mod → mul_u32 m a b ≡ ok (a * b)
unfolding mul_u32
mul_u32_ok m a b h = ground arith

pub sub_at_ok : (modulus : ℕ) (m : Mode) (a b : ℕ) → b ≤ a → sub_at modulus m a b ≡ ok (a - b)
unfolding sub_at
sub_at_ok modulus m a b h = ground arith

pub sub_u32_ok : (m : Mode) (a b : ℕ) → b ≤ a → sub_u32 m a b ≡ ok (a - b)
unfolding sub_u32
sub_u32_ok m a b h = sub_at_ok u32_mod m a b h

-- `1u64 << s`; a shift by the width or more overflows, and wraps the distance.
unfoldable pub shl_one_u64 : Mode → ℕ → Outcome ℕ
shl_one_u64 m s = if ltb s 64 then ok (2 ^ s) else overflowed m (2 ^ (s % 64))

pub shl_one_u64_ok : (m : Mode) (s : ℕ) → s < 64 → shl_one_u64 m s ≡ ok (2 ^ s)
unfolding shl_one_u64
shl_one_u64_ok m s h = ground arith

-- `x << k` on u32: the bits that leave the word are dropped.
abbrev pub shl_u32 : ℕ → ℕ → ℕ
shl_u32 x k = x * 2 ^ k % u32_mod
