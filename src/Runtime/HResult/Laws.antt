-- ===== src/Runtime/HResult/Laws.antt =====
-- What the codes mean, and that codes survive the way through results.
use windows_rs.Base.{
  ℕ, ◌+◌, ◌*◌, ◌%◌, ◌/◌, ◌^◌, ◌<◌, ◌≤◌, ◌≡◌, ◌↔◌, refl, true, false, IsU32, arith, Option, some,
  ◌∙◌, ap, ◌⊎◌, Bool-cases, ◌==◌, inl, inr, leb,
}
use windows_rs.Base.OrderedMap.{Option-cases}
use windows_rs.Base.Tests.{==→eq}
use windows_rs.Base.Bits.{bit_or_comm, bit_or-shifted, bit_or-masked, bit_and-mask, bit_and-power}
use windows_rs.Runtime.HResult.{
  is_ok, from_win32, win32_code, from_code, to_result, from_result, code_of, Thread, new,
}

is_ok-eq : (code : ℕ) → is_ok code ≡ ((code / 2 ^ 31 % 2 * 2 ^ 31) == 0)
unfolding is_ok
is_ok-eq code = rw (bit_and-power 31 code) refl

-- A code says success exactly when its top bit is clear.
is_ok-lt : (code : ℕ) → IsU32 code → (is_ok code ≡ true) ↔ (code < 2 ^ 31)
is_ok-lt code h = rw (is_ok-eq code) (λ e. ground arith, λ k. ground arith)

-- A positive error code as a failure code.
from_win32-eq :
    (error : ℕ)
    → 1 ≤ error
    → error < 2 ^ 31
    → from_win32 error ≡ 2 ^ 31 + (7 * 2 ^ 16 + error % 2 ^ 16)
unfolding from_win32
from_win32-eq error h k =
    let below : leb (2 ^ 31) error ≡ false = ground arith in
    let positive : (error == 0) ≡ false = ground arith in
    rw
      (
        positive,
        below,
        bit_or-masked 16 7 error,
        bit_or_comm (7 * 2 ^ 16 + error % 2 ^ 16) (1 * 2 ^ 31),
        bit_or-shifted 31 1 (7 * 2 ^ 16 + error % 2 ^ 16) (omega arith),
      )
      refl

split : (n : ℕ) → (n ≡ 0) ⊎ (2 ^ 31 ≤ n) ⊎ ((1 ≤ n) × (n < 2 ^ 31))
split n = elim (Bool-cases (n == 0)) [
  | inl e ↦ inl (==→eq n 0 e)
  | inr e ↦ elim (Bool-cases (leb (2 ^ 31) n)) [
    | inl k ↦ inr (inl (ground arith))
    | inr k ↦ inr (inr (ground arith, ground arith))
  ]
]

win32_code-eq : (c : ℕ) → c / 2 ^ 16 % 2 ^ 11 ≡ 7 → win32_code c ≡ some (c % 2 ^ 16)
unfolding win32_code
win32_code-eq c h = rw (bit_and-mask 11 (c / 2 ^ 16), h, bit_and-mask 16 c) refl

from_win32-kept : (error : ℕ) → (error ≡ 0) ⊎ (2 ^ 31 ≤ error) → from_win32 error ≡ error
unfolding from_win32
from_win32-kept error (inl e) = ground arith
from_win32-kept error (inr h) = ground arith

-- The code made of a win32 error: zero stays zero, which says success; a number that already says failure is
-- kept and does so; and any other error gives a code that says failure and from which `win32_code` reads the
-- low sixteen bits of the error again.
pub from_win32-win32_code :
    (error : ℕ)
    → IsU32 error
    → ((error ≡ 0) × (from_win32 error ≡ 0) × (is_ok (from_win32 error) ≡ true))
      ⊎ ((2 ^ 31 ≤ error) × (from_win32 error ≡ error) × (is_ok (from_win32 error) ≡ false))
      ⊎ ((1 ≤ error)
          × (error < 2 ^ 31)
          × (is_ok (from_win32 error) ≡ false)
          × (win32_code (from_win32 error) ≡ some (error % 2 ^ 16)))
from_win32-win32_code error h = elim (split error) [
  | inl e ↦
      inl (
        e,
        from_win32-kept error (inl e) ∙ e,
        rw (from_win32-kept error (inl e), e, is_ok-eq 0) refl,
      )
  | inr (inl k) ↦ inr (
      inl (
        k,
        from_win32-kept error (inr k),
        rw (from_win32-kept error (inr k), is_ok-eq error) (ground arith),
      ))
  | inr (inr (k, k')) ↦ inr (
      inr (
        k,
        k',
        rw (from_win32-eq error k k', is_ok-eq (2 ^ 31 + (7 * 2 ^ 16 + error % 2 ^ 16)))
            (ground arith),
        rw
            (
              from_win32-eq error k k',
              win32_code-eq (2 ^ 31 + (7 * 2 ^ 16 + error % 2 ^ 16)) (omega arith),
            )
            (ap {B = Option ℕ} some (omega arith)),
      ))
]

-- Whatever the thread has of an error, the code is kept.
code_of-from_code {ℓ} :
    {Info : Type ℓ} (thread : Thread Info) (code : ℕ) → code_of (from_code thread code) ≡ code
unfolding code_of from_code new
code_of-from_code thread code = elim (Option-cases thread.restricted) [
  | inr (info, e) ↦ rw e refl
  | inl e ↦ elim (Option-cases thread.description) [
    | inr (message, d) ↦ rw (e, d) refl
    | inl d ↦ rw (e, d) refl
  ]
]

-- Whatever the thread has of an error, a result made of a 32-bit code gives 0 back where the code is below 2 ^ 31, which says
-- success, and gives back the code itself where it is not.
pub from_result-to_result {ℓ} :
    {Info : Type ℓ} (thread : Thread Info) (code : ℕ)
    → IsU32 code
    → ((code < 2 ^ 31) × (from_result (to_result thread code) ≡ 0))
      ⊎ ((2 ^ 31 ≤ code) × (from_result (to_result thread code) ≡ code))
unfolding from_result to_result
from_result-to_result thread code h = elim (Bool-cases (is_ok code)) [
  | inl e ↦ inl ((is_ok-lt code h).0 e, rw e refl)
  | inr e ↦ elim (Bool-cases (leb (2 ^ 31) code)) [
    | inl k ↦ inr (ground arith, rw e (code_of-from_code thread code))
    | inr k ↦ let low : code < 2 ^ 31 = ground arith in let w = (is_ok-lt code h).1 low in cc
  ]
]
