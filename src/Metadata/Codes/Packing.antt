-- ===== src/Metadata/Codes/Packing.antt =====
-- What every `decode` and `encode` of crates/gen/src/parser/codes.rs begins with.
use Prim.Native.Nat.{bit_and, bit_or}
use native.Mathlib.Nat.{mul-le-mul_left, mul-add-mod_self_right, mod-eq_of_lt}
use windows_rs.Base.{
  ℕ, ◌+◌, ◌-◌, ◌*◌, ◌/◌, ◌%◌, ◌^◌, ◌<◌, ◌≤◌, ◌≡◌, ap, ◌∙◌, Outcome, ok, ◌>>=◌, Mode, u32_mod, arith,
}
use windows_rs.Base.Bits.{bit_and-mask, bit_or-shifted}
use windows_rs.Base.Power.{two_pow-pos}
use windows_rs.Base.Word.{add_u32, sub_u32, shl_u32, add_u32_ok, sub_u32_ok}

-- `(code & ((1 << bits) - 1), (code >> bits) - 1)`
unfoldable pub split_code : Mode → ℕ → ℕ → Outcome (ℕ × ℕ)
split_code m bits code = do
  row ← sub_u32 m (code / 2 ^ bits) 1
  ok (bit_and code (2 ^ bits - 1), row)

-- `(row + 1) << bits`
unfoldable pub shifted_row : Mode → ℕ → ℕ → Outcome ℕ
shifted_row m bits row = do number ← add_u32 m row 1; ok (shl_u32 number bits)

-- `((row + 1) << bits) | tag`
unfoldable pub tagged_row : Mode → ℕ → ℕ → ℕ → Outcome ℕ
unfolding shifted_row
tagged_row m bits tag row = do shifted ← shifted_row m bits row; ok (bit_or shifted tag)

-- The number that packs a tag and a row.
abbrev pub pack : ℕ → ℕ → ℕ → ℕ
pack bits tag row = (row + 1) * 2 ^ bits + tag

number_fits : (bits row : ℕ) → (row + 1) * 2 ^ bits < u32_mod → row + 1 < u32_mod
number_fits bits row h =
    omega (arith, mul-le-mul_left {m = 1} {n = 2 ^ bits} (row + 1) (two_pow-pos bits))

pub shifted_row-pack :
    (m : Mode) (bits row : ℕ)
    → (row + 1) * 2 ^ bits < u32_mod
    → shifted_row m bits row ≡ ok (pack bits 0 row)
unfolding shifted_row
shifted_row-pack m bits row h =
    rw (add_u32_ok m row 1 (number_fits bits row h)) (ap ok (mod-eq_of_lt h ∙ omega arith))

pub tagged_row-pack :
    (m : Mode) (bits tag row : ℕ)
    → (row + 1) * 2 ^ bits < u32_mod
    → tag < 2 ^ bits
    → tagged_row m bits tag row ≡ ok (pack bits tag row)
unfolding tagged_row
tagged_row-pack m bits tag row h k = rw (
  add_u32_ok m row 1 (number_fits bits row h),
  mod-eq_of_lt h,
  bit_or-shifted bits (row + 1) tag k,
)

pub split_code-pack :
    (m : Mode) (bits tag row : ℕ)
    → tag < 2 ^ bits
    → split_code m bits (pack bits tag row) ≡ ok (tag, row)
unfolding split_code
split_code-pack m bits tag row k =
    let p : ℕ = 2 ^ bits in
    let high : pack bits tag row / p ≡ row + 1 = grind (arith, two_pow-pos bits) in
    let low : pack bits tag row % p ≡ tag =
      mul-add-mod_self_right (row + 1) p tag ∙ mod-eq_of_lt k in
    rw (high, sub_u32_ok m (row + 1) 1 (omega arith), bit_and-mask bits (pack bits tag row), low)
      (ap (λ (r : ℕ). ok (tag, r)) (omega arith))

pub split_code-eq_ok :
    (m : Mode) (bits code : ℕ)
    → 1 ≤ code / 2 ^ bits
    → split_code m bits code ≡ ok (code % 2 ^ bits, code / 2 ^ bits - 1)
unfolding split_code
split_code-eq_ok m bits code h = rw (sub_u32_ok m (code / 2 ^ bits) 1 h, bit_and-mask bits code)
