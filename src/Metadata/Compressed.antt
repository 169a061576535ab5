-- ===== src/Metadata/Compressed.antt =====
-- Unsigned numbers below 2 ^ 29 as metadata stores them, in one, two or four bytes (ECMA-335, II.23.2):
-- the specification that the readers of blob sizes and of signatures are held to.
use windows_rs.Base.{
  ℕ, ◌+◌, ◌*◌, ◌/◌, ◌%◌, ◌^◌, ◌<◌, ◌≤◌, ◌≡◌, refl, List, [], ◌∷◌, ltb, if◌then◌else◌, arith,
}
use native.Mathlib.Decide.{dec_lt}
use windows_rs.Base.Tests.{lt→ltb, ge→ltb}
use windows_rs.Base.Bits.{bit_and-mask, bit_or-shifted, agree_on_bytes, holds_below}
use windows_rs.Base.Word.{shl_u32}
use Prim.Native.Nat.{bit_and, bit_or}

abbrev pub compressed : ℕ → List ℕ
compressed n =
    if ltb n 0x80
    then n ∷ []
    else if ltb n 0x4000
    then (n / 2 ^ 8 + 0x80) ∷ (n % 2 ^ 8) ∷ []
    else (n / 2 ^ 24 + 0xc0) ∷ (n / 2 ^ 16 % 2 ^ 8) ∷ (n / 2 ^ 8 % 2 ^ 8) ∷ (n % 2 ^ 8) ∷ []

abbrev pub IsCompressible : ℕ → Type 0
IsCompressible n = n < 2 ^ 29

-- The three forms.
pub data Form (n : ℕ) : Type 0 where
  one : n < 0x80 → compressed n ≡ n ∷ [] → Form n
  two : 0x80 ≤ n → n < 0x4000 → compressed n ≡ (n / 2 ^ 8 + 0x80) ∷ (n % 2 ^ 8) ∷ [] → Form n
  four :
      0x4000 ≤ n
      → compressed n
        ≡ (n / 2 ^ 24 + 0xc0) ∷ (n / 2 ^ 16 % 2 ^ 8) ∷ (n / 2 ^ 8 % 2 ^ 8) ∷ (n % 2 ^ 8) ∷ []
      → Form n

pub form : (n : ℕ) → Form n
form n = elim (dec_lt n 0x80) [
  | yes h ↦ one h (rw (lt→ltb n 0x80 h))
  | no h ↦ elim (dec_lt n 0x4000) [
    | yes k ↦ two (omega arith) k (rw (ge→ltb n 0x80 (omega arith), lt→ltb n 0x4000 k))
    | no k ↦ four (omega arith) (rw (ge→ltb n 0x80 (omega arith), ge→ltb n 0x4000 (omega arith)))
  ]
]

-- Masks on the first byte.
pub low_seven : (b : ℕ) → bit_and b 0x7f ≡ b % 2 ^ 7
low_seven = bit_and-mask 7

pub low_six : (b : ℕ) → bit_and b 0x3f ≡ b % 2 ^ 6
low_six = bit_and-mask 6

pub low_five : (b : ℕ) → bit_and b 0x1f ≡ b % 2 ^ 5
low_five = bit_and-mask 5

pub top_bit : (b : ℕ) → b < 256 → bit_and b 0x80 ≡ b / 2 ^ 7 * 2 ^ 7
unfolding holds_below
top_bit = agree_on_bytes _ _ refl

pub top_two_bits : (b : ℕ) → b < 256 → bit_and b 0xc0 ≡ b / 2 ^ 6 * 2 ^ 6
unfolding holds_below
top_two_bits = agree_on_bytes _ _ refl

-- The bytes put together again, as the readers do it.
pub two_bytes : (x y : ℕ) → x < 2 ^ 6 → y < 2 ^ 8 → bit_or (shl_u32 x 8) y ≡ x * 2 ^ 8 + y
two_bytes x y hx hy =
    let fits : shl_u32 x 8 ≡ x * 2 ^ 8 = omega arith in rw fits (bit_or-shifted 8 x y hy)

pub four_bytes :
    (x y z w : ℕ)
    → x < 2 ^ 5
    → y < 2 ^ 8
    → z < 2 ^ 8
    → w < 2 ^ 8
    → bit_or (bit_or (bit_or (shl_u32 x 24) (shl_u32 y 16)) (shl_u32 z 8)) w
      ≡ x * 2 ^ 24 + y * 2 ^ 16 + z * 2 ^ 8 + w
four_bytes x y z w hx hy hz hw =
    let fits_x : shl_u32 x 24 ≡ x * 2 ^ 24 = omega arith in
    let fits_y : shl_u32 y 16 ≡ y * 2 ^ 16 = omega arith in
    let fits_z : shl_u32 z 8 ≡ z * 2 ^ 8 = omega arith in
    let xy : x * 2 ^ 24 + y * 2 ^ 16 ≡ (x * 2 ^ 8 + y) * 2 ^ 16 = omega arith in
    let xyz : (x * 2 ^ 8 + y) * 2 ^ 16 + z * 2 ^ 8 ≡ (x * 2 ^ 16 + y * 2 ^ 8 + z) * 2 ^ 8 =
      omega arith in
    rw
      (
        fits_x,
        fits_y,
        fits_z,
        bit_or-shifted 24 x (y * 2 ^ 16) (omega arith),
        xy,
        bit_or-shifted 16 (x * 2 ^ 8 + y) (z * 2 ^ 8) (omega arith),
        xyz,
        bit_or-shifted 8 (x * 2 ^ 16 + y * 2 ^ 8 + z) w hw,
      )
      (omega arith)
