-- ===== src/Runtime/Guid/Text.antt =====
-- What is printed is read back.
use windows_rs.Base.{
  ℕ, ◌+◌, ◌*◌, ◌/◌, ◌%◌, ◌^◌, ◌<◌, ◌≡◌, refl, List, [], ◌∷◌, ◌++◌, IsByte, IsU32, ok, arith, ap,
  ◌∙◌,
}
use windows_rs.Runtime.Guid.{
  Guid, Eight, dash, digit, upper_hex, next_u8, next_pair, next_data1, next_data2, next_dash,
  from_str, fmt,
}

abbrev AreBytes : Eight → Type 0
AreBytes (d, e, f, g, h, i, j, k) =
    IsByte d × IsByte e × IsByte f × IsByte g × IsByte h × IsByte i × IsByte j × IsByte k

-- The widths of the fields.
abbrev pub IsGuid : Guid → Type 0
IsGuid g = IsU32 g.data1 × (g.data2 < 2 ^ 16) × (g.data3 < 2 ^ 16) × AreBytes g.data4

next_u8-digit : (d : ℕ) (bytes : List ℕ) → d < 16 → next_u8 (digit d ∷ bytes) ≡ ok (d, bytes)
unfolding next_u8
next_u8-digit d bytes h = ground arith

next_pair-digits :
    (a b : ℕ) (bytes : List ℕ)
    → a < 16
    → b < 16
    → next_pair (digit a ∷ digit b ∷ bytes) ≡ ok (a * 16 + b, bytes)
unfolding next_pair
next_pair-digits a b bytes h k =
    rw (next_u8-digit a (digit b ∷ bytes) h, next_u8-digit b bytes k) refl

next_pair-hex :
    (b : ℕ) (bytes : List ℕ) → IsByte b → next_pair (upper_hex 2 b ++ bytes) ≡ ok (b, bytes)
next_pair-hex b bytes h =
    next_pair-digits (b / 16 ^ 1 % 16) (b / 16 ^ 0 % 16) bytes (omega arith) (omega arith)
    ∙ ap (λ (t : ℕ). ok (t, bytes)) (omega arith)

next_data2-hex :
    (n : ℕ) (bytes : List ℕ) → n < 2 ^ 16 → next_data2 (upper_hex 4 n ++ bytes) ≡ ok (n, bytes)
unfolding next_data2
next_data2-hex n bytes h =
    rw
      (
        next_pair-digits (n / 16 ^ 3 % 16) (n / 16 ^ 2 % 16) (upper_hex 2 n ++ bytes) (omega arith)
            (omega arith),
        next_pair-digits (n / 16 ^ 1 % 16) (n / 16 ^ 0 % 16) bytes (omega arith) (omega arith),
      )
      (ap (λ (t : ℕ). ok (t, bytes)) (omega arith))

next_data1-hex :
    (n : ℕ) (bytes : List ℕ) → IsU32 n → next_data1 (upper_hex 8 n ++ bytes) ≡ ok (n, bytes)
unfolding next_data1
next_data1-hex n bytes h =
    rw
      (
        next_pair-digits (n / 16 ^ 7 % 16) (n / 16 ^ 6 % 16) (upper_hex 6 n ++ bytes) (omega arith)
            (omega arith),
        next_pair-digits (n / 16 ^ 5 % 16) (n / 16 ^ 4 % 16) (upper_hex 4 n ++ bytes) (omega arith)
            (omega arith),
        next_pair-digits (n / 16 ^ 3 % 16) (n / 16 ^ 2 % 16) (upper_hex 2 n ++ bytes) (omega arith)
            (omega arith),
        next_pair-digits (n / 16 ^ 1 % 16) (n / 16 ^ 0 % 16) bytes (omega arith) (omega arith),
      )
      (ap (λ (t : ℕ). ok (t, bytes)) (omega arith))

next_dash-dash : (bytes : List ℕ) → next_dash (dash ∷ bytes) ≡ ok bytes
unfolding next_dash
next_dash-dash bytes = refl

-- A guid is read back from what `Debug` prints of it.
pub from_str-fmt : (g : Guid) → IsGuid g → from_str (fmt g) ≡ ok g
unfolding from_str fmt
from_str-fmt g (h1, h2, h3, (d, e, f, f', h, i, j, k)) =
    let b = g.data4 in
    let t7 = upper_hex 2 b.7 in
    let t6 = upper_hex 2 b.6 ++ t7 in
    let t5 = upper_hex 2 b.5 ++ t6 in
    let t4 = upper_hex 2 b.4 ++ t5 in
    let t3 = upper_hex 2 b.3 ++ t4 in
    let t2 = upper_hex 2 b.2 ++ t3 in
    let t1 = upper_hex 2 b.1 ++ dash ∷ t2 in
    let t0 = upper_hex 2 b.0 ++ t1 in
    let c3 = upper_hex 4 g.data3 ++ dash ∷ t0 in
    let c2 = upper_hex 4 g.data2 ++ dash ∷ c3 in
    rw
      (
        next_data1-hex g.data1 (dash ∷ c2) h1,
        next_dash-dash c2,
        next_data2-hex g.data2 (dash ∷ c3) h2,
        next_dash-dash c3,
        next_data2-hex g.data3 (dash ∷ t0) h3,
        next_dash-dash t0,
        next_pair-hex b.0 t1 d,
        next_pair-hex b.1 (dash ∷ t2) e,
        next_dash-dash t2,
        next_pair-hex b.2 t3 f,
        next_pair-hex b.3 t4 f',
        next_pair-hex b.4 t5 h,
        next_pair-hex b.5 t6 i,
        next_pair-hex b.6 t7 j,
        next_pair-hex b.7 [] k,
      )
      refl
