-- ===== src/Metadata/Blob/Numbers.antt =====
-- `peek_unsigned` against the specification of compressed numbers.
use Prim.Native.Nat.{bit_and}
use windows_rs.Base.{
  ℕ, ◌+◌, ◌/◌, ◌%◌, ◌^◌, ◌≡◌, refl, ap, List, ◌∷◌, ◌++◌, ◌==◌, true, false, if◌then◌else◌, ok,
  length, drop, length-of_drop, drop-drop, arith,
}
use windows_rs.Base.Tests.{le→leb}
use windows_rs.Metadata.File.{Blob}
use windows_rs.Metadata.Compressed.{
  compressed, IsCompressible, one, two, four, form, low_six, low_five, top_bit, top_two_bits,
  two_bytes, four_bytes,
}
use windows_rs.Metadata.Blob.{rest, peek_unsigned, read_unsigned, read_expected, advance}

rest_ok : (b : Blob) {x : ℕ} {l : List ℕ} → drop b.offset b.file.bytes ≡ x ∷ l → rest b ≡ ok (x ∷ l)
unfolding rest
rest_ok b {x} {l} h =
    rw
      (le→leb b.offset (length b.file.bytes)
        (omega (arith, length-of_drop b.offset b.file.bytes h)))
      (ap ok h)

pub peek_unsigned-compressed :
    (b : Blob) (n : ℕ) (after : List ℕ)
    → IsCompressible n
    → drop b.offset b.file.bytes ≡ compressed n ++ after
    → peek_unsigned b ≡ ok (n, length (compressed n))
unfolding peek_unsigned
peek_unsigned-compressed b n after h e = elim (form n) [
  | one k c ↦
      let shape : drop b.offset b.file.bytes ≡ n ∷ after = rw c at e in
      let clear : bit_and n 0x80 ≡ 0 = omega (arith, top_bit n (omega arith)) in
      rw (c, rest_ok b shape, clear)
  | two k l c ↦
      let first : ℕ = n / 2 ^ 8 + 0x80 in
      let shape : drop b.offset b.file.bytes ≡ first ∷ (n % 2 ^ 8) ∷ after = rw c at e in
      let set : bit_and first 0x80 ≡ 0x80 = omega (arith, top_bit first (omega arith)) in
      let tag : bit_and first 0xc0 ≡ 0x80 = omega (arith, top_two_bits first (omega arith)) in
      let value : bit_and first 0x3f ≡ n / 2 ^ 8 = omega (arith, low_six first) in
      rw
        (
          c,
          rest_ok b shape,
          set,
          tag,
          value,
          two_bytes (n / 2 ^ 8) (n % 2 ^ 8) (omega arith) (omega arith),
        )
        (ap (λ (v : ℕ). ok (v, 2)) (omega arith))
  | four k c ↦
      let first : ℕ = n / 2 ^ 24 + 0xc0 in
      let second : ℕ = n / 2 ^ 16 % 2 ^ 8 in
      let third : ℕ = n / 2 ^ 8 % 2 ^ 8 in
      let shape : drop b.offset b.file.bytes ≡ first ∷ second ∷ third ∷ (n % 2 ^ 8) ∷ after =
        rw c at e in
      let set : bit_and first 0x80 ≡ 0x80 = omega (arith, top_bit first (omega arith)) in
      let tag : bit_and first 0xc0 ≡ 0xc0 = omega (arith, top_two_bits first (omega arith)) in
      let value : bit_and first 0x1f ≡ n / 2 ^ 24 = omega (arith, low_five first) in
      rw
        (
          c,
          rest_ok b shape,
          set,
          tag,
          value,
          four_bytes (n / 2 ^ 24) second third (n % 2 ^ 8) (omega arith) (omega arith) (omega arith)
              (omega arith),
        )
        (ap (λ (v : ℕ). ok (v, 4)) (omega arith))
]

-- `read_unsigned` reads a compressed number that the cursor stands at and moves behind it.
pub read_unsigned-compressed :
    (b : Blob) (n : ℕ) (after : List ℕ)
    → IsCompressible n
    → drop b.offset b.file.bytes ≡ compressed n ++ after
    → (read_unsigned b ≡ ok (n, advance b (length (compressed n))))
      × (drop (b.offset + length (compressed n)) b.file.bytes ≡ after)
unfolding read_unsigned
read_unsigned-compressed b n after h e = (
  rw (peek_unsigned-compressed b n after h e),
  drop-drop b.offset _ b.file.bytes (compressed n) after e refl,
)

-- `read_expected` takes the number exactly if it is the one expected, and else stays where it is.
pub read_expected-compressed :
    (b : Blob) (n expected : ℕ) (after : List ℕ)
    → IsCompressible n
    → drop b.offset b.file.bytes ≡ compressed n ++ after
    → read_expected b expected
      ≡ ok (if n == expected then (true, advance b (length (compressed n))) else (false, b))
unfolding read_expected
read_expected-compressed b n expected after h e = rw (peek_unsigned-compressed b n after h e)
