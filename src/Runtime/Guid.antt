-- ===== src/Runtime/Guid.antt =====
-- `Guid` (src/runtime/guid.rs): its text form in both directions and the guids made from signatures. A
-- string is the list of its bytes.
pub mod Text
pub mod Signed
use Prim.Native.Nat.{bit_and, bit_or}
use windows_rs.Base.{
  ℕ, suc, zero, ◌+◌, ◌-◌, ◌*◌, ◌/◌, ◌%◌, ◌^◌, Bool, ◌&&◌, leb, ltb, ◌==◌, if◌then◌else◌, List, [],
  ◌∷◌, ◌++◌, length, Fault, Outcome, ok, panic, ◌>>=◌, ◌>>◌, assert,
}

-- `[u8; 8]`
abbrev pub Eight : Type 0
Eight = ℕ × ℕ × ℕ × ℕ × ℕ × ℕ × ℕ × ℕ

pub record Guid : Type 0 where
  pub data1 : ℕ
  pub data2 : ℕ
  pub data3 : ℕ
  pub data4 : Eight

abbrev dash : ℕ
dash = 45

abbrev between : ℕ → ℕ → ℕ → Bool
between low high value = leb low value && leb value high

-- `HexReader::next_u8`: the value of the next digit, and the bytes after it. The arithmetic is on u8 and
-- its results fit.
unfoldable pub next_u8 : List ℕ → Outcome (ℕ × List ℕ)
next_u8 [] = panic Fault.unwrap_none
next_u8 (value ∷ bytes) =
    if between 48 57 value
    then ok (value - 48, bytes)
    else if between 65 70 value
    then ok (10 + value - 65, bytes)
    else if between 97 102 value
    then ok (10 + value - 97, bytes)
    else panic Fault.unexpected

-- `bytes.next_u8() * 16 + bytes.next_u8()`, also on u16 and u32
unfoldable pub next_pair : List ℕ → Outcome (ℕ × List ℕ)
next_pair bytes = do
  (high, bytes) ← next_u8 bytes
  (low, bytes) ← next_u8 bytes
  ok (high * 16 + low, bytes)

-- `data1`, and then `data2` or `data3`
unfoldable pub next_data1 : List ℕ → Outcome (ℕ × List ℕ)
next_data1 bytes = do
  (p, bytes) ← next_pair bytes
  (q, bytes) ← next_pair bytes
  (r, bytes) ← next_pair bytes
  (s, bytes) ← next_pair bytes
  ok (p * 2 ^ 24 + q * 2 ^ 16 + r * 2 ^ 8 + s, bytes)

unfoldable pub next_data2 : List ℕ → Outcome (ℕ × List ℕ)
next_data2 bytes = do
  (p, bytes) ← next_pair bytes
  (q, bytes) ← next_pair bytes
  ok (p * 2 ^ 8 + q, bytes)

-- `assert!(bytes.next().unwrap() == b'-')`
unfoldable pub next_dash : List ℕ → Outcome (List ℕ)
next_dash [] = panic Fault.unwrap_none
next_dash (c ∷ bytes) = if c == dash then ok bytes else panic Fault.unexpected

-- `From<&str>`
unfoldable pub from_str : List ℕ → Outcome Guid
from_str value = do
  assert (length value == 36) Fault.unexpected
  (a, bytes) ← next_data1 value
  bytes ← next_dash bytes
  (b, bytes) ← next_data2 bytes
  bytes ← next_dash bytes
  (c, bytes) ← next_data2 bytes
  bytes ← next_dash bytes
  (d, bytes) ← next_pair bytes
  (e, bytes) ← next_pair bytes
  bytes ← next_dash bytes
  (f, bytes) ← next_pair bytes
  (g, bytes) ← next_pair bytes
  (h, bytes) ← next_pair bytes
  (i, bytes) ← next_pair bytes
  (j, bytes) ← next_pair bytes
  (k, bytes) ← next_pair bytes
  ok (record { data1 = a; data2 = b; data3 = c; data4 = (d, e, f, g, h, i, j, k) })

-- An upper-case digit.
abbrev pub digit : ℕ → ℕ
digit d = if ltb d 10 then 48 + d else 55 + d

-- `{:0wX?}` of a number that has at most `w` digits
abbrev pub upper_hex : ℕ → ℕ → List ℕ
upper_hex zero n = []
upper_hex (suc w) n = digit (n / 16 ^ w % 16) ∷ upper_hex w n

-- `Debug`
unfoldable pub fmt : Guid → List ℕ
fmt g =
    let b = g.data4 in
    upper_hex 8 g.data1
    ++ dash ∷ upper_hex 4 g.data2
    ++ dash ∷ upper_hex 4 g.data3
    ++ dash ∷ upper_hex 2 b.0
    ++ upper_hex 2 b.1
    ++ dash ∷ upper_hex 2 b.2
    ++ upper_hex 2 b.3
    ++ upper_hex 2 b.4
    ++ upper_hex 2 b.5
    ++ upper_hex 2 b.6
    ++ upper_hex 2 b.7

-- An array of bytes, such as the digest that `const_sha1::sha1` returns.
abbrev pub Array : Type 0
Array = ℕ → ℕ

-- `from_values` of the digest's bytes, with the version and the variant set in the third and the fourth
-- part. `data` is the fixed namespace and the signature.
unfoldable pub from_digest : Array → Guid
from_digest bytes =
    let first = bytes 0 * 2 ^ 24 + bytes 1 * 2 ^ 16 + bytes 2 * 2 ^ 8 + bytes 3 in
    let second = bytes 4 * 2 ^ 8 + bytes 5 in
    let third = bit_or (bit_and (bytes 6 * 2 ^ 8 + bytes 7) 0xfff) (5 * 2 ^ 12) in
    let fourth = bit_or (bit_and (bytes 8) 0x3f) 0x80 in
    record {
      data1 = first;
      data2 = second;
      data3 = third;
      data4 = (fourth, bytes 9, bytes 10, bytes 11, bytes 12, bytes 13, bytes 14, bytes 15);
    }

abbrev pub namespace : List ℕ
namespace =
    0x11 ∷ 0xf4 ∷ 0x7a ∷ 0xd5 ∷ 0x7b ∷ 0x73 ∷ 0x42 ∷ 0xc0 ∷ 0xab ∷ 0xae ∷ 0x87 ∷ 0x8b ∷ 0x1e ∷ 0x16
    ∷ 0xad ∷ 0xee ∷ []

unfoldable pub from_signature : (List ℕ → Array) → List ℕ → Guid
unfolding from_digest
from_signature sha1 signature = from_digest (sha1 (namespace ++ signature))
