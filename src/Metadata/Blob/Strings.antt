-- ===== src/Metadata/Blob/Strings.antt =====
-- The strings of a blob: `read_str` and `read_utf16` of crates/gen/src/parser/blob.rs. A string is the list of its
-- bytes; one that is read as UTF-16 is the list of its units, and has to be free of lone surrogates.
use windows_rs.Base.{
  ℕ, ◌+◌, ◌-◌, ◌*◌, ◌/◌, ◌%◌, List, [], ◌∷◌, Bool, true, false, ◌&&◌, ◌==◌, leb, if◌then◌else◌,
  Fault, Outcome, ok, ◌>>=◌, ◌>>◌, assert, length, take,
}
use windows_rs.Base.Text.{Text}
use windows_rs.Base.Utf8.{is_utf8}
use windows_rs.Metadata.File.{Blob, slice, slice_from}
use windows_rs.Metadata.Blob.{read_unsigned, advance, read_le}

-- The bytes that end where the cursor has moved to.
unfoldable pub read_str : Blob → Outcome (Text × Blob)
unfolding read_unsigned slice is_utf8
read_str b = do
  (len, b1) ← read_unsigned b
  let b2 = advance b1 len
  taken ← slice b.file.bytes (b2.offset - len) b2.offset
  assert (is_utf8 taken) Fault.unexpected
  ok (taken, b2)

-- `u16` values of pairs of bytes, the lower one first; an odd byte at the end is left out.
unfoldable pub units : List ℕ → List ℕ
units [] = []
units (low ∷ []) = []
units (low ∷ high ∷ rest) = (low + high * 256) ∷ units rest

abbrev is_high : ℕ → Bool
is_high unit = leb 0xd800 unit && leb unit 0xdbff

abbrev is_low : ℕ → Bool
is_low unit = leb 0xdc00 unit && leb unit 0xdfff

-- Whether every surrogate stands in a pair: what `String::from_utf16` asks for.
unfoldable pub is_utf16 : List ℕ → Bool
is_utf16 [] = true
is_utf16 (unit ∷ []) = if is_high unit then false else if is_low unit then false else true
is_utf16 (unit ∷ next ∷ rest) =
    let paired = is_low next && is_utf16 rest in
    let single = is_utf16 (next ∷ rest) in
    if is_high unit then paired else if is_low unit then false else single

-- Where the address is odd, the units are read as far as there are bytes; else the size is checked.
unfoldable pub read_utf16 : Blob → Outcome (List ℕ)
unfolding slice_from units is_utf16
read_utf16 b = do
  bytes ← slice_from b.file.bytes b.offset
  let whole = do
    assert (leb b.size (length bytes)) Fault.unexpected
    ok (take (b.size / 2) (units bytes))
  found ←
      if (b.file.bytes_at + b.offset) % 2 == 0 then whole else ok (take (b.size / 2) (units bytes))
  assert (is_utf16 found) Fault.unexpected
  ok found

-- `read_u8`, `read_u16`, `read_u32` and `read_u64`, and those at signed types
abbrev pub read_u8 : Blob → Outcome (ℕ × Blob)
read_u8 = read_le 1

abbrev pub read_u16 : Blob → Outcome (ℕ × Blob)
read_u16 = read_le 2

abbrev pub read_u32 : Blob → Outcome (ℕ × Blob)
read_u32 = read_le 4

abbrev pub read_u64 : Blob → Outcome (ℕ × Blob)
read_u64 = read_le 8
