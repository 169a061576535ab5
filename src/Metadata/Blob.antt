-- ===== src/Metadata/Blob.antt =====
-- The cursor of crates/gen/src/parser/blob.rs over the bytes of a blob. Offsets are usize, and stay far
-- below 2 ^ 64, since every read is checked against the buffer.
pub mod Numbers
pub mod Strings
use Prim.Native.Nat.{bit_and, bit_or}
use windows_rs.Base.{
  ℕ, zero, suc, ◌+◌, ◌-◌, List, [], ◌∷◌, ◌++◌, Bool, true, false, ◌==◌, not, ◌&&◌, if◌then◌else◌,
  Fault, Outcome, ok, panic, ◌>>=◌, ◌>>◌, length, Mode,
}
use windows_rs.Base.Bytes.{from_le_bytes}
use windows_rs.Base.Word.{shl_u32}
use windows_rs.Metadata.File.{File, Blob, index, slice_from, slice}
use windows_rs.Metadata.Codes.TypeDefOrRef.{TypeDefOrRef, decode}

-- `bytes(&self)`
unfoldable pub rest : Blob → Outcome (List ℕ)
unfolding slice_from
rest b = slice_from b.file.bytes b.offset

unfoldable pub peek_unsigned : Blob → Outcome (ℕ × ℕ)
unfolding rest index
peek_unsigned b = do
  bytes ← rest b
  first ← index bytes 0
  if bit_and first 0x80 == 0
      then ok (first, 1)
      else if bit_and first 0xc0 == 0x80
      then (do second ← index bytes 1; ok (bit_or (shl_u32 (bit_and first 0x3f) 8) second, 2))
      else (do
        second ← index bytes 1
        third ← index bytes 2
        fourth ← index bytes 3
        ok (
          bit_or
              (bit_or (bit_or (shl_u32 (bit_and first 0x1f) 24) (shl_u32 second 16))
                (shl_u32 third 8))
              fourth,
          4,
        ))

-- `self.offset += n`
abbrev pub advance : Blob → ℕ → Blob
advance b n = record b { offset = b.offset + n }

unfoldable pub read_unsigned : Blob → Outcome (ℕ × Blob)
unfolding peek_unsigned
read_unsigned b = do (value, offset) ← peek_unsigned b; ok (value, advance b offset)

unfoldable pub read_expected : Blob → ℕ → Outcome (Bool × Blob)
unfolding peek_unsigned
read_expected b expected = do
  (value, offset) ← peek_unsigned b
  ok (if value == expected then (true, advance b offset) else (false, b))

-- Every round moves on by a byte, and past the end the read panics, so one round more than there are
-- bytes is enough.
unfoldable pub modifiers_loop :
    Mode → ℕ → Blob → List TypeDefOrRef → Outcome (List TypeDefOrRef × Blob)
unfolding peek_unsigned read_unsigned
modifiers_loop m zero b mods = panic Fault.out_of_fuel
modifiers_loop m (suc fuel) b mods = do
  (value, offset) ← peek_unsigned b
  let push = do
    (code, after) ← read_unsigned (advance b offset)
    modifier ← decode m b.file code
    modifiers_loop m fuel after (mods ++ (modifier ∷ []))
  if not (value == 32) && not (value == 31) then ok (mods, b) else push

unfoldable pub read_modifiers : Mode → Blob → Outcome (List TypeDefOrRef × Blob)
unfolding modifiers_loop
read_modifiers m b = modifiers_loop m (suc (length b.file.bytes)) b []

-- `read_u8` to `read_u64` at 1, 2, 4 and 8 bytes; the signed and floating reads give the same bits.
unfoldable pub read_le : ℕ → Blob → Outcome (ℕ × Blob)
unfolding rest slice
read_le size b = do
  bytes ← rest b
  taken ← slice bytes 0 size
  ok (from_le_bytes taken, advance b size)
