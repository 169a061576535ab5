-- ===== src/Metadata/File.antt =====
-- `File` of crates/gen/src/parser/file.rs, with `Row` (row.rs) and `Blob` (blob.rs), which it hands
-- out: how a cell, a name and a blob are read from the bytes of a .winmd file. Integers in the file are
-- read as the machine stores them, and the machine is taken to be little-endian.
pub mod Cells
pub mod Blobs
use Prim.Native.Nat.{bit_and}
use Prim.Native.String.{String}
use windows_rs.Base.{
  ℕ, zero, suc, ◌+◌, ◌-◌, ◌*◌, ◌/◌, ◌%◌, ◌^◌, List, [], ◌∷◌, map, Bool, true, false, ltb, leb, ◌==◌,
  if◌then◌else◌, Option, none, some, Fault, Outcome, ok, panic, ◌>>=◌, ◌>>◌, assert, length,
  get_elem?, take, drop, Mode, u32_mod, u64_mod,
}
use windows_rs.Base.Bytes.{from_le_bytes}
use windows_rs.Base.Word.{add_u32, mul_u32, sub_u32}
use windows_rs.Metadata.Table.{TableIndex, TableData}

-- `bytes_at` is the address of the buffer, `bytes.as_ptr()`, by which rows are told apart.
pub record File : Type 0 where
  pub name : String
  pub bytes : List ℕ
  pub bytes_at : ℕ
  pub strings : ℕ
  pub blobs : ℕ
  pub tables : TableIndex → TableData

pub record Row : Type 0 where
  pub row : ℕ
  pub table : TableIndex
  pub file : File

-- `Row::new`
abbrev pub new_row : ℕ → TableIndex → File → Row
new_row row table f = record { row = row; table = table; file = f }

pub record Blob : Type 0 where
  pub file : File
  pub offset : ℕ
  pub size : ℕ

-- `bytes[i]`
unfoldable pub index {ℓ} : {A : Type ℓ} → List A → ℕ → Outcome A
index xs i = elim (get_elem? xs i) [ none ↦ panic Fault.out_of_bounds | some x ↦ ok x ]

-- `&bytes[from..]`
unfoldable pub slice_from : List ℕ → ℕ → Outcome (List ℕ)
slice_from bytes from =
    if leb from (length bytes) then ok (drop from bytes) else panic Fault.out_of_bounds

-- `&bytes[from..to]`
unfoldable pub slice : List ℕ → ℕ → ℕ → Outcome (List ℕ)
slice bytes from to =
    if leb from to
    then (if leb to (length bytes)
        then ok (take (to - from) (drop from bytes))
        else panic Fault.out_of_bounds)
    else panic Fault.out_of_bounds

-- `assert_proper_length!`; the length is cast to u32.
unfoldable pub assert_proper_length : Mode → List ℕ → ℕ → ℕ → Outcome (Unit {0})
assert_proper_length m bytes offset size = do
  end ← add_u32 m offset size
  assert (leb end (length bytes % u32_mod)) Fault.invalid_file

-- `copy_as` at an unsigned type of `size` bytes. The copy itself is unsafe: nothing but the assertion
-- keeps it inside the buffer.
unfoldable pub copy_as : Mode → List ℕ → ℕ → ℕ → Outcome ℕ
unfolding assert_proper_length slice_from
copy_as m bytes size offset = do
  assert_proper_length m bytes offset size
  source ← slice_from bytes offset
  if leb size (length source) then ok (from_le_bytes (take size source)) else panic Fault.undefined

-- The type that a column of this width is read at.
abbrev pub read_width : ℕ → ℕ
read_width w = if w == 1 then 1 else if w == 2 then 2 else if w == 4 then 4 else 8

unfoldable pub u32 : Mode → File → ℕ → TableIndex → ℕ → Outcome ℕ
unfolding copy_as index
u32 m f row table column = do
  let t = f.tables table
  rows ← mul_u32 m row t.row_size
  start ← add_u32 m t.data_at rows
  cell ← index t.columns column
  offset ← add_u32 m start cell.0
  value ← copy_as m f.bytes (read_width cell.1) offset
  ok (value % u32_mod)

unfoldable pub until_nul : List ℕ → List ℕ
until_nul [] = []
until_nul (c ∷ rest) = let more = until_nul rest in if c == 0 then [] else c ∷ more

unfoldable pub str : Mode → File → ℕ → TableIndex → ℕ → Outcome (List ℕ)
unfolding u32 slice_from until_nul
str m f row table column = do
  at ← u32 m f row table column
  offset ← add_u32 m f.strings at
  rest ← slice_from f.bytes offset
  ok (until_nul rest)

-- The rows `first..last` of a table.
unfoldable pub rows_from : ℕ → ℕ → TableIndex → File → List Row
rows_from zero first table f = []
rows_from (suc n) first table f = new_row first table f ∷ rows_from n (first + 1) table f

abbrev pub rows_between : ℕ → ℕ → TableIndex → File → List Row
rows_between first last = rows_from (last - first) first

-- The rows of `table` that belong to `row`: up to the first of the next row, or to the table's end.
unfoldable pub list : Mode → File → Row → TableIndex → ℕ → Outcome (List Row)
unfolding u32 rows_from
list m f row table column = do
  mark ← u32 m f row.row row.table column
  first ← sub_u32 m mark 1
  next ← add_u32 m row.row 1
  last ←
      if ltb next (f.tables row.table).row_count
      then (do mark ← u32 m f next row.table column; sub_u32 m mark 1)
      else ok (f.tables table).row_count
  ok (rows_between first last table f)

-- The value that the first byte of a blob holds, and the bytes that hold the blob's size.
unfoldable pub size_prefix : ℕ → Outcome (ℕ × ℕ)
size_prefix byte =
    if leb (byte / 2 ^ 5) 3
    then ok (bit_and byte 0x7f, 1)
    else if leb (byte / 2 ^ 5) 5
    then ok (bit_and byte 0x3f, 2)
    else if byte / 2 ^ 5 == 6
    then ok (bit_and byte 0x1f, 4)
    else panic Fault.unexpected

-- The shift drops what leaves 64 bits, and the byte then fills the low bits.
unfoldable pub add_bytes : ℕ → List ℕ → ℕ
add_bytes size [] = size
add_bytes size (byte ∷ rest) = add_bytes (size * 2 ^ 8 % u64_mod + byte) rest

unfoldable pub blob : Mode → File → ℕ → TableIndex → ℕ → Outcome Blob
unfolding u32 index size_prefix slice add_bytes
blob m f row table column = do
  at ← u32 m f row table column
  offset ← add_u32 m f.blobs at
  initial_byte ← index f.bytes offset
  prefix ← size_prefix initial_byte
  more ← slice f.bytes (offset + 1) (offset + prefix.1)
  ok (record { file = f; offset = offset + prefix.1; size = add_bytes prefix.0 more })
