-- ===== src/Metadata/File/Cells.antt =====
-- What `copy_as` and `u32` read, and that they stay inside the buffer.
use native.Mathlib.Nat.{mul-le-mul_right}
use windows_rs.Base.{
  ℕ, ◌+◌, ◌-◌, ◌*◌, ◌%◌, ◌<◌, ◌≤◌, ◌≡◌, ◌≢◌, List, ok, panic, Fault, length, get_elem?, some, take,
  drop, Mode, u32_mod, arith, trap, wrap,
}
use windows_rs.Base.Lists.{length-drop}
use windows_rs.Base.Bytes.{from_le_bytes}
use windows_rs.Base.Word.{add_u32, add_u32_ok, mul_u32_ok}
use windows_rs.Metadata.Table.{TableIndex, TableData}
use windows_rs.Metadata.File.{File, copy_as, read_width, u32, index}

-- The number in the `size` bytes at `offset`.
abbrev pub number_at : List ℕ → ℕ → ℕ → ℕ
number_at bytes size offset = from_le_bytes (take size (drop offset bytes))

pub copy_as_ok :
    (m : Mode) (bytes : List ℕ) (size offset : ℕ)
    → length bytes < u32_mod
    → offset + size ≤ length bytes
    → copy_as m bytes size offset ≡ ok (number_at bytes size offset)
unfolding copy_as
copy_as_ok m bytes size offset short inside =
    rw (add_u32_ok m offset size (omega arith)) (ground (arith, length-drop offset bytes))

-- In every build `copy_as` never reads past a buffer that ends more than `size` below 2 ^ 32: bytes that
-- are not there are answered by a panic.
pub copy_as_safe :
    (m : Mode) (bytes : List ℕ) (size offset : ℕ)
    → length bytes + size < u32_mod
    → offset < u32_mod
    → copy_as m bytes size offset ≢ panic Fault.undefined
unfolding copy_as add_u32
copy_as_safe trap bytes size offset short h = ground (arith, length-drop offset bytes)
copy_as_safe wrap bytes size offset short h = ground (arith, length-drop offset bytes)

-- The bound is needed: eight bytes can be asked for at the end of a buffer so long that the sum wraps.
pub copy_as_wraps :
    (bytes : List ℕ) (offset : ℕ)
    → length bytes ≡ u32_mod - 1
    → u32_mod - 8 ≤ offset
    → offset ≤ length bytes
    → copy_as wrap bytes 8 offset ≡ panic Fault.undefined
unfolding copy_as add_u32
copy_as_wraps bytes offset e lo hi = ground (arith, length-drop offset bytes)

pub index_ok {ℓ} :
    {A : Type ℓ} (xs : List A) (i : ℕ) {x : A} → get_elem? xs i ≡ some x → index xs i ≡ ok x
unfolding index
index_ok xs i e = rw (e, index)

-- The tables lie in the buffer, and a column that is not empty lies in its row.
pub record IsValid (f : File) : Type 0 where
  pub short : length f.bytes + 8 < u32_mod
  pub inside :
      (t : TableIndex)
      → (f.tables t).data_at + (f.tables t).row_count * (f.tables t).row_size ≤ length f.bytes
  pub fits :
      (t : TableIndex) (column offset width : ℕ)
      → get_elem? (f.tables t).columns column ≡ some (offset, width)
      → width ≢ 0
      → offset + read_width width ≤ (f.tables t).row_size

-- Where the cell of a row and a column stands.
abbrev pub cell_at : TableData → ℕ → ℕ → ℕ
cell_at t row offset = t.data_at + row * t.row_size + offset

-- In every build, for a row of a valid file and one of its columns that has a width: reading the cell returns the low 32
-- bits of the number, little-endian, that the buffer holds at the cell's place; a column of eight bytes is cut to them.
pub u32_cell :
    (m : Mode) (f : File) (row : ℕ) (table : TableIndex) (column offset width : ℕ)
    → IsValid f
    → row < (f.tables table).row_count
    → get_elem? (f.tables table).columns column ≡ some (offset, width)
    → width ≢ 0
    → u32 m f row table column
      ≡ ok (number_at f.bytes (read_width width) (cell_at (f.tables table) row offset) % u32_mod)
unfolding u32
u32_cell m f row table column offset width v h c n =
    let t : TableData = f.tables table in
    let below = mul-le-mul_right t.row_size h in
    let inside = v.inside table in
    let fits = v.fits table column offset width c n in
    rw (
      mul_u32_ok m row t.row_size (omega (arith, v.short)),
      add_u32_ok m t.data_at (row * t.row_size) (omega (arith, v.short)),
      index_ok t.columns column c,
      add_u32_ok m (t.data_at + row * t.row_size) offset (omega (arith, v.short)),
      copy_as_ok m f.bytes (read_width width) (cell_at t row offset) (omega (arith, v.short))
          (omega arith),
    )
