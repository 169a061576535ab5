-- ===== src/Metadata/Loader.antt =====
-- `File::from_bytes` of crates/gen/src/parser/file.rs from the header of the tables on: the row counts, the
-- layout of every table and the places of their rows. A table goes by its number in the metadata format;
-- the source has a variable for each, and keeps seventeen of them in the file.
pub mod Numbers
pub mod Choices
pub mod Indices
pub mod Columns
pub mod Places
pub mod Sections
use Prim.Native.Nat.{bit_and}
use windows_rs.Base.{
  ℕ, zero, suc, ◌+◌, ◌*◌, ◌/◌, ◌%◌, ◌^◌, Bool, true, false, ◌||◌, ◌==◌, if◌then◌else◌, List, [],
  ◌∷◌, map, Fault, Outcome, ok, panic, ◌>>=◌, ◌>>◌, Mode,
}
use windows_rs.Base.Word.{add_u32}
use windows_rs.Metadata.Table.{
  TableData, empty_table, index_size, set_columns, set_data, composite_index_size,
}
use windows_rs.Metadata.File.{copy_as}
use windows_rs.Metadata.Loader.Choices.{Tables}
use windows_rs.Metadata.Loader.Indices.{heap_widths, code_widths}
use windows_rs.Metadata.Loader.Columns.{update, column_widths, set_all_columns}

abbrev is_in : ℕ → List ℕ → Bool
is_in i [] = false
is_in i (j ∷ js) = (i == j) || is_in i js

-- The loop over the bits of `valid_bits`, from bit `i` on for the given number of rounds. Returns the
-- tables with their row counts, and the position behind the counts.
unfoldable pub read_counts : Mode → List ℕ → ℕ → ℕ → ℕ → ℕ → Tables → Outcome (Tables × ℕ)
read_counts m bytes valid_bits zero i view ts = ok (ts, view)
read_counts m bytes valid_bits (suc rounds) i view ts =
    let absent = read_counts m bytes valid_bits rounds (i + 1) view ts in
    let present = do
      row_count ← copy_as m bytes 4 view
      next ← add_u32 m view 4
      let counted = update ts i (record (ts i) { row_count = row_count })
      let later = read_counts m bytes valid_bits rounds (i + 1) next counted
      if is_in i Numbers.known then later else panic Fault.unexpected
    in if bit_and (valid_bits / 2 ^ i) 1 == 0 then absent else present

unfoldable pub set_all_data : Mode → List ℕ → Tables → ℕ → Outcome (Tables × ℕ)
set_all_data m [] ts view = ok (ts, view)
set_all_data m (i ∷ is) ts view = do
  (t, next) ← set_data m (ts i) view
  set_all_data m is (update ts i t) next

-- `tables_at` is where the stream of the tables begins, `tables_data.0`. Returns the tables and the position
-- behind the rows of the last one placed.
unfoldable pub load_tables : Mode → List ℕ → ℕ → Outcome (Tables × ℕ)
unfolding read_counts code_widths column_widths set_all_columns set_all_data
load_tables m bytes tables_at = do
  sizes_at ← add_u32 m tables_at 6
  heap_sizes ← copy_as m bytes 1 sizes_at
  bits_at ← add_u32 m tables_at 8
  valid_bits ← copy_as m bytes 8 bits_at
  view ← add_u32 m tables_at 24
  (counted, after) ← read_counts m bytes valid_bits 64 0 view (λ i. empty_table)
  codes ← code_widths m counted
  laid_out ← set_all_columns m (column_widths (heap_widths heap_sizes) codes) counted
  set_all_data m Numbers.placing_order laid_out after
