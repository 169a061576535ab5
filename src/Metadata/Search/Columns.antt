-- ===== src/Metadata/Search/Columns.antt =====
-- The searches in a valid file, on a column whose cells ascend.
use windows_rs.Base.{
  ℕ, suc, ◌+◌, ◌-◌, ◌%◌, ◌<◌, ◌≤◌, ◌≡◌, ◌≢◌, some, get_elem?, ok, Outcome, Mode, u32_mod, arith,
}
use windows_rs.Base.Word.{sub_u32_ok}
use windows_rs.Metadata.Table.{TableIndex}
use windows_rs.Metadata.File.{File, read_width, u32, rows_between}
use windows_rs.Metadata.File.Cells.{IsValid, number_at, cell_at, u32_cell}
use windows_rs.Metadata.Search.{lower_bound_of, upper_bound_of, equal_range_of, equal_range}
use windows_rs.Metadata.Search.Bounds.{Parts, lower_bound-Parts, upper_bound-Parts}
use windows_rs.Metadata.Search.Ranges.{IsRange, range_loop-IsRange}

-- What the file holds in a row of a column that is found at `offset` with `width`.
abbrev pub stored : File → TableIndex → ℕ → ℕ → ℕ → ℕ
stored f table offset width row =
    number_at f.bytes (read_width width) (cell_at (f.tables table) row offset) % u32_mod

abbrev pub Ascends : File → TableIndex → ℕ → ℕ → Type 0
Ascends f table offset width =
    (i j : ℕ)
    → i ≤ j
    → j < (f.tables table).row_count
    → stored f table offset width i ≤ stored f table offset width j

module _ (m : Mode) (f : File) (table : TableIndex) (column offset width value : ℕ)
    (valid : IsValid f) (counted : (f.tables table).row_count < u32_mod)
    (here : get_elem? (f.tables table).columns column ≡ some (offset, width)) (wide : width ≢ 0)
    (ascends : Ascends f table offset width) where
  abbrev cell : ℕ → Outcome ℕ
  cell row = u32 m f row table column

  reads :
      (row : ℕ) → row < (f.tables table).row_count → cell row ≡ ok (stored f table offset width row)
  reads row h = u32_cell m f row table column offset width valid h here wide

  -- In every build, for a table of a valid file with fewer than 2 ^ 32 rows, and one of its columns that has a width and
  -- whose cells, read as u32, ascend: the upper bound between two rows parts the rows between them into those whose cell is
  -- at most `value` and those whose cell is above it.
  pub upper_bound_of-Parts :
      (first last : ℕ)
      → first ≤ last
      → last ≤ (f.tables table).row_count
      → (r : ℕ) × (upper_bound_of m f table first last column value ≡ ok r)
        × Parts (stored f table offset width) (value + 1) first last r
  unfolding upper_bound_of
  upper_bound_of-Parts =
      upper_bound-Parts m cell (stored f table offset width) (f.tables table).row_count counted
        reads ascends value

  -- Under the same conditions, the lower bound parts them into cells below `value` and cells not below it.
  pub lower_bound_of-Parts :
      (first last : ℕ)
      → first ≤ last
      → last ≤ (f.tables table).row_count
      → (r : ℕ) × (lower_bound_of m f table first last column value ≡ ok r)
        × Parts (stored f table offset width) value first last r
  unfolding lower_bound_of
  lower_bound_of-Parts =
      lower_bound-Parts m cell (stored f table offset width) (f.tables table).row_count counted
        reads ascends value

  pub equal_range_of-IsRange :
      (first last : ℕ)
      → first ≤ last
      → last ≤ (f.tables table).row_count
      → (a b : ℕ) × (equal_range_of m f table first last column value ≡ ok (a, b))
        × IsRange (stored f table offset width) value first last a b
  unfolding equal_range_of
  equal_range_of-IsRange first last h l = rw (sub_u32_ok m last first h) (
      range_loop-IsRange m cell (stored f table offset width) (f.tables table).row_count counted
        reads ascends value (suc (last - first)) first (last - first) last (omega arith)
        (omega arith) l)

  -- In every build, for a table of a valid file with fewer than 2 ^ 32 rows, and one of its columns that has a width and
  -- whose cells, read as u32, ascend: `equal_range` returns the rows of the table whose cell is `value`. They are the rows
  -- a..b, before them the cells are smaller and behind them larger.
  pub equal_range-rows :
      (a b : ℕ) × (equal_range m f table column value ≡ ok (rows_between a b table f))
      × IsRange (stored f table offset width) value 0 (f.tables table).row_count a b
  unfolding equal_range
  equal_range-rows =
      let (a, b, e, p) =
        equal_range_of-IsRange 0 (f.tables table).row_count (omega arith) (omega arith) in
      (a, b, rw e, p)
