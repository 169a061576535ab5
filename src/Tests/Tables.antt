-- ===== src/Tests/Tables.antt =====
-- Column layouts and index widths.
use windows_rs.Base.{ℕ, ◌≡◌, ◌⊎◌, refl, [], ◌∷◌, ok, trap, arith, All}
use windows_rs.Metadata.Table.{
  TableData, empty_table, set_columns, composite_index_size, bits_needed, bits_loop, all_small,
  small,
}
use windows_rs.Base.Word.{add_u32, sub_at, shl_one_u64}
use windows_rs.Metadata.Table.Width.{IsLeast, Fits, composite_index_size-exact}

-- The columns of TypeDef in a small file.
abbrev type_def_table : TableData
type_def_table = record empty_table {
  row_size = 14;
  columns = (0, 4) ∷ (4, 2) ∷ (6, 2) ∷ (8, 2) ∷ (10, 2) ∷ (12, 2) ∷ [];
}

set_columns-type_def : set_columns trap empty_table 4 2 2 2 2 2 ≡ ok type_def_table
unfolding set_columns add_u32
set_columns-type_def = refl

abbrev large : TableData
large = record empty_table { row_count = 20000 }

-- Three tables want two bits, so 20000 rows, which fit 16 bits alone, want 4 bytes.
composite_index_size-large :
    composite_index_size trap (empty_table ∷ large ∷ empty_table ∷ []) ≡ ok 4
unfolding composite_index_size bits_needed bits_loop all_small small sub_at shl_one_u64
composite_index_size-large = refl

composite_index_size-exact_example :
    (b : ℕ) × IsLeast 3 b
    × (((composite_index_size trap (empty_table ∷ large ∷ empty_table ∷ []) ≡ ok 2)
          × All (Fits b) (empty_table ∷ large ∷ empty_table ∷ []))
        ⊎ ((composite_index_size trap (empty_table ∷ large ∷ empty_table ∷ []) ≡ ok 4)
            × ¬ All (Fits b) (empty_table ∷ large ∷ empty_table ∷ [])))
composite_index_size-exact_example =
    composite_index_size-exact trap (empty_table ∷ large ∷ empty_table ∷ []) (omega arith)
      (omega arith)
