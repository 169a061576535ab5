-- ===== src/Tests/Samples.antt =====
-- A small metadata file: every table has four rows of two bytes, the first and only column.
use windows_rs.Base.{ℕ, zero, suc, ◌+◌, ◌≤◌, ◌≡◌, ◌≢◌, [], ◌∷◌, some, get_elem?, arith}
use windows_rs.Metadata.Table.{TableIndex, TableData}
use windows_rs.Metadata.File.{File, read_width}
use windows_rs.Metadata.File.Cells.{IsValid}
use windows_rs.Metadata.Search.Columns.{Ascends}

abbrev pub cells : TableData
cells = record {
  data_at = 1;
  row_count = 4;
  row_size = 2;
  columns = (0, 2) ∷ (0, 0) ∷ (0, 0) ∷ (0, 0) ∷ (0, 0) ∷ (0, 0) ∷ [];
}

-- Cells 3, 5, 5 and 9; at 9 a blob of 300 bytes begins, whose header is 0x81 0x2c.
abbrev pub sample : File
sample = record {
  name = "sample.winmd";
  bytes = 0 ∷ 3 ∷ 0 ∷ 5 ∷ 0 ∷ 5 ∷ 0 ∷ 9 ∷ 0 ∷ 0x81 ∷ 0x2c ∷ 7 ∷ [];
  bytes_at = 4096;
  strings = 0;
  blobs = 0;
  tables = λ t. cells;
}

column_fits :
    (column offset width : ℕ)
    → get_elem? cells.columns column ≡ some (offset, width)
    → width ≢ 0
    → offset + read_width width ≤ 2
column_fits zero offset width h n = ground arith
column_fits (suc zero) offset width h n = ground arith
column_fits (suc (suc zero)) offset width h n = ground arith
column_fits (suc (suc (suc zero))) offset width h n = ground arith
column_fits (suc (suc (suc (suc zero)))) offset width h n = ground arith
column_fits (suc (suc (suc (suc (suc zero))))) offset width h n = ground arith
column_fits (suc (suc (suc (suc (suc (suc k)))))) offset width h n = cc

pub sample-IsValid : IsValid sample
sample-IsValid = record { short = omega arith; inside = λ t. omega arith; fits = λ t. column_fits }

pub sample-Ascends : (table : TableIndex) → Ascends sample table 0 2
sample-Ascends table zero zero p q = omega arith
sample-Ascends table (suc i) zero p q = absurd (omega arith)
sample-Ascends table zero (suc zero) p q = omega arith
sample-Ascends table (suc zero) (suc zero) p q = omega arith
sample-Ascends table (suc (suc i)) (suc zero) p q = absurd (omega arith)
sample-Ascends table zero (suc (suc zero)) p q = omega arith
sample-Ascends table (suc zero) (suc (suc zero)) p q = omega arith
sample-Ascends table (suc (suc zero)) (suc (suc zero)) p q = omega arith
sample-Ascends table (suc (suc (suc i))) (suc (suc zero)) p q = absurd (omega arith)
sample-Ascends table zero (suc (suc (suc zero))) p q = omega arith
sample-Ascends table (suc zero) (suc (suc (suc zero))) p q = omega arith
sample-Ascends table (suc (suc zero)) (suc (suc (suc zero))) p q = omega arith
sample-Ascends table (suc (suc (suc zero))) (suc (suc (suc zero))) p q = omega arith
sample-Ascends table (suc (suc (suc (suc i)))) (suc (suc (suc zero))) p q = absurd (omega arith)
sample-Ascends table i (suc (suc (suc (suc j)))) p q = absurd (omega arith)
