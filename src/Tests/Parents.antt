-- ===== src/Tests/Parents.antt =====
-- The fields that a type of the sample file lists.
use windows_rs.Base.{◌≡◌, refl, List, All, ok, trap, arith}
use windows_rs.Metadata.Table.{TableIndex}
use windows_rs.Metadata.File.{Row, new_row, list}
use windows_rs.Metadata.Types.{from_row}
use windows_rs.Metadata.Rows.{parent}
use windows_rs.Metadata.Rows.Parents.{list-parent}
use windows_rs.Tests.Samples.{sample, sample-IsValid, sample-Ascends}

list-parent_example :
    (rs : List Row) × (list trap sample (new_row 0 TableIndex.type_def sample) TableIndex.field 0
      ≡ ok rs)
    × All (λ r. parent trap 0 r ≡ ok (from_row (new_row 0 TableIndex.type_def sample))) rs
list-parent_example =
    list-parent trap sample TableIndex.field 0 0 2 sample-IsValid (omega arith) (omega arith) refl
      (omega arith) (sample-Ascends TableIndex.type_def) 0 (omega arith) (omega arith)
