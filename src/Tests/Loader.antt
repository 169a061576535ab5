-- ===== src/Tests/Loader.antt =====
-- The places of two tables, and a layout.
use windows_rs.Base.{◌+◌, ◌≡◌, ok, trap, arith, ◌==◌, if◌then◌else◌}
use windows_rs.Metadata.Table.{empty_table}
use windows_rs.Metadata.Loader.{set_all_data}
use windows_rs.Metadata.Loader.Choices.{Tables}
use windows_rs.Metadata.Loader.Numbers
use windows_rs.Metadata.Loader.Numbers.{placing_order}
use windows_rs.Metadata.Loader.Places.{
  Stacked, SameRows, total_size, described_numbers, set_all_data-described,
}

-- Three types and five fields.
abbrev two_tables : Tables
two_tables = λ i.
    if i == Numbers.type_def
    then record empty_table { row_count = 3; row_size = 14 }
    else if i == Numbers.field
    then record empty_table { row_count = 5; row_size = 6 }
    else empty_table

set_all_data-described_example :
    (us : Tables) × (set_all_data trap placing_order two_tables 100
      ≡ ok (us, 100 + total_size two_tables described_numbers))
    × Stacked us described_numbers 100
    × SameRows two_tables us
set_all_data-described_example = set_all_data-described trap two_tables 100 (omega arith)
