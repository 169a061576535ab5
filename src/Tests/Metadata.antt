-- ===== src/Tests/Metadata.antt =====
-- A metadata file with a structure `A.P` of an i32 and a pointer to u8, which extends `System.ValueType`, and two methods
-- `Run`; all columns are one byte wide. Behind the heaps stand the signature of a constructor, the values of an attribute
-- and the signature of a method.
use windows_rs.Base.{ℕ, [], ◌∷◌}
use windows_rs.Metadata.Table.{TableIndex, TableData, empty_table}
use windows_rs.Metadata.File.{File, Row, Blob, new_row}
use windows_rs.Metadata.Types.{TypeDef, from_row}
use windows_rs.Reader.Tree.{from_namespace}
use windows_rs.Reader.Loading.{TypeReader}

abbrev of_bytes : ℕ → ℕ → ℕ → TableData
of_bytes at rows size = record {
  data_at = at;
  row_count = rows;
  row_size = size;
  columns = (0, 1) ∷ (1, 1) ∷ (2, 1) ∷ (3, 1) ∷ (4, 1) ∷ (5, 1) ∷ [];
}

abbrev tables_of_metadata : TableIndex → TableData
tables_of_metadata TableIndex.type_ref = of_bytes 0 1 3
tables_of_metadata TableIndex.type_def = of_bytes 3 1 6
tables_of_metadata TableIndex.field = of_bytes 9 2 3
tables_of_metadata TableIndex.method_def = of_bytes 15 2 6
tables_of_metadata TableIndex.param = of_bytes 27 2 3
tables_of_metadata _ = empty_table

abbrev pub metadata : File
metadata = record {
  name = "metadata.winmd";
  bytes =
      0 ∷ 1 ∷ 11 ∷ 0 ∷ 18 ∷ 20 ∷ 5 ∷ 1 ∷ 1 ∷ 0 ∷ 22 ∷ 1 ∷ 0 ∷ 24 ∷ 4 ∷ 0 ∷ 0 ∷ 0 ∷ 26 ∷ 8 ∷ 1 ∷ 0
      ∷ 0 ∷ 0 ∷ 26 ∷ 8 ∷ 3 ∷ 0 ∷ 0 ∷ 0 ∷ 1 ∷ 1 ∷ 22 ∷ 0 ∷ 86 ∷ 97 ∷ 108 ∷ 117 ∷ 101 ∷ 84 ∷ 121 ∷ 112
      ∷ 101 ∷ 0 ∷ 83 ∷ 121 ∷ 115 ∷ 116 ∷ 101 ∷ 109 ∷ 0 ∷ 80 ∷ 0 ∷ 65 ∷ 0 ∷ 120 ∷ 0 ∷ 121 ∷ 0 ∷ 82
      ∷ 117 ∷ 110 ∷ 0 ∷ 0 ∷ 2 ∷ 6 ∷ 8 ∷ 3 ∷ 6 ∷ 15 ∷ 5 ∷ 4 ∷ 32 ∷ 1 ∷ 1 ∷ 8 ∷ 32 ∷ 2 ∷ 1 ∷ 8 ∷ 14
      ∷ 1 ∷ 0 ∷ 7 ∷ 0 ∷ 0 ∷ 0 ∷ 2 ∷ 72 ∷ 105 ∷ 1 ∷ 0 ∷ 84 ∷ 2 ∷ 1 ∷ 120 ∷ 1 ∷ 32 ∷ 1 ∷ 14 ∷ 8 ∷ [];
  bytes_at = 4096;
  strings = 33;
  blobs = 63;
  tables = tables_of_metadata;
}

abbrev pub no_types : TypeReader
no_types = record { nested = []; types = from_namespace [] }

abbrev pub point : TypeDef
point = from_row (new_row 0 TableIndex.type_def metadata)

abbrev pub row_at : ℕ → TableIndex → Row
row_at i t = new_row i t metadata

abbrev pub cursor : ℕ → Blob
cursor at = record { file = metadata; offset = at; size = 16 }
