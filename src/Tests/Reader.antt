-- ===== src/Tests/Reader.antt =====
-- A file with two type definitions of one name, and the reader over it.
use windows_rs.Base.{ℕ, ◌≡◌, refl, [], ◌∷◌, ◌++◌, Option, none, some, ok, trap}
use windows_rs.Base.Text.{Text, text, same_text}
use windows_rs.Base.Word.{mul_u32, add_u32, sub_at}
use windows_rs.Metadata.Table.{TableIndex, TableData, empty_table}
use windows_rs.Metadata.File.{File, new_row}
use windows_rs.Metadata.Types.{from_row}
use windows_rs.Reader.Tree.{TypeRow}
use windows_rs.Reader.Registry.{Item, find_type, first_row}
use windows_rs.Reader.Registry.Loads.{kept_or}
use windows_rs.Base.Traverse.{traverse}
use windows_rs.Reader.Loading.{TypeReader, new, item_of, nested_of}
use windows_rs.Reader.Loading.Gathered.{found, new-finds_first}

-- Flags of four bytes, then name, namespace, base, first field and first method of two bytes each.
abbrev type_defs : TableData
type_defs = record {
  data_at = 0;
  row_count = 2;
  row_size = 14;
  columns = (0, 4) ∷ (4, 2) ∷ (6, 2) ∷ (8, 2) ∷ (10, 2) ∷ (12, 2) ∷ [];
}

abbrev tables_of_library : TableIndex → TableData
tables_of_library TableIndex.type_def = type_defs
tables_of_library _ = empty_table

abbrev pub library : File
library = record {
  name = "library.winmd";
  bytes =
      0
      ∷ 0x40
      ∷ 0
      ∷ 0
      ∷ 1
      ∷ 0
      ∷ 5
      ∷ 0
      ∷ 0
      ∷ 0
      ∷ 1
      ∷ 0
      ∷ 1
      ∷ 0
      ∷ 0
      ∷ 0
      ∷ 0
      ∷ 0
      ∷ 1
      ∷ 0
      ∷ 5
      ∷ 0
      ∷ 0
      ∷ 0
      ∷ 1
      ∷ 0
      ∷ 1
      ∷ 0
      ∷ 0
      ∷ (text "Foo" ++ (0 ∷ text "A.B" ++ (0 ∷ [])));
  bytes_at = 4096;
  strings = 28;
  blobs = 0;
  tables = tables_of_library;
}

abbrev pub foo : ℕ → Option Item
foo i = some (record {
  namespace = text "A.B";
  entries = (text "Foo", TypeRow.type_def (from_row (new_row i TableIndex.type_def library))) ∷ [];
})

new-finds_first_example :
    (reader : TypeReader) × (new trap (library ∷ []) ≡ ok reader)
    × ((namespace name : Text)
        → find_type namespace name reader.types
          ≡ kept_or none (first_row namespace name (found (foo 0 ∷ foo 1 ∷ []))))
unfolding traverse item_of nested_of mul_u32 add_u32 sub_at same_text
new-finds_first_example = new-finds_first trap (library ∷ []) (foo 0 ∷ foo 1 ∷ []) [] refl refl
