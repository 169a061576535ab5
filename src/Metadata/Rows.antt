-- ===== src/Metadata/Rows.antt =====
-- How rows belong to one another: the fields and methods that a type lists, and the type that they find
-- again (crates/gen/src/tables/type_def.rs, field.rs and method_def.rs).
pub mod Parents
pub mod Flags
pub mod Names
pub mod Attributes
pub mod TypeDefs
pub mod Kinds
pub mod Members
use windows_rs.Base.{ℕ, Outcome, ok, ◌>>=◌, Mode, List}
use windows_rs.Base.Word.{add_u32, sub_u32}
use windows_rs.Metadata.Table.{TableIndex}
use windows_rs.Metadata.File.{Row, new_row, list}
use windows_rs.Metadata.Types.{TypeDef, from_row, row_of}
use windows_rs.Metadata.Search.{upper_bound_of}

-- The column of `TypeDef` that holds the first field, and the one that holds the first method.
abbrev pub field_list : ℕ
field_list = 4

abbrev pub method_list : ℕ
method_list = 5

-- `Field::parent` and `MethodDef::parent`, by the column that they search.
unfoldable pub parent : Mode → ℕ → Row → Outcome TypeDef
unfolding upper_bound_of
parent m column r = do
  value ← add_u32 m r.row 1
  bound ←
      upper_bound_of m r.file TableIndex.type_def 0 (r.file.tables TableIndex.type_def).row_count
        column value
  row ← sub_u32 m bound 1
  ok (from_row (new_row row TableIndex.type_def r.file))

unfoldable pub fields : Mode → TypeDef → Outcome (List Row)
unfolding list
fields m d = let r = row_of d in list m r.file r TableIndex.field field_list

unfoldable pub methods : Mode → TypeDef → Outcome (List Row)
unfolding list
methods m d = let r = row_of d in list m r.file r TableIndex.method_def method_list
