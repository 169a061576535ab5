-- ===== src/Metadata/Rows/Members.antt =====
-- `MethodDef`, `Field`, `Param`, `ImplMap`, `Constant` and `ClassLayout` of crates/gen/src/tables.
use windows_rs.Base.{
  ℕ, Outcome, ok, panic, Fault, ◌>>=◌, Mode, Bool, true, false, ◌&&◌, ◌==◌, List, [], ◌∷◌,
  if◌then◌else◌, Option, none, some,
}
use windows_rs.Base.Text.{Text, text}
use windows_rs.Base.Word.{sub_u32}
use windows_rs.Metadata.Table.{TableIndex}
use windows_rs.Metadata.File.{Row, Blob, new_row, list, blob}
use windows_rs.Metadata.Search.{equal_range}
use windows_rs.Metadata.Types.{ElementType}
use windows_rs.Metadata.Types.FromCode.{from_code}
use windows_rs.Metadata.Codes.HasConstant
use windows_rs.Metadata.Codes.HasConstant.{HasConstant}
use windows_rs.Metadata.Codes.MemberForwarded
use windows_rs.Metadata.Codes.MemberForwarded.{MemberForwarded}
use windows_rs.Metadata.Rows.Flags
use windows_rs.Metadata.Rows.Names.{row_u32, method_name, first}

-- crates/gen/src/parser/method_kind.rs
pub data MethodKind : Type 0 where
  normal get set add remove : MethodKind

unfoldable pub method_flags : Mode → Row → Outcome ℕ
unfolding row_u32
method_flags m r = row_u32 m r 2

unfoldable pub params : Mode → Row → Outcome (List Row)
unfolding list
params m r = list m r.file r TableIndex.param 5

unfoldable pub starts_with : Text → Text → Bool
starts_with s [] = true
starts_with [] (c ∷ prefix) = false
starts_with (a ∷ s) (c ∷ prefix) = (a == c) && starts_with s prefix

-- The kind of a special method by its name.
unfoldable pub kind_of_name : Text → MethodKind
unfolding starts_with
kind_of_name name =
    if starts_with name (text "get")
    then MethodKind.get
    else if starts_with name (text "put")
    then MethodKind.set
    else if starts_with name (text "add")
    then MethodKind.add
    else if starts_with name (text "remove")
    then MethodKind.remove
    else MethodKind.normal

unfoldable pub method_kind : Mode → Row → Outcome MethodKind
unfolding method_flags kind_of_name method_name Flags.special
method_kind m r = do
  word ← method_flags m r
  let by_name = do name ← method_name m r; ok (kind_of_name name)
  if Flags.special word then by_name else ok MethodKind.normal

unfoldable pub impl_map : Mode → Row → Outcome (Option Row)
unfolding equal_range MemberForwarded.encode
impl_map m r = do
  code ← MemberForwarded.encode m (MemberForwarded.method_def r)
  rows ← equal_range m r.file TableIndex.impl_map 1 code
  ok (first rows)

-- `ImplMap::scope`
unfoldable pub scope : Mode → Row → Outcome Row
unfolding row_u32
scope m r = do
  number ← row_u32 m r 3
  row ← sub_u32 m number 1
  ok (new_row row TableIndex.module_ref r.file)

unfoldable pub field_flags : Mode → Row → Outcome ℕ
unfolding row_u32
field_flags m r = row_u32 m r 0

unfoldable pub field_blob : Mode → Row → Outcome Blob
unfolding blob
field_blob m r = blob m r.file r.row r.table 2

unfoldable pub field_constant : Mode → Row → Outcome (Option Row)
unfolding equal_range HasConstant.encode
field_constant m r = do
  code ← HasConstant.encode m (HasConstant.field r)
  rows ← equal_range m r.file TableIndex.constant 1 code
  ok (first rows)

unfoldable pub param_flags : Mode → Row → Outcome ℕ
unfolding row_u32
param_flags m r = row_u32 m r 0

unfoldable pub sequence : Mode → Row → Outcome ℕ
unfolding row_u32
sequence m r = row_u32 m r 1

unfoldable pub is_input : Mode → Row → Outcome Bool
unfolding param_flags Flags.input
is_input m r = do word ← param_flags m r; ok (Flags.input word)

-- `Constant::value_type` and `value_blob`
unfoldable pub value_type : Mode → Row → Outcome ElementType
unfolding row_u32 from_code
value_type m r = do
  code ← row_u32 m r 0
  elim (from_code code) [ none ↦ panic Fault.unexpected | some t ↦ ok t ]

unfoldable pub value_blob : Mode → Row → Outcome Blob
unfolding blob
value_blob m r = blob m r.file r.row r.table 2

unfoldable pub packing_size : Mode → Row → Outcome ℕ
unfolding row_u32
packing_size m r = row_u32 m r 0

unfoldable pub class_size : Mode → Row → Outcome ℕ
unfolding row_u32
class_size m r = row_u32 m r 1

-- `TypeSpec::blob`
unfoldable pub type_spec_blob : Mode → Row → Outcome Blob
unfolding blob
type_spec_blob m r = blob m r.file r.row r.table 0
