-- ===== src/Metadata/Rows/TypeDefs.antt =====
-- `TypeDef` of crates/gen/src/tables/type_def.rs: what a type is, by its flags and the type that it extends, and
-- the rows that belong to it.
use windows_rs.Base.{
  ℕ, Outcome, ok, ◌>>=◌, Mode, Bool, true, false, not, ◌==◌, List, [], ◌∷◌, if◌then◌else◌, Option,
  none, some,
}
use windows_rs.Base.Text.{Text, text}
use windows_rs.Base.Word.{add_u32, sub_u32}
use windows_rs.Metadata.Table.{TableIndex}
use windows_rs.Metadata.File.{Row, new_row}
use windows_rs.Metadata.Search.{equal_range}
use windows_rs.Metadata.Types.{TypeDef, def, ElementType, ElementTypes, nil, cons, row_of, from_row}
use windows_rs.Metadata.Codes.TypeDefOrRef
use windows_rs.Metadata.Codes.TypeOrMethodDef
use windows_rs.Metadata.Codes.TypeOrMethodDef.{TypeOrMethodDef}
use windows_rs.Metadata.Rows.Flags
use windows_rs.Metadata.Rows.Names.{FullName, same_name, row_u32, code_full_name, first}
use windows_rs.Metadata.Rows.Attributes.{has_attribute, is_handle}
use windows_rs.Metadata.Codes.HasAttribute.{HasAttribute}

-- crates/gen/src/parser/type_kind.rs
pub data TypeKind : Type 0 where
  interface class enum struct delegate : TypeKind

abbrev pub named : Text → Text → FullName
named namespace name = (namespace, name)

unfoldable pub flags : Mode → TypeDef → Outcome ℕ
unfolding row_u32
flags m d = row_u32 m (row_of d) 0

unfoldable pub extends : Mode → TypeDef → Outcome FullName
unfolding row_u32 code_full_name TypeDefOrRef.decode
extends m d = do
  code ← row_u32 m (row_of d) 3
  let named = do found ← TypeDefOrRef.decode m (row_of d).file code; code_full_name m found
  if code == 0 then ok ([], []) else named

-- The arms of the `match` on the name of the base.
unfoldable pub kind_of_base : FullName → TypeKind
kind_of_base base =
    if same_name base (text "System", text "Enum")
    then TypeKind.enum
    else if same_name base (text "System", text "MulticastDelegate")
    then TypeKind.delegate
    else if same_name base (text "System", text "ValueType")
    then TypeKind.struct
    else TypeKind.class

unfoldable pub kind : Mode → TypeDef → Outcome TypeKind
unfolding flags extends kind_of_base Flags.interface
kind m d = do
  word ← flags m d
  let by_base = do base ← extends m d; ok (kind_of_base base)
  if Flags.interface word then ok TypeKind.interface else by_base

unfoldable pub is_winrt : Mode → TypeDef → Outcome Bool
unfolding flags Flags.windows_runtime
is_winrt m d = do word ← flags m d; ok (Flags.windows_runtime word)

unfoldable pub is_callback : Mode → TypeDef → Outcome Bool
unfolding is_winrt kind
is_callback m d = do
  winrt ← is_winrt m d
  let delegates = do k ← kind m d; ok (elim k [ TypeKind.delegate ↦ true | _ ↦ false ])
  if winrt then ok false else delegates

unfoldable pub is_udt : Mode → TypeDef → Outcome Bool
unfolding kind is_handle
is_udt m d = do
  k ← kind m d
  elim k [ TypeKind.struct ↦ (do handle ← is_handle m d; ok (not handle)) | _ ↦ ok false ]

unfoldable pub is_convertible : Mode → TypeDef → Outcome Bool
unfolding kind is_winrt
is_convertible m d = do
  k ← kind m d
  elim k [ TypeKind.enum ↦ ok false | TypeKind.delegate ↦ is_winrt m d | _ ↦ ok true ]

unfoldable pub is_primitive : Mode → TypeDef → Outcome Bool
unfolding kind
is_primitive m d = do k ← kind m d; ok (elim k [ TypeKind.enum ↦ true | _ ↦ false ])

unfoldable pub is_nullable : Mode → TypeDef → Outcome Bool
unfolding kind
is_nullable m d = do
  k ← kind m d
  ok (elim k [ TypeKind.enum ↦ false | TypeKind.struct ↦ false | _ ↦ true ])

unfoldable pub is_scoped : Mode → TypeDef → Outcome Bool
unfolding is_winrt has_attribute
is_scoped m d = do
  winrt ← is_winrt m d
  let marked =
      has_attribute m (row_of d).file (HasAttribute.type_def d) (text "ScopedEnumAttribute")
  if winrt then ok true else marked

-- The rows of a table that name the type in a column by its number, which counts from 1.
unfoldable pub rows_of_type : Mode → TypeDef → TableIndex → ℕ → Outcome (List Row)
unfolding equal_range
rows_of_type m d table column = do
  number ← add_u32 m (row_of d).row 1
  equal_range m (row_of d).file table column number

unfoldable pub interface_impls : Mode → TypeDef → Outcome (List Row)
unfolding rows_of_type
interface_impls m d = rows_of_type m d TableIndex.interface_impl 0

unfoldable pub class_layout : Mode → TypeDef → Outcome (Option Row)
unfolding rows_of_type
class_layout m d = do rows ← rows_of_type m d TableIndex.class_layout 2; ok (first rows)

-- `NestedClass::nested_type` and `enclosing_type`
unfoldable pub nested_type : Mode → Row → Outcome TypeDef
unfolding row_u32
nested_type m r = do
  number ← row_u32 m r 0
  row ← sub_u32 m number 1
  ok (from_row (new_row row TableIndex.type_def r.file))

unfoldable pub nested_enclosing_type : Mode → Row → Outcome TypeDef
unfolding row_u32
nested_enclosing_type m r = do
  number ← row_u32 m r 1
  row ← sub_u32 m number 1
  ok (from_row (new_row row TableIndex.type_def r.file))

unfoldable pub enclosing_type : Mode → TypeDef → Outcome (Option TypeDef)
unfolding rows_of_type nested_enclosing_type
enclosing_type m d = do
  rows ← rows_of_type m d TableIndex.nested_class 0
  elim (first rows) [
    | none ↦ ok none
    | some r ↦ (do enclosing ← nested_enclosing_type m r; ok (some enclosing))
  ]

unfoldable pub generic_params : Mode → TypeDef → Outcome (List Row)
unfolding equal_range TypeOrMethodDef.encode
generic_params m d = do
  code ← TypeOrMethodDef.encode m (TypeOrMethodDef.type_def d)
  equal_range m (row_of d).file TableIndex.generic_param 2 code

unfoldable pub as_generics : List Row → ElementTypes
as_generics [] = nil
as_generics (r ∷ rest) = cons (ElementType.generic_param r) (as_generics rest)

unfoldable pub with_generics : Mode → TypeDef → Outcome TypeDef
unfolding generic_params as_generics
with_generics m d = do params ← generic_params m d; ok (def (row_of d) (as_generics params))
