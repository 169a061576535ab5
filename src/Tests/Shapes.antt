-- ===== src/Tests/Shapes.antt =====
-- The structure `A.P`: how it lies in memory, its signature and what it depends on.
use windows_rs.Base.{◌≡◌, refl, All, trap, arith}
use windows_rs.Base.Text.{same_text}
use windows_rs.Base.Word.{mul_u32, add_u32, sub_u32}
use windows_rs.Base.Each.{Each}
use windows_rs.Metadata.File.{rows_from, Row}
use windows_rs.Metadata.Codes.Packing.{split_code, shifted_row}
use windows_rs.Metadata.Types.{TypeDef, Signature}
use windows_rs.Metadata.Rows.{fields}
use windows_rs.Metadata.Rows.Names.{name, namespace}
use windows_rs.Reader.Tree.{TypeInclude, TypeRow}
use windows_rs.Reader.Values.{underlying_type}
use windows_rs.Reader.Shapes.{is_blittable, field_signature}
use windows_rs.Reader.Shapes.Blittable.{BlittableType, is_blittable-BlittableType}
use windows_rs.Reader.Methods.{kind_of}
use windows_rs.Reader.Interfaces.{default_interface}
use windows_rs.Reader.Dependencies.{row_dependencies}
use windows_rs.Reader.Dependencies.Includes.{Allowed}
use windows_rs.Reader.Dependencies.Levels.{row_dependencies-Allowed}
use windows_rs.Reader.TypeNames.{type_signature}
use windows_rs.Reader.TypeNames.Brackets.{HasNoBracket, IsBalanced}
use windows_rs.Reader.TypeNames.Balanced.{IsClosed, IsWithin, type_signature-IsBalanced}
use windows_rs.Tests.Metadata.{no_types, point}

is_blittable-BlittableType_example : BlittableType trap no_types 2 point
unfolding is_blittable same_text mul_u32 add_u32 sub_u32 split_code
is_blittable-BlittableType_example = (is_blittable-BlittableType trap no_types 2 point).0 (1, refl)

row_dependencies-Allowed_example :
    Each
      (All (Allowed TypeInclude.full))
      (row_dependencies trap no_types 2 2 (TypeRow.type_def point) TypeInclude.full)
row_dependencies-Allowed_example =
    row_dependencies-Allowed trap no_types 2 2 (TypeRow.type_def point) TypeInclude.full (λ e. cc)

names : Each HasNoBracket (name trap point)
unfolding name mul_u32 add_u32
names = ((λ e. absurd (omega arith), λ e. absurd (omega arith)), tt)

namespaces : Each HasNoBracket (namespace trap point)
unfolding namespace mul_u32 add_u32
namespaces = ((λ e. absurd (omega arith), λ e. absurd (omega arith)), tt)

abbrev IsPoint : TypeDef → Type 0
IsPoint d = d ≡ point

defaults : Each IsPoint (default_interface trap no_types 2 point)
unfolding default_interface mul_u32 add_u32 sub_u32 rows_from
defaults = tt

underlying : Each (IsWithin IsPoint) (underlying_type trap no_types 2 point)
unfolding underlying_type mul_u32 add_u32 sub_u32 shifted_row
underlying = tt

members :
    Each
      (All (λ (r : Row).
        Each (λ (s : Signature). IsWithin IsPoint (kind_of s)) (field_signature trap no_types 2 r)))
      (fields trap point)
unfolding fields field_signature mul_u32 add_u32 sub_u32
members = (tt, (tt, tt))

IsPoint-IsClosed : IsClosed trap no_types 2 IsPoint
IsPoint-IsClosed = record {
  names = λ d e. rw e names;
  namespaces = λ d e. rw e namespaces;
  generics = λ d e. rw e tt;
  defaults = λ d e. rw e defaults;
  underlying = λ d e. rw e underlying;
  members = λ d e. rw e members;
}

type_signature-IsBalanced_example : Each IsBalanced (type_signature trap no_types 2 1 point)
type_signature-IsBalanced_example =
    type_signature-IsBalanced trap no_types 2 IsPoint IsPoint-IsClosed 1 point refl
