-- ===== src/Metadata/Types/Equality.antt =====
-- The derived `PartialEq` of `ElementType` (crates/gen/src/parser/element_type.rs), `Signature` (parser/signature.rs) and `TypeDef`
-- (tables/type_def.rs).
use windows_rs.Base.{ℕ, Bool, true, false, ◌==◌, ◌&&◌, not}
use windows_rs.Metadata.Order.{eq}
use windows_rs.Metadata.Types.{
  ElementType, Signature, signature, TypeDef, def, ElementTypes, nil, cons,
}

-- The discriminant of an element type.
unfoldable pub tag : ElementType → ℕ
tag ElementType.void = 0
tag ElementType.bool = 1
tag ElementType.char = 2
tag ElementType.i8 = 3
tag ElementType.u8 = 4
tag ElementType.i16 = 5
tag ElementType.u16 = 6
tag ElementType.i32 = 7
tag ElementType.u32 = 8
tag ElementType.i64 = 9
tag ElementType.u64 = 10
tag ElementType.f32 = 11
tag ElementType.f64 = 12
tag ElementType.isize = 13
tag ElementType.usize = 14
tag ElementType.string = 15
tag ElementType.guid = 16
tag ElementType.i_unknown = 17
tag ElementType.i_inspectable = 18
tag ElementType.hresult = 19
tag ElementType.matrix3x2 = 20
tag ElementType.type_name = 21
tag (ElementType.generic_param r) = 22
tag (ElementType.array s len) = 23
tag (ElementType.method_def r) = 24
tag (ElementType.field r) = 25
tag (ElementType.type_def d) = 26

abbrev same_bool : Bool → Bool → Bool
same_bool true b = b
same_bool false b = not b

unfoldable mutual
  unfolding tag eq

  pub same_element : ElementType → ElementType → Bool
  same_element (ElementType.generic_param r) (ElementType.generic_param r') = eq r r'
  same_element (ElementType.array s len) (ElementType.array s' len') =
      same_signature s s' && (len == len')
  same_element (ElementType.method_def r) (ElementType.method_def r') = eq r r'
  same_element (ElementType.field r) (ElementType.field r') = eq r r'
  same_element (ElementType.type_def d) (ElementType.type_def d') = same_def d d'
  same_element t t' = tag t == tag t'

  pub same_signature : Signature → Signature → Bool
  same_signature (signature t p r c a) (signature t' p' r' c' a') =
      same_element t t' && ((p == p') && (same_bool r r' && (same_bool c c' && same_bool a a')))

  pub same_def : TypeDef → TypeDef → Bool
  same_def (def r ts) (def r' ts') = eq r r' && same_elements ts ts'

  pub same_elements : ElementTypes → ElementTypes → Bool
  same_elements nil nil = true
  same_elements (cons t ts) (cons t' ts') = same_element t t' && same_elements ts ts'
  same_elements nil (cons t' ts') = false
  same_elements (cons t ts) nil = false
