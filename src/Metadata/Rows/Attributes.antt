-- ===== src/Metadata/Rows/Attributes.antt =====
-- The attributes of a row: crates/gen/src/tables/attribute.rs and `attributes` and `has_attribute` of the tables.
use windows_rs.Base.{
  Outcome, ok, panic, Fault, ◌>>=◌, Mode, Bool, true, false, List, [], ◌∷◌, if◌then◌else◌,
}
use windows_rs.Base.Text.{Text, text, same_text}
use windows_rs.Metadata.Table.{TableIndex}
use windows_rs.Metadata.File.{Row, File}
use windows_rs.Metadata.Search.{equal_range}
use windows_rs.Metadata.Types.{TypeDef, row_of}
use windows_rs.Metadata.Codes.AttributeType.{AttributeType}
use windows_rs.Metadata.Codes.AttributeType
use windows_rs.Metadata.Codes.HasAttribute.{HasAttribute}
use windows_rs.Metadata.Codes.HasAttribute
use windows_rs.Metadata.Rows.Names.{row_u32, member_parent, parent_name}

-- `Attribute::constructor` and `name`
unfoldable pub constructor : Mode → Row → Outcome AttributeType
unfolding row_u32 AttributeType.decode
constructor m r = do code ← row_u32 m r 1; AttributeType.decode m r.file code

unfoldable pub attribute_name : Mode → Row → Outcome Text
unfolding constructor member_parent parent_name
attribute_name m r = do
  found ← constructor m r
  elim found [
    | AttributeType.method_def r' ↦ panic Fault.unexpected
    | AttributeType.member_ref method ↦ (do parent ← member_parent m method; parent_name m parent)
  ]

-- `attributes`, by the coded index of the row in its file
unfoldable pub attributes : Mode → File → HasAttribute → Outcome (List Row)
unfolding HasAttribute.encode equal_range
attributes m f owner = do
  code ← HasAttribute.encode m owner
  equal_range m f TableIndex.custom_attribute 0 code

-- `any(|attribute| attribute.name() == name)`: the names behind the first match are not read.
unfoldable pub any_named : Mode → Text → List Row → Outcome Bool
unfolding attribute_name
any_named m name [] = ok false
any_named m name (r ∷ rest) = do
  found ← attribute_name m r
  let later = any_named m name rest
  if same_text found name then ok true else later

unfoldable pub has_attribute : Mode → File → HasAttribute → Text → Outcome Bool
unfolding attributes any_named
has_attribute m f owner name = do found ← attributes m f owner; any_named m name found

abbrev type_has : Mode → TypeDef → Text → Outcome Bool
type_has m d = has_attribute m (row_of d).file (HasAttribute.type_def d)

unfoldable pub is_handle : Mode → TypeDef → Outcome Bool
unfolding has_attribute
is_handle m d = type_has m d (text "NativeTypedefAttribute")

unfoldable pub is_exclusive : Mode → TypeDef → Outcome Bool
unfolding has_attribute
is_exclusive m d = type_has m d (text "ExclusiveToAttribute")

unfoldable pub is_default : Mode → Row → Outcome Bool
unfolding has_attribute
is_default m r = has_attribute m r.file (HasAttribute.interface_impl r) (text "DefaultAttribute")

unfoldable pub is_overridable : Mode → Row → Outcome Bool
unfolding has_attribute
is_overridable m r =
    has_attribute m r.file (HasAttribute.interface_impl r) (text "OverridableAttribute")

unfoldable pub is_deprecated : Mode → Row → Outcome Bool
unfolding has_attribute
is_deprecated m r = has_attribute m r.file (HasAttribute.method_def r) (text "DeprecatedAttribute")

unfoldable pub is_const : Mode → Row → Outcome Bool
unfolding has_attribute
is_const m r = has_attribute m r.file (HasAttribute.param r) (text "ConstAttribute")
