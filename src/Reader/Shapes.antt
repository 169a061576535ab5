-- ===== src/Reader/Shapes.antt =====
-- How a type lies in memory, as far as the generator asks: `is_blittable`, `is_explicit`, `is_packed` and their kin, of
-- `TypeDef` (crates/gen/src/tables/type_def.rs), `ElementType` (parser/element_type.rs), `Signature` (parser/signature.rs) and
-- `Field` (tables/field.rs). A structure asks its fields, so these take fuel for the nesting of structures.
pub mod Blittable
use windows_rs.Base.{
  ℕ, zero, suc, List, [], ◌∷◌, Bool, true, false, ◌==◌, not, ltb, if◌then◌else◌, Option, none, some,
  Fault, Outcome, ok, panic, ◌>>=◌, Mode,
}
use windows_rs.Base.Text.{text}
use windows_rs.Metadata.File.{Row}
use windows_rs.Metadata.Blob.{read_unsigned, read_modifiers}
use windows_rs.Metadata.Types.{ElementType, Signature, signature, TypeDef, nil}
use windows_rs.Metadata.Rows.{fields}
use windows_rs.Metadata.Rows.Flags
use windows_rs.Metadata.Rows.Names.{FullName, same_name, full_name}
use windows_rs.Metadata.Rows.Members.{field_blob}
use windows_rs.Metadata.Rows.TypeDefs.{
  TypeKind, kind, flags, class_layout, is_nullable, is_convertible, is_callback, is_primitive,
  is_udt,
}
use windows_rs.Reader.Loading.{TypeReader}
use windows_rs.Reader.Signatures.{signature_from_blob}

-- `expect` and `unwrap`
abbrev pub expect {ℓ} : {A : Type ℓ} → Option A → Outcome A
expect none = panic Fault.unwrap_none
expect (some a) = ok a

-- `all` and `any` over rows: the rows behind the one that decides are not read.
unfoldable pub all_rows : (Row → Outcome Bool) → List Row → Outcome Bool
all_rows test [] = ok true
all_rows test (r ∷ rest) = do
  found ← test r
  let later = all_rows test rest
  if found then later else ok false

unfoldable pub any_rows : (Row → Outcome Bool) → List Row → Outcome Bool
any_rows test [] = ok false
any_rows test (r ∷ rest) = do
  found ← test r
  let later = any_rows test rest
  if found then ok true else later

-- `ElementType::is_blittable` and `Signature::is_blittable`, by the answer for type definitions
unfoldable mutual
  pub blittable_element : (TypeDef → Outcome Bool) → ElementType → Outcome Bool
  blittable_element of_def (ElementType.type_def d) = of_def d
  blittable_element of_def ElementType.string = ok false
  blittable_element of_def ElementType.i_inspectable = ok false
  blittable_element of_def ElementType.i_unknown = ok false
  blittable_element of_def (ElementType.generic_param r) = ok false
  blittable_element of_def (ElementType.array s len) = blittable_signature of_def s
  blittable_element of_def _ = ok true

  pub blittable_signature : (TypeDef → Outcome Bool) → Signature → Outcome Bool
  blittable_signature of_def (signature kind pointers by_ref is_const is_array) =
      let by_kind = blittable_element of_def kind in if ltb 0 pointers then ok true else by_kind

-- `is_explicit`, in the same way
unfoldable mutual
  pub explicit_element : (TypeDef → Outcome Bool) → ElementType → Outcome Bool
  explicit_element of_def (ElementType.type_def d) = of_def d
  explicit_element of_def (ElementType.array s len) = explicit_signature of_def s
  explicit_element of_def _ = ok false

  pub explicit_signature : (TypeDef → Outcome Bool) → Signature → Outcome Bool
  explicit_signature of_def (signature kind pointers by_ref is_const is_array) =
      let by_kind = explicit_element of_def kind in if pointers == 0 then by_kind else ok false

-- `Signature::is_packed`
unfoldable mutual
  pub packed_element : (TypeDef → Outcome Bool) → ElementType → Outcome Bool
  packed_element of_def (ElementType.type_def d) = of_def d
  packed_element of_def (ElementType.array s len) = packed_signature of_def s
  packed_element of_def _ = ok false

  pub packed_signature : (TypeDef → Outcome Bool) → Signature → Outcome Bool
  packed_signature of_def (signature kind pointers by_ref is_const is_array) =
      let by_kind = packed_element of_def kind in if ltb 0 pointers then ok false else by_kind

-- The predicates of `ElementType` that do not look into a structure.
unfoldable pub nullable_element : Mode → ElementType → Outcome Bool
unfolding is_nullable
nullable_element m (ElementType.type_def d) = is_nullable m d
nullable_element m ElementType.i_inspectable = ok true
nullable_element m ElementType.i_unknown = ok true
nullable_element m (ElementType.method_def r) = ok true
nullable_element m _ = ok false

unfoldable pub convertible_element : Mode → ElementType → Outcome Bool
unfolding is_convertible
convertible_element m (ElementType.type_def d) = is_convertible m d
convertible_element m ElementType.string = ok true
convertible_element m ElementType.i_inspectable = ok true
convertible_element m ElementType.guid = ok true
convertible_element m ElementType.i_unknown = ok true
convertible_element m ElementType.matrix3x2 = ok true
convertible_element m (ElementType.generic_param r) = ok true
convertible_element m _ = ok false

unfoldable pub callback_element : Mode → ElementType → Outcome Bool
unfolding is_callback
callback_element m (ElementType.type_def d) = is_callback m d
callback_element m _ = ok false

unfoldable pub primitive_element : Mode → ElementType → Outcome Bool
unfolding is_primitive
primitive_element m (ElementType.type_def d) = is_primitive m d
primitive_element m ElementType.bool = ok true
primitive_element m ElementType.char = ok true
primitive_element m ElementType.i8 = ok true
primitive_element m ElementType.u8 = ok true
primitive_element m ElementType.i16 = ok true
primitive_element m ElementType.u16 = ok true
primitive_element m ElementType.i32 = ok true
primitive_element m ElementType.u32 = ok true
primitive_element m ElementType.i64 = ok true
primitive_element m ElementType.u64 = ok true
primitive_element m ElementType.f32 = ok true
primitive_element m ElementType.f64 = ok true
primitive_element m ElementType.isize = ok true
primitive_element m ElementType.usize = ok true
primitive_element m ElementType.hresult = ok true
primitive_element m _ = ok false

unfoldable pub udt_element : Mode → ElementType → Outcome Bool
unfolding is_udt
udt_element m (ElementType.type_def d) = is_udt m d
udt_element m ElementType.guid = ok true
udt_element m ElementType.matrix3x2 = ok true
udt_element m _ = ok false

unfoldable pub udt_signature : Mode → Signature → Outcome Bool
unfolding udt_element
udt_signature m (signature kind pointers by_ref is_const is_array) =
    if pointers == 0 then udt_element m kind else ok false

-- A string of a kind that its owner has to free.
abbrev pub bstr : FullName
bstr = (text "Windows.Win32.Foundation", text "BSTR")

-- `fuel` bounds the nesting of types in the signature of a field, and `depth` that of structures.
module _ (m : Mode) (reader : TypeReader) (fuel : ℕ) where
  -- `Field::signature`
  unfoldable pub field_signature : Row → Outcome Signature
  unfolding field_blob read_unsigned read_modifiers signature_from_blob
  field_signature r = do
    b ← field_blob m r
    (start, b1) ← read_unsigned b
    (mods, b2) ← read_modifiers m b1
    (found, b3) ← signature_from_blob m reader nil fuel b2
    expect found

  unfoldable pub blittable_fields : (TypeDef → Outcome Bool) → List Row → Outcome Bool
  unfolding all_rows field_signature blittable_signature
  blittable_fields of_def = all_rows (λ r. do s ← field_signature r; blittable_signature of_def s)

  unfoldable pub is_blittable : ℕ → TypeDef → Outcome Bool
  unfolding kind full_name fields blittable_fields
  is_blittable zero d = panic Fault.out_of_fuel
  is_blittable (suc depth) d = do
    k ← kind m d
    let of_struct = do
      full ← full_name m d
      let by_fields = do fs ← fields m d; blittable_fields (is_blittable depth) fs
      if same_name full bstr then ok false else by_fields
    elim k [ TypeKind.struct ↦ of_struct | TypeKind.enum ↦ ok true | _ ↦ ok false ]

  unfoldable pub is_explicit : ℕ → TypeDef → Outcome Bool
  unfolding kind flags Flags.explicit fields any_rows field_signature explicit_signature
  is_explicit zero d = panic Fault.out_of_fuel
  is_explicit (suc depth) d = do
    k ← kind m d
    let of_struct = do
      word ← flags m d
      let by_fields = do
        fs ← fields m d
        any_rows (λ r. do s ← field_signature r; explicit_signature (is_explicit depth) s) fs
      if Flags.explicit word then ok true else by_fields
    elim k [ TypeKind.struct ↦ of_struct | _ ↦ ok false ]

  unfoldable pub is_packed : ℕ → TypeDef → Outcome Bool
  unfolding kind class_layout fields any_rows field_signature packed_signature
  is_packed zero d = panic Fault.out_of_fuel
  is_packed (suc depth) d = do
    k ← kind m d
    let of_struct = do
      layout ← class_layout m d
      let by_fields = do
        fs ← fields m d
        any_rows (λ r. do s ← field_signature r; packed_signature (is_packed depth) s) fs
      elim layout [ some r ↦ ok true | none ↦ by_fields ]
    elim k [ TypeKind.struct ↦ of_struct | _ ↦ ok false ]
