-- ===== src/Reader/Values/Uses.antt =====
-- What `TypeDef` and `MethodDef` read off the arguments of their attributes: crates/gen/src/tables/type_def.rs and
-- method_def.rs, `Attribute::composable_type` (attribute.rs) and `Guid::from_attributes` (crates/gen/src/guid.rs).
use windows_rs.Base.{
  ℕ, ◌/◌, ◌%◌, ◌^◌, List, [], ◌∷◌, ◌++◌, Bool, true, false, ◌==◌, ◌||◌, leb, if◌then◌else◌, Option,
  none, some, Fault, Outcome, ok, panic, ◌>>=◌, Mode, length, drop,
}
use windows_rs.Base.Text.{Text, text, same_text}
use windows_rs.Metadata.File.{Row, index}
use windows_rs.Metadata.Codes.HasAttribute.{HasAttribute}
use windows_rs.Metadata.Constants.{ConstantValue, unwrap_u32, unwrap_u16, unwrap_u8}
use windows_rs.Metadata.Types.{TypeDef, row_of}
use windows_rs.Metadata.Rows.Flags
use windows_rs.Metadata.Rows.Names.{namespace, method_name}
use windows_rs.Metadata.Rows.Members.{method_flags, starts_with}
use windows_rs.Metadata.Rows.Attributes.{attributes, attribute_name}
use windows_rs.Reader.Loading.{TypeReader}
use windows_rs.Reader.Signatures.{resolve_type_def}
use windows_rs.Reader.Values.{args}
use windows_rs.Runtime.Guid.{Guid}

abbrev pub Args : Type 0
Args = List (Text × ConstantValue)

-- The first result of a body that a loop runs at each row.
unfoldable pub find_first {ℓ} :
    {A : Type ℓ} → (Row → Outcome (Option A)) → List Row → Outcome (Option A)
find_first body [] = ok none
find_first body (r ∷ rest) = do
  found ← body r
  let later = find_first body rest
  elim found [ some a ↦ ok (some a) | none ↦ later ]

-- The first argument of a kind.
unfoldable pub first_u32 : Args → Option ℕ
first_u32 [] = none
first_u32 ((name, ConstantValue.u32 value) ∷ rest) = some value
first_u32 ((name, other) ∷ rest) = first_u32 rest

unfoldable pub first_string : Args → Option Text
first_string [] = none
first_string ((name, ConstantValue.string value) ∷ rest) = some value
first_string ((name, other) ∷ rest) = first_string rest

unfoldable pub first_type : Args → Option TypeDef
first_type [] = none
first_type ((name, ConstantValue.type_def d) ∷ rest) = some d
first_type ((name, other) ∷ rest) = first_type rest

-- `ConstantValue::I32(2)`
abbrev pub is_two : ConstantValue → Bool
is_two (ConstantValue.i32 value) = value == 2
is_two _ = false

unfoldable pub any_two : Args → Bool
any_two [] = false
any_two ((name, value) ∷ rest) = is_two value || any_two rest

abbrev pub first_is_two : Args → Bool
first_is_two [] = false
first_is_two ((name, value) ∷ rest) = is_two value

abbrev pub first_is_string : Args → Option Text
first_is_string ((name, ConstantValue.string value) ∷ rest) = some value
first_is_string _ = none

abbrev pub resolved_or : Option Text → (Text → Outcome (Option TypeDef)) → Outcome (Option TypeDef)
resolved_or none resolved = ok none
resolved_or (some name) resolved = resolved name

abbrev pub mark_if : Bool → Option (Unit {0})
mark_if true = some tt
mark_if false = none

abbrev pub is_marked : Option (Unit {0}) → Bool
is_marked none = false
is_marked (some u) = true

-- The loop of `composable_type`, with its two variables.
unfoldable pub composition : Args → Bool → Option TypeDef → Option TypeDef
composition [] public def = if public then def else none
composition ((name, ConstantValue.type_def d) ∷ rest) public def = composition rest public (some d)
composition ((name, value) ∷ rest) public def =
    composition rest (if is_two value then true else public) def

-- `(value >> 16) as u16` and `(value & 0xFFFF) as u16`
abbrev pub split_version : ℕ → ℕ × ℕ
split_version value = (value / 2 ^ 16 % 2 ^ 16, value % 2 ^ 16)

abbrev pub arg_at {ℓ} : {A : Type ℓ} → (ConstantValue → Outcome A) → Args → ℕ → Outcome A
arg_at unwrap found i = do arg ← index found i; unwrap arg.1

unfoldable pub guid_of_args : Args → Outcome Guid
unfolding index unwrap_u32 unwrap_u16 unwrap_u8
guid_of_args found = do
  a ← arg_at unwrap_u32 found 0
  b ← arg_at unwrap_u16 found 1
  c ← arg_at unwrap_u16 found 2
  d ← arg_at unwrap_u8 found 3
  e ← arg_at unwrap_u8 found 4
  f ← arg_at unwrap_u8 found 5
  g ← arg_at unwrap_u8 found 6
  h ← arg_at unwrap_u8 found 7
  i ← arg_at unwrap_u8 found 8
  j ← arg_at unwrap_u8 found 9
  k ← arg_at unwrap_u8 found 10
  ok (record { data1 = a; data2 = b; data3 = c; data4 = (d, e, f, g, h, i, j, k) })

abbrev pub type_attributes : Mode → TypeDef → Outcome (List Row)
type_attributes m d = attributes m (row_of d).file (HasAttribute.type_def d)

-- `&name[from..]`, which panics past the end. The cut is inside a name of ASCII letters.
unfoldable pub name_from : Text → ℕ → Outcome Text
name_from name from =
    if leb from (length name) then ok (drop from name) else panic Fault.out_of_bounds

-- The name of a special method, which says what it is: the preamble and the character behind it go.
unfoldable pub special_name : Text → Outcome Text
unfolding starts_with name_from
special_name name =
    if starts_with name (text "get")
    then name_from name 4
    else if starts_with name (text "put")
    then (do rest ← name_from name 4; ok (text "Set" ++ rest))
    else if starts_with name (text "add")
    then name_from name 4
    else if starts_with name (text "remove")
    then (do rest ← name_from name 7; ok (text "Remove" ++ rest))
    else ok (text "Invoke")

module _ (m : Mode) (reader : TypeReader) (fuel : ℕ) where
  -- The body of a loop that looks at the arguments of one kind of attribute.
  unfoldable pub at_attribute {ℓ} :
      {A : Type ℓ} → (Text → Bool) → (Args → Outcome (Option A)) → Row → Outcome (Option A)
  unfolding attribute_name args
  at_attribute wanted body r = do
    name ← attribute_name m r
    let inspect = do found ← args m reader fuel r; body found
    if wanted name then inspect else ok none

  -- `Guid::from_attributes`
  unfoldable pub from_attributes : List Row → Outcome (Option Guid)
  unfolding find_first at_attribute guid_of_args
  from_attributes = find_first (
      at_attribute (λ k. same_text k (text "GuidAttribute"))
        (λ found. do g ← guid_of_args found; ok (some g)))

  unfoldable pub guid : TypeDef → Outcome Guid
  unfolding attributes from_attributes
  guid d = do
    rows ← type_attributes m d
    found ← from_attributes rows
    elim found [ none ↦ panic Fault.unwrap_none | some g ↦ ok g ]

  unfoldable pub version : TypeDef → Outcome (ℕ × ℕ)
  unfolding attributes find_first at_attribute first_u32
  version d = do
    rows ← type_attributes m d
    found ←
        find_first
          (at_attribute
            (λ k.
              same_text k (text "ContractVersionAttribute")
              || same_text k (text "VersionAttribute"))
            (λ found. ok (first_u32 found)))
          rows
    ok (elim found [ none ↦ (0, 0) | some value ↦ split_version value ])

  -- Whether a body finds something at one of a type's attributes of a name.
  unfoldable pub any_attribute : Text → (Args → Bool) → TypeDef → Outcome Bool
  unfolding attributes find_first at_attribute
  any_attribute wanted test d = do
    rows ← type_attributes m d
    found ←
        find_first (at_attribute (λ k. same_text k wanted) (λ found. ok (mark_if (test found))))
          rows
    ok (is_marked found)

  unfoldable pub is_agile : TypeDef → Outcome Bool
  unfolding any_attribute
  is_agile = any_attribute (text "MarshalingBehaviorAttribute") first_is_two

  unfoldable pub is_public_composable : TypeDef → Outcome Bool
  unfolding any_attribute any_two
  is_public_composable = any_attribute (text "ComposableAttribute") any_two

  -- An activation with no type among its arguments.
  unfoldable pub has_default_constructor : TypeDef → Outcome Bool
  unfolding any_attribute first_type
  has_default_constructor =
      any_attribute (text "ActivatableAttribute")
        (λ found. elim (first_type found) [ none ↦ true | some d ↦ false ])

  unfoldable pub composable_type : Row → Outcome (Option TypeDef)
  unfolding args composition
  composable_type r = do found ← args m reader fuel r; ok (composition found false none)

  -- The type that the first attribute names whose first argument is a string.
  unfoldable pub is_convertible_to : TypeDef → Outcome (Option TypeDef)
  unfolding attributes find_first at_attribute namespace resolve_type_def
  is_convertible_to d = do
    rows ← type_attributes m d
    let resolved = λ (name : Text). do
      ns ← namespace m d
      target ← resolve_type_def m reader ns name
      ok (some target)
    let resolve_first = λ (found : Args). resolved_or (first_is_string found) resolved
    find_first (at_attribute (λ k. same_text k (text "AlsoUsableForAttribute")) resolve_first) rows

  unfoldable pub rust_name : Row → Outcome Text
  unfolding method_name method_flags special_name attributes find_first at_attribute first_string
  rust_name r = do
    name ← method_name m r
    word ← method_flags m r
    let overloaded = do
      rows ← attributes m r.file (HasAttribute.method_def r)
      found ←
          find_first
            (at_attribute (λ k. same_text k (text "OverloadAttribute"))
              (λ found. ok (first_string found)))
            rows
      ok (elim found [ none ↦ name | some other ↦ other ])
    if Flags.special word then special_name name else overloaded
