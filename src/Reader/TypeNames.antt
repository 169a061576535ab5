-- ===== src/Reader/TypeNames.antt =====
-- The signatures from which the guids of generic types are made, and the names of nested types: `type_signature`,
-- `interface_signature` and `scoped_name` of crates/gen/src/tables/type_def.rs, `type_signature` of parser/element_type.rs and the
-- text form of crates/gen/src/guid.rs.
pub mod Brackets
pub mod Balanced
use windows_rs.Base.{
  ℕ, zero, suc, ◌+◌, ◌/◌, ◌%◌, ◌^◌, List, [], ◌∷◌, ◌++◌, Bool, true, false, if◌then◌else◌, ltb,
  Option, none, some, Fault, Outcome, ok, panic, ◌>>=◌, Mode,
}
use windows_rs.Base.Text.{Text, text, same_text}
use windows_rs.Base.OrderedMap.{OrderedMap}
use windows_rs.Metadata.File.{Row}
use windows_rs.Metadata.Types.{
  ElementType, Signature, signature, TypeDef, def, ElementTypes, nil, cons, row_of,
}
use windows_rs.Metadata.Rows.{fields}
use windows_rs.Metadata.Rows.Names.{name, namespace}
use windows_rs.Metadata.Rows.TypeDefs.{TypeKind, kind, enclosing_type}
use windows_rs.Reader.Loading.{TypeReader, nested_types}
use windows_rs.Reader.Values.{underlying_type}
use windows_rs.Reader.Values.Uses.{guid}
use windows_rs.Reader.Shapes.{field_signature}
use windows_rs.Reader.Methods.{kind_of}
use windows_rs.Reader.Interfaces.{generics_of, default_interface}
use windows_rs.Runtime.Guid.{Guid}

-- `{:0wx?}` of a number with at most `w` digits, in lower case
abbrev pub lower_digit : ℕ → ℕ
lower_digit d = if ltb d 10 then 48 + d else 87 + d

unfoldable pub lower_hex : ℕ → ℕ → Text
lower_hex zero n = []
lower_hex (suc w) n = lower_digit (n / 16 ^ w % 16) ∷ lower_hex w n

abbrev pub join_texts : List Text → Text
join_texts [] = []
join_texts (s ∷ rest) = s ++ join_texts rest

-- `Debug` of the generator's `Guid`
unfoldable pub guid_text : Guid → Text
unfolding lower_hex
guid_text g =
    let b = g.data4 in
    join_texts (
      lower_hex 8 g.data1
      ∷ text "-"
      ∷ lower_hex 4 g.data2
      ∷ text "-"
      ∷ lower_hex 4 g.data3
      ∷ text "-"
      ∷ lower_hex 2 b.0
      ∷ lower_hex 2 b.1
      ∷ text "-"
      ∷ lower_hex 2 b.2
      ∷ lower_hex 2 b.3
      ∷ lower_hex 2 b.4
      ∷ lower_hex 2 b.5
      ∷ lower_hex 2 b.6
      ∷ lower_hex 2 b.7
      ∷ [])

-- A number in decimal digits; `fuel` bounds them.
unfoldable pub decimal : ℕ → ℕ → Text
decimal zero n = []
decimal (suc fuel) n =
    let front = decimal fuel (n / 10) in
    if ltb n 10 then (48 + n) ∷ [] else front ++ ((48 + n % 10) ∷ [])

-- The place of a name in a map.
unfoldable pub place_of {ℓ} : {A : Type ℓ} → Text → OrderedMap A → ℕ → Option ℕ
place_of k [] i = none
place_of k ((key, a) ∷ rest) i =
    let later = place_of k rest (suc i) in if same_text key k then some i else later

-- The signatures of the types that are not defined in metadata.
unfoldable pub plain_signature : ElementType → Outcome Text
plain_signature ElementType.bool = ok (text "b1")
plain_signature ElementType.char = ok (text "c2")
plain_signature ElementType.i8 = ok (text "i1")
plain_signature ElementType.u8 = ok (text "u1")
plain_signature ElementType.i16 = ok (text "i2")
plain_signature ElementType.u16 = ok (text "u2")
plain_signature ElementType.i32 = ok (text "i4")
plain_signature ElementType.u32 = ok (text "u4")
plain_signature ElementType.i64 = ok (text "i8")
plain_signature ElementType.u64 = ok (text "u8")
plain_signature ElementType.f32 = ok (text "f4")
plain_signature ElementType.f64 = ok (text "f8")
plain_signature ElementType.string = ok (text "string")
plain_signature ElementType.i_inspectable = ok (text "cinterface(IInspectable)")
plain_signature ElementType.guid = ok (text "g16")
plain_signature _ = panic Fault.unexpected

unfoldable pub element_signature : (TypeDef → Outcome Text) → ElementType → Outcome Text
unfolding plain_signature
element_signature of_def (ElementType.type_def d) = of_def d
element_signature of_def t = plain_signature t

-- The signatures of a list, each behind a semicolon.
unfoldable pub generic_signatures : (TypeDef → Outcome Text) → ElementTypes → Outcome Text
unfolding element_signature
generic_signatures of_def nil = ok []
generic_signatures of_def (cons t rest) = do
  first ← element_signature of_def t
  more ← generic_signatures of_def rest
  ok (text ";" ++ (first ++ more))

-- Whether there are generic arguments.
abbrev pub by_generics : ElementTypes → Outcome Text → Outcome Text → Outcome Text
by_generics nil plain applied = plain
by_generics (cons t rest) plain applied = applied

module _ (m : Mode) (reader : TypeReader) (fuel : ℕ) where
  unfoldable pub interface_with : (TypeDef → Outcome Text) → TypeDef → Outcome Text
  unfolding guid guid_text generic_signatures
  interface_with of_def d = do
    g ← guid m reader fuel d
    let braced = text "{" ++ (guid_text g ++ text "}")
    let applied = do
      more ← generic_signatures of_def (generics_of d)
      ok (text "pinterface(" ++ (braced ++ (more ++ text ")")))
    by_generics (generics_of d) (ok braced) applied

  unfoldable pub field_signatures : (TypeDef → Outcome Text) → List Row → Outcome Text
  unfolding field_signature element_signature
  field_signatures of_def [] = ok []
  field_signatures of_def (r ∷ rest) = do
    s ← field_signature m reader fuel r
    first ← element_signature of_def (kind_of s)
    more ← field_signatures of_def rest
    ok (text ";" ++ (first ++ more))

  -- `{}.{}` of the namespace and the name
  unfoldable pub dotted : TypeDef → Outcome Text
  unfolding namespace name
  dotted d = do ns ← namespace m d; k ← name m d; ok (ns ++ (text "." ++ k))

  -- `depth` bounds the nesting of the types.
  unfoldable pub type_signature : ℕ → TypeDef → Outcome Text
  unfolding kind interface_with dotted default_interface underlying_type element_signature fields
      field_signatures
  type_signature zero d = panic Fault.out_of_fuel
  type_signature (suc depth) d = do
    k ← kind m d
    let of_interface = interface_with (type_signature depth) d
    let of_class = do
      full ← dotted d
      default ← default_interface m reader fuel d
      inner ← interface_with (type_signature depth) default
      ok (text "rc(" ++ (full ++ (text ";" ++ (inner ++ text ")"))))
    let of_enum = do
      full ← dotted d
      t ← underlying_type m reader fuel d
      inner ← element_signature (type_signature depth) t
      ok (text "enum(" ++ (full ++ (text ";" ++ (inner ++ text ")"))))
    let of_struct = do
      full ← dotted d
      fs ← fields m d
      more ← field_signatures (type_signature depth) fs
      ok (text "struct(" ++ (full ++ (more ++ text ")")))
    let delegate = do inner ← of_interface; ok (text "delegate(" ++ (inner ++ text ")"))
    let of_delegate = by_generics (generics_of d) delegate of_interface
    elim k [
      | TypeKind.interface ↦ of_interface
      | TypeKind.class ↦ of_class
      | TypeKind.enum ↦ of_enum
      | TypeKind.struct ↦ of_struct
      | TypeKind.delegate ↦ of_delegate
    ]

  unfoldable pub interface_signature : ℕ → TypeDef → Outcome Text
  unfolding interface_with type_signature
  interface_signature depth = interface_with (type_signature depth)

  -- A nested type is named by its place among the types of the one around it; 20 digits are more than enough for that.
  unfoldable pub scoped_name : ℕ → TypeDef → Outcome Text
  unfolding enclosing_type name nested_types place_of decimal
  scoped_name zero d = panic Fault.out_of_fuel
  scoped_name (suc depth) d = do
    k ← name m d
    outer ← enclosing_type m d
    let numbered = λ (e : TypeDef) (i : ℕ). do
      prefix ← scoped_name depth e
      ok (prefix ++ (text "_" ++ decimal 20 i))
    elim outer [
      | none ↦ ok k
      | some e ↦ elim (nested_types (row_of e) reader.nested) [
        | none ↦ ok k
        | some inner ↦ elim (place_of k inner 0) [ none ↦ ok k | some i ↦ numbered e i ]
      ]
    ]
