-- ===== src/Reader/Dependencies.antt =====
-- What a type depends on, and what has to be defined with it: `definition` and `dependencies` of `TypeDef`
-- (crates/gen/src/tables/type_def.rs), `ElementType` (parser/element_type.rs), `Signature` (parser/signature.rs), `MethodSignature`
-- (parser/method_signature.rs), `MethodDef`, `Field` and `TypeRow` (parser/type_reader.rs).
pub mod Includes
pub mod Levels
use windows_rs.Base.{
  ℕ, List, [], ◌∷◌, ◌++◌, Bool, true, false, ◌||◌, if◌then◌else◌, Option, none, some, Fault,
  Outcome, ok, panic, ◌>>=◌, Mode,
}
use windows_rs.Base.Text.{Text, text, same_text}
use windows_rs.Base.Traverse.{traverse}
use windows_rs.Metadata.File.{Row}
use windows_rs.Metadata.Types.{
  ElementType, Signature, signature, TypeDef, def, ElementTypes, nil, cons,
}
use windows_rs.Metadata.Rows.{methods, fields}
use windows_rs.Metadata.Rows.Names.{FullName, same_name, full_name}
use windows_rs.Metadata.Rows.Attributes.{attributes, attribute_name}
use windows_rs.Metadata.Rows.TypeDefs.{TypeKind, kind}
use windows_rs.Reader.Tree.{TypeRow, TypeEntry, TypeInclude}
use windows_rs.Reader.Loading.{TypeReader}
use windows_rs.Reader.Signatures.{resolve_type_row, resolve_type_def}
use windows_rs.Reader.Values.{args}
use windows_rs.Reader.Values.Uses.{first_type, is_convertible_to, type_attributes}
use windows_rs.Reader.Shapes.{field_signature, bstr}
use windows_rs.Reader.Methods.{MethodParam, MethodSignature, method_signature}
use windows_rs.Reader.Interfaces.{generics_of, interfaces, bases, invoke_method}
use windows_rs.Reader.Classes.{InterfaceInfo, InterfaceKind, class_interfaces}

abbrev pub entry_of : TypeInclude → TypeDef → TypeEntry
entry_of wanted d = record { def = TypeRow.type_def d; include = wanted }

abbrev pub numerics : Text
numerics = text "Windows.Foundation.Numerics"

abbrev pub matrix3x2 : FullName
matrix3x2 = (numerics, text "Matrix3x2")

abbrev pub iterable : FullName
iterable = (text "Windows.Foundation.Collections", text "IIterable`1")

-- Lists of lists, in one.
abbrev pub flatten {ℓ} : {A : Type ℓ} → List (List A) → List A
flatten [] = []
flatten (xs ∷ rest) = xs ++ flatten rest

-- A function at every entry, and all results in one list.
abbrev pub flat_map {ℓ κ} :
    {A : Type ℓ} {B : Type κ} → (A → Outcome (List B)) → List A → Outcome (List B)
flat_map f [] = ok []
flat_map f (x ∷ rest) = do found ← f x; more ← flat_map f rest; ok (found ++ more)

-- `definition`, with the definition that stands for `Matrix3x2`
unfoldable mutual
  pub definition_element : Outcome TypeDef → TypeInclude → ElementType → Outcome (List TypeEntry)
  definition_element matrix wanted (ElementType.type_def d) = definition_def matrix wanted d
  definition_element matrix wanted (ElementType.array s len) = definition_signature matrix wanted s
  definition_element matrix wanted ElementType.matrix3x2 = do
    d ← matrix
    ok (entry_of wanted d ∷ [])
  definition_element matrix wanted _ = ok []

  pub definition_signature : Outcome TypeDef → TypeInclude → Signature → Outcome (List TypeEntry)
  definition_signature matrix wanted (signature kind pointers by_ref is_const is_array) =
      definition_element matrix wanted kind

  pub definition_def : Outcome TypeDef → TypeInclude → TypeDef → Outcome (List TypeEntry)
  definition_def matrix wanted (def r generics) = do
    more ← definition_elements matrix wanted generics
    ok (entry_of wanted (def r generics) ∷ more)

  pub definition_elements : Outcome TypeDef → TypeInclude → ElementTypes → Outcome (List TypeEntry)
  definition_elements matrix wanted nil = ok []
  definition_elements matrix wanted (cons t rest) = do
    found ← definition_element matrix wanted t
    more ← definition_elements matrix wanted rest
    ok (found ++ more)

-- The first default interface among the interfaces of a class.
unfoldable pub find_default : List InterfaceInfo → Option TypeDef
find_default [] = none
find_default (info ∷ rest) = elim info.kind [
  | InterfaceKind.default ↦ some info.def
  | _ ↦ find_default rest
]

abbrev pub push_convertible : Option TypeDef → List TypeEntry
push_convertible none = []
push_convertible (some d) = entry_of TypeInclude.minimal d ∷ []

module _ (m : Mode) (reader : TypeReader) (fuel depth : ℕ) where
  unfoldable pub matrix_def : Outcome TypeDef
  unfolding resolve_type_def
  matrix_def = resolve_type_def m reader matrix3x2.0 matrix3x2.1

  unfoldable pub signature_definition : TypeInclude → Signature → Outcome (List TypeEntry)
  unfolding definition_signature matrix_def
  signature_definition = definition_signature matrix_def

  unfoldable pub definition : TypeInclude → TypeDef → Outcome (List TypeEntry)
  unfolding definition_def matrix_def
  definition = definition_def matrix_def

  unfoldable pub element_definitions : TypeInclude → ElementTypes → Outcome (List TypeEntry)
  unfolding definition_elements matrix_def
  element_definitions = definition_elements matrix_def

  -- `MethodSignature::dependencies`, and those of `MethodDef`
  unfoldable pub signature_dependencies : TypeInclude → MethodSignature → Outcome (List TypeEntry)
  unfolding signature_definition
  signature_dependencies wanted s = do
    result ← elim s.return_type [ none ↦ ok [] | some r ↦ signature_definition wanted r ]
    more ← flat_map (λ (p : MethodParam). signature_definition wanted p.signature) s.params
    ok (result ++ more)

  unfoldable pub method_dependencies : Row → Outcome (List TypeEntry)
  unfolding method_signature signature_dependencies
  method_dependencies r = do
    s ← method_signature m reader nil fuel r
    signature_dependencies TypeInclude.minimal s

  -- `Field::definition`, and `Field::dependencies`, which is the same
  unfoldable pub field_definition : TypeInclude → Row → Outcome (List TypeEntry)
  unfolding field_signature signature_definition
  field_definition wanted r = do s ← field_signature m reader fuel r; signature_definition wanted s

  -- An entry for what is found by name.
  unfoldable pub named_entry : TypeInclude → Text → Text → Outcome TypeEntry
  unfolding resolve_type_row
  named_entry wanted ns k = do
    row ← resolve_type_row m reader ns k
    ok (record { def = row; include = wanted })

  -- The four parts of `dependencies`, by the kind of the type.
  unfoldable pub interface_dependencies : TypeDef → Outcome (List TypeEntry)
  unfolding interfaces methods method_dependencies full_name named_entry
  interface_dependencies d = do
    is ← interfaces m reader fuel d
    ms ← methods m d
    of_methods ← flat_map method_dependencies ms
    full ← full_name m d
    let iterator = do
      e ← named_entry TypeInclude.full (text "Windows.Foundation.Collections") (text "IIterator`1")
      ok (e ∷ [])
    more ← if same_name full iterable then iterator else ok []
    of_interfaces ← flat_map (λ (i : TypeDef). ok (entry_of TypeInclude.full i ∷ [])) is
    ok (of_interfaces ++ (of_methods ++ more))

  unfoldable pub factory_entry : Row → Outcome (List TypeEntry)
  unfolding attribute_name args first_type
  factory_entry r = do
    name ← attribute_name m r
    let named = do
      found ← args m reader fuel r
      ok (elim (first_type found) [ none ↦ [] | some d ↦ entry_of TypeInclude.full d ∷ [] ])
    if same_text name (text "StaticAttribute")
          || same_text name (text "ActivatableAttribute")
          || same_text name (text "ComposableAttribute")
        then named
        else ok []

  unfoldable pub class_dependencies : TypeDef → Outcome (List TypeEntry)
  unfolding element_definitions interfaces bases definition attributes factory_entry
  class_dependencies d = do
    of_generics ← element_definitions TypeInclude.minimal (generics_of d)
    is ← interfaces m reader fuel d
    of_interfaces ← flat_map (definition TypeInclude.full) is
    bs ← bases m reader fuel depth d
    of_bases ← flat_map (definition TypeInclude.full) bs
    rows ← type_attributes m d
    factories ← flat_map factory_entry rows
    ok (of_generics ++ (of_interfaces ++ (of_bases ++ factories)))

  unfoldable pub class_minimal : TypeDef → Outcome (List TypeEntry)
  unfolding class_interfaces find_default definition
  class_minimal d = do
    infos ← class_interfaces m reader fuel depth d
    elim (find_default infos) [ none ↦ ok [] | some i ↦ definition TypeInclude.minimal i ]

  unfoldable pub struct_dependencies : TypeDef → Outcome (List TypeEntry)
  unfolding full_name named_entry fields field_definition is_convertible_to
  struct_dependencies d = do
    full ← full_name m d
    let strings = do
      a ← named_entry TypeInclude.minimal bstr.0 (text "SysFreeString")
      b ← named_entry TypeInclude.minimal bstr.0 (text "SysAllocStringLen")
      c ← named_entry TypeInclude.minimal bstr.0 (text "SysStringLen")
      ok (a ∷ b ∷ c ∷ [])
    let rotation = do
      e ←
          named_entry TypeInclude.minimal (text "Windows.Win32.Graphics.Direct2D")
            (text "D2D1MakeRotateMatrix")
      ok (e ∷ [])
    let by_fields = do
      fs ← fields m d
      of_fields ← flat_map (field_definition TypeInclude.minimal) fs
      other ← is_convertible_to m reader fuel d
      ok (of_fields ++ push_convertible other)
    if same_name full bstr
        then strings
        else if same_name full matrix3x2
        then rotation
        else by_fields

  -- `TypeDef::dependencies`
  unfoldable pub type_dependencies : TypeInclude → TypeDef → Outcome (List TypeEntry)
  unfolding kind interface_dependencies class_minimal class_dependencies struct_dependencies
      invoke_method method_dependencies
  type_dependencies wanted d = do
    k ← kind m d
    elim k [
      | TypeKind.interface ↦ elim wanted [
        | TypeInclude.minimal ↦ ok []
        | _ ↦ interface_dependencies d
      ]
      | TypeKind.class ↦ elim wanted [
        | TypeInclude.minimal ↦ class_minimal d
        | _ ↦ class_dependencies d
      ]
      | TypeKind.enum ↦ ok []
      | TypeKind.struct ↦ struct_dependencies d
      | TypeKind.delegate ↦ (do r ← invoke_method m reader fuel d; method_dependencies r)
    ]

  -- `TypeRow::dependencies`
  unfoldable pub row_dependencies : TypeRow → TypeInclude → Outcome (List TypeEntry)
  unfolding type_dependencies method_dependencies field_definition
  row_dependencies (TypeRow.type_def d) wanted = type_dependencies wanted d
  row_dependencies (TypeRow.method_def r) wanted = method_dependencies r
  row_dependencies (TypeRow.field r) wanted = field_definition wanted r
