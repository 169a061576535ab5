-- ===== src/Reader/Signatures.antt =====
-- The resolution of types and the parser of signatures: crates/gen/src/parser/type_reader.rs. A type reference may lie in
-- another, and a signature in a signature, so both take fuel; out of fuel is a fault of its own.
pub mod Marks
pub mod Elements
use windows_rs.Base.{
  ℕ, zero, suc, List, [], ◌∷◌, Bool, true, false, ◌==◌, ◌||◌, if◌then◌else◌, Option, Fault, Outcome,
  ok, panic, ◌>>=◌, Mode, length,
}
use windows_rs.Base.Text.{Text, text}
use windows_rs.Base.OrderedMap
use windows_rs.Metadata.File.{File, Row, Blob}
use windows_rs.Metadata.Blob.{read_unsigned, read_expected, read_modifiers}
use windows_rs.Metadata.Types.{
  ElementType, Signature, signature, TypeDef, def, ElementTypes, nil, cons, row_of,
}
use windows_rs.Metadata.Types.FromCode.{from_code}
use windows_rs.Metadata.Codes.TypeDefOrRef
use windows_rs.Metadata.Codes.TypeDefOrRef.{TypeDefOrRef}
use windows_rs.Metadata.Codes.ResolutionScope.{ResolutionScope}
use windows_rs.Metadata.Rows.Names.{
  FullName, same_name, name, namespace, ref_name, ref_namespace, ref_scope, code_full_name,
}
use windows_rs.Metadata.Rows.TypeDefs.{with_generics}
use windows_rs.Metadata.Rows.Members.{type_spec_blob}
use windows_rs.Reader.Tree.{TypeRow, TypeEntry}
use windows_rs.Reader.Registry.{find_type}
use windows_rs.Reader.WellKnown.{well_known, well_known_types, trim_tick}
use windows_rs.Reader.Loading.{TypeReader, nested_types}

module _ (m : Mode) (reader : TypeReader) where
  unfoldable pub resolve_type_row : Text → Text → Outcome TypeRow
  unfolding trim_tick find_type
  resolve_type_row ns k = do
    trimmed ← trim_tick m k
    elim (find_type ns trimmed reader.types) [
      | Option.none ↦ panic Fault.unexpected
      | Option.some e ↦ ok e.def
    ]

  -- `From<&TypeRow> for ElementType`
  unfoldable pub element_of_row : TypeRow → Outcome ElementType
  unfolding with_generics
  element_of_row (TypeRow.type_def d) = do
    applied ← with_generics m d
    ok (ElementType.type_def applied)
  element_of_row (TypeRow.method_def r) = ok (ElementType.method_def r)
  element_of_row (TypeRow.field r) = ok (ElementType.field r)

  unfoldable pub resolve_type : Text → Text → Outcome ElementType
  unfolding resolve_type_row element_of_row
  resolve_type ns k = do row ← resolve_type_row ns k; element_of_row row

  unfoldable pub resolve_type_def : Text → Text → Outcome TypeDef
  unfolding resolve_type_row
  resolve_type_def ns k = do
    row ← resolve_type_row ns k
    elim row [ TypeRow.type_def d ↦ ok d | _ ↦ panic Fault.unexpected ]

  -- A nested type by the name of its reference, in the type that encloses it.
  unfoldable pub resolve_nested : TypeDef → Row → Outcome TypeDef
  unfolding nested_types ref_name OrderedMap.get
  resolve_nested enclosing r = do
    k ← ref_name m r
    elim (nested_types (row_of enclosing) reader.nested) [
      | Option.none ↦ panic Fault.unexpected
      | Option.some inner ↦ elim (OrderedMap.get k inner) [
        | Option.none ↦ panic Fault.unexpected
        | Option.some d ↦ ok d
      ]
    ]

  unfoldable pub resolve_type_ref : ℕ → Row → Outcome TypeDef
  unfolding resolve_nested resolve_type_def ref_scope ref_namespace ref_name
  resolve_type_ref zero r = panic Fault.out_of_fuel
  resolve_type_ref (suc fuel) r = do
    scope ← ref_scope m r
    let by_name = do ns ← ref_namespace m r; k ← ref_name m r; resolve_type_def ns k
    elim scope [
      | ResolutionScope.type_ref outer ↦ (do
        enclosing ← resolve_type_ref fuel outer
        resolve_nested enclosing r)
      | _ ↦ by_name
    ]

  -- `TypeDefOrRef::resolve`
  unfoldable pub resolve_code : ℕ → TypeDefOrRef → Outcome TypeDef
  unfolding resolve_type_ref resolve_type_def namespace name
  resolve_code fuel (TypeDefOrRef.type_def d) = do
    ns ← namespace m d
    k ← name m d
    resolve_type_def ns k
  resolve_code fuel (TypeDefOrRef.type_ref r) = resolve_type_ref fuel r
  resolve_code fuel (TypeDefOrRef.type_spec r) = panic Fault.unexpected

  -- The modifiers that make a signature const.
  unfoldable pub any_const : List TypeDefOrRef → Outcome Bool
  unfolding code_full_name
  any_const [] = ok false
  any_const (code ∷ rest) = do
    full ← code_full_name m code
    let later = any_const rest
    if same_name full (text "System.Runtime.CompilerServices", text "IsConst")
        then ok true
        else later

  unfoldable pub count_pointers : ℕ → ℕ → Blob → Outcome (ℕ × Blob)
  unfolding read_expected
  count_pointers zero pointers b = panic Fault.out_of_fuel
  count_pointers (suc fuel) pointers b = do
    (pointer, after) ← read_expected b 0x0f
    let more = count_pointers fuel (suc pointers) after
    if pointer then more else ok (pointers, b)

  -- `signature_from_blob`, over the parser of types
  unfoldable pub signature_with :
      (Blob → Outcome (ElementType × Blob)) → Blob → Outcome (Option Signature × Blob)
  unfolding read_modifiers read_expected any_const count_pointers
  signature_with type_from b = do
    (modifiers, b1) ← read_modifiers m b
    is_const ← any_const modifiers
    (by_ref, b2) ← read_expected b1 0x10
    (is_void, b3) ← read_expected b2 0x01
    let parse = do
      (is_array, b4) ← read_expected b3 0x1d
      (pointers, b5) ← count_pointers (suc (length b.file.bytes)) 0 b4
      (kind, b6) ← type_from b5
      ok (Option.some (signature kind pointers by_ref is_const is_array), b6)
    if is_void then ok (Option.none, b3) else parse

  abbrev nth_or_void : ElementTypes → ℕ → ElementType
  nth_or_void nil i = ElementType.void
  nth_or_void (cons t rest) zero = t
  nth_or_void (cons t rest) (suc i) = nth_or_void rest i

  abbrev push : ElementTypes → ElementType → ElementTypes
  push nil t = cons t nil
  push (cons u rest) t = cons u (push rest t)

  -- The loop over the arguments of a generic type.
  unfoldable pub push_args :
      (Blob → Outcome (ElementType × Blob)) → ℕ → TypeDef → Blob → Outcome (TypeDef × Blob)
  push_args type_from zero d b = ok (d, b)
  push_args type_from (suc args) (def row generics) b = do
    (t, after) ← type_from b
    push_args type_from args (def row (push generics t)) after

  unfoldable pub type_from_code :
      (Blob → Outcome (ElementType × Blob)) → ℕ → TypeDefOrRef → Outcome ElementType
  unfolding type_spec_blob code_full_name well_known resolve_code with_generics
  type_from_code type_from fuel (TypeDefOrRef.type_spec r) = do
    b ← type_spec_blob m r
    (t, after) ← type_from b
    ok t
  type_from_code type_from fuel code = do
    full ← code_full_name m code
    let resolved = do
      d ← resolve_code fuel code
      applied ← with_generics m d
      ok (ElementType.type_def applied)
    elim (well_known full well_known_types) [ Option.some t ↦ ok t | Option.none ↦ resolved ]

  -- `type_from_blob` behind the code of a type
  unfoldable pub type_behind :
      (Blob → Outcome (ElementType × Blob))
      → ElementTypes
      → ℕ
      → ℕ
      → Blob
      → Outcome (ElementType × Blob)
  unfolding read_unsigned from_code TypeDefOrRef.decode type_from_code signature_with push_args
      resolve_code
  type_behind recur generics fuel code b1 =
      let by_code = do
        (index, b2) ← read_unsigned b1
        found ← TypeDefOrRef.decode m b1.file index
        t ← type_from_code recur fuel found
        ok (t, b2)
      in let by_index = do (index, b2) ← read_unsigned b1; ok (nth_or_void generics index, b2)
        in let by_array = do
          (kind, b2) ← signature_with recur b1
          let bounded = λ (s : Signature). do
            (rank, b3) ← read_unsigned b2
            (bounds_count, b4) ← read_unsigned b3
            (bounds, b5) ← read_unsigned b4
            ok (ElementType.array s bounds, b5)
          elim kind [ Option.none ↦ panic Fault.unwrap_none | Option.some s ↦ bounded s ]
          in let by_generic = do
            (mark, b2) ← read_unsigned b1
            (index, b3) ← read_unsigned b2
            found ← TypeDefOrRef.decode m b1.file index
            d ← resolve_code fuel found
            (args, b4) ← read_unsigned b3
            (applied, b5) ← push_args recur args d b4
            ok (ElementType.type_def applied, b5)
            in elim (from_code code) [
              | Option.some t ↦ ok (t, b1)
              | Option.none ↦
                  (if (code == 0x11) || (code == 0x12)
                    then by_code
                    else if code == 0x13
                    then by_index
                    else if code == 0x14
                    then by_array
                    else if code == 0x15
                    then by_generic
                    else panic Fault.unexpected)
            ]

  unfoldable pub type_from_blob : ElementTypes → ℕ → Blob → Outcome (ElementType × Blob)
  unfolding read_unsigned type_behind
  type_from_blob generics zero b = panic Fault.out_of_fuel
  type_from_blob generics (suc fuel) b = do
    (code, b1) ← read_unsigned b
    type_behind (type_from_blob generics fuel) generics fuel code b1

  unfoldable pub signature_from_blob : ElementTypes → ℕ → Blob → Outcome (Option Signature × Blob)
  unfolding signature_with type_from_blob
  signature_from_blob generics fuel = signature_with (type_from_blob generics fuel)
