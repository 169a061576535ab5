-- ===== src/Reader/Interfaces.antt =====
-- The interfaces and the bases of a type: `interfaces`, `default_interface`, `bases`, `overridable_interfaces` and
-- `invoke_method` of crates/gen/src/tables/type_def.rs, and interface_impl.rs.
use windows_rs.Base.{
  ℕ, zero, suc, List, [], ◌∷◌, ◌++◌, if◌then◌else◌, Option, none, some, Fault, Outcome, ok, panic,
  ◌>>=◌, Mode,
}
use windows_rs.Base.Text.{text, same_text}
use windows_rs.Base.OrderedMap.{OrderedMap, entry}
use windows_rs.Metadata.File.{Row}
use windows_rs.Metadata.Types.{ElementType, ElementTypes, TypeDef, def}
use windows_rs.Metadata.Codes.TypeDefOrRef
use windows_rs.Metadata.Codes.TypeDefOrRef.{TypeDefOrRef}
use windows_rs.Metadata.Rows.{methods}
use windows_rs.Metadata.Rows.Names.{row_u32, same_name, method_name, namespace, name}
use windows_rs.Metadata.Rows.Attributes.{is_default, is_overridable}
use windows_rs.Metadata.Rows.TypeDefs.{extends, interface_impls}
use windows_rs.Reader.Loading.{TypeReader}
use windows_rs.Reader.Signatures.{resolve_type_def, resolve_code, type_from_blob, type_from_code}

abbrev pub generics_of : TypeDef → ElementTypes
generics_of (def r generics) = generics

-- `if let ElementType::TypeDef(def)`
abbrev pub as_type_def : ElementType → Option TypeDef
as_type_def (ElementType.type_def d) = some d
as_type_def _ = none

module _ (m : Mode) (reader : TypeReader) (fuel : ℕ) where
  -- `InterfaceImpl::interface` and `generic_interface`
  unfoldable pub implemented : Row → Outcome TypeDefOrRef
  unfolding row_u32 TypeDefOrRef.decode
  implemented r = do code ← row_u32 m r 1; TypeDefOrRef.decode m r.file code

  unfoldable pub generic_interface : ElementTypes → Row → Outcome ElementType
  unfolding implemented type_from_code type_from_blob
  generic_interface generics r = do
    code ← implemented r
    type_from_code m reader (type_from_blob m reader generics fuel) fuel code

  -- `filter_map` over the rows: types that are not defined in metadata are left out.
  unfoldable pub interfaces_in : ElementTypes → List Row → Outcome (List TypeDef)
  unfolding generic_interface
  interfaces_in generics [] = ok []
  interfaces_in generics (r ∷ rest) = do
    t ← generic_interface generics r
    more ← interfaces_in generics rest
    ok (elim (as_type_def t) [ none ↦ more | some d ↦ d ∷ more ])

  unfoldable pub interfaces : TypeDef → Outcome (List TypeDef)
  unfolding interface_impls interfaces_in
  interfaces d = do rows ← interface_impls m d; interfaces_in (generics_of d) rows

  unfoldable pub default_in : ElementTypes → List Row → Outcome TypeDef
  unfolding is_default generic_interface
  default_in generics [] = panic Fault.unexpected
  default_in generics (r ∷ rest) = do
    default ← is_default m r
    let later = default_in generics rest
    let chosen = do
      t ← generic_interface generics r
      elim (as_type_def t) [ none ↦ later | some d ↦ ok d ]
    if default then chosen else later

  unfoldable pub default_interface : TypeDef → Outcome TypeDef
  unfolding interface_impls default_in
  default_interface d = do rows ← interface_impls m d; default_in (generics_of d) rows

  -- `Bases::next`
  unfoldable pub base : TypeDef → Outcome (Option TypeDef)
  unfolding extends resolve_type_def
  base d = do
    full ← extends m d
    let resolved = do found ← resolve_type_def m reader full.0 full.1; ok (some found)
    if same_name full (text "System", text "Object") then ok none else resolved

  -- All bases, the nearest one first; `depth` bounds their number.
  unfoldable pub bases : ℕ → TypeDef → Outcome (List TypeDef)
  unfolding base
  bases zero d = panic Fault.out_of_fuel
  bases (suc depth) d = do
    found ← base d
    elim found [ none ↦ ok [] | some b ↦ (do more ← bases depth b; ok (b ∷ more)) ]

  -- `filter` and `map` over the rows
  unfoldable pub overridable_in : List Row → Outcome (List TypeDef)
  unfolding is_overridable implemented resolve_code
  overridable_in [] = ok []
  overridable_in (r ∷ rest) = do
    overridable ← is_overridable m r
    let later = overridable_in rest
    let kept = do
      code ← implemented r
      d ← resolve_code m reader fuel code
      more ← later
      ok (d ∷ more)
    if overridable then kept else later

  -- Those of the type, and behind them those of its base.
  unfoldable pub overridable_interfaces : ℕ → TypeDef → Outcome (List TypeDef)
  unfolding interface_impls overridable_in base
  overridable_interfaces zero d = panic Fault.out_of_fuel
  overridable_interfaces (suc depth) d = do
    rows ← interface_impls m d
    own ← overridable_in rows
    found ← base d
    let inherited = λ (b : TypeDef). do more ← overridable_interfaces depth b; ok (own ++ more)
    elim found [ none ↦ ok own | some b ↦ inherited b ]

  -- The names of the methods, as a set.
  unfoldable pub add_method_names :
      List Row → OrderedMap (Unit {0}) → Outcome (OrderedMap (Unit {0}))
  unfolding method_name entry
  add_method_names [] set = ok set
  add_method_names (r ∷ rest) set = do
    k ← method_name m r
    add_method_names rest (entry k tt (λ u. u) set)

  unfoldable pub add_interface_names :
      List TypeDef → OrderedMap (Unit {0}) → Outcome (OrderedMap (Unit {0}))
  unfolding methods add_method_names
  add_interface_names [] set = ok set
  add_interface_names (d ∷ rest) set = do
    rows ← methods m d
    next ← add_method_names rows set
    add_interface_names rest next

  unfoldable pub overridable_methods : ℕ → TypeDef → Outcome (OrderedMap (Unit {0}))
  unfolding overridable_interfaces add_interface_names
  overridable_methods depth d = do
    found ← overridable_interfaces depth d
    add_interface_names found []

  -- `find(|m| m.name() == "Invoke")`
  unfoldable pub find_invoke : List Row → Outcome Row
  unfolding method_name
  find_invoke [] = panic Fault.unwrap_none
  find_invoke (r ∷ rest) = do
    k ← method_name m r
    let later = find_invoke rest
    if same_text k (text "Invoke") then ok r else later

  unfoldable pub invoke_method : TypeDef → Outcome Row
  unfolding methods find_invoke
  invoke_method d = do rows ← methods m d; find_invoke rows

  -- `TypeDef::resolve`
  unfoldable pub resolve : TypeDef → Outcome TypeDef
  unfolding namespace name resolve_type_def
  resolve d = do ns ← namespace m d; k ← name m d; resolve_type_def m reader ns k
