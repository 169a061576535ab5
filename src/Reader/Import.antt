-- ===== src/Reader/Import.antt =====
-- The import of types with what they depend on: `import_type`, `import_namespace` and `import_type_include` of
-- crates/gen/src/parser/type_reader.rs. What a row depends on is `TypeRow::dependencies`, an argument here. The
-- two functions that call each other are one function over what is to be imported, on fuel.
pub mod Marking
pub mod Weight
pub mod Raising
pub mod Closure
pub mod Program
pub mod Minimal
use windows_rs.Base.{
  ℕ, zero, suc, List, [], ◌∷◌, map, Bool, true, false, not, if◌then◌else◌, Option, Fault, Outcome,
  ok, panic, ◌>>=◌, ◌>>◌, assert, Mode,
}
use windows_rs.Base.Text.{Text}
use windows_rs.Base.OrderedMap.{OrderedMap}
use windows_rs.Metadata.Types.{TypeDef}
use windows_rs.Metadata.Rows.{parent, field_list, method_list}
use windows_rs.Metadata.Rows.Names.{name, namespace, field_name, method_name}
use windows_rs.Reader.Tree.{
  TypeTree, TypeRow, TypeEntry, TypeInclude, namespaces, types, get_namespace, get_namespace_mut,
  get_type_mut,
}
use windows_rs.Reader.Tree as Tree
use windows_rs.Reader.Registry.{find_type}
use windows_rs.Reader.WellKnown.{trim_tick, is_empty}

-- `TypeRow::namespace` and `name`
unfoldable pub row_namespace : Mode → TypeRow → Outcome Text
unfolding namespace parent
row_namespace m (TypeRow.type_def d) = namespace m d
row_namespace m (TypeRow.method_def r) = do d ← parent m method_list r; namespace m d
row_namespace m (TypeRow.field r) = do d ← parent m field_list r; namespace m d

unfoldable pub row_name : Mode → TypeRow → Outcome Text
unfolding name method_name field_name
row_name m (TypeRow.type_def d) = name m d
row_name m (TypeRow.method_def r) = method_name m r
row_name m (TypeRow.field r) = field_name m r

-- What a dependency leads to: a nested type, whose namespace is empty, or a name in a namespace.
pub data Dependency : Type 0 where
  nested : TypeRow → Dependency
  named : Text → Text → TypeInclude → Dependency

unfoldable pub dependency : Mode → TypeEntry → Outcome Dependency
unfolding row_namespace row_name trim_tick
dependency m e = do
  ns ← row_namespace m e.def
  let by_name = do full ← row_name m e.def; k ← trim_tick m full; ok (named ns k e.include)
  if is_empty ns then ok (nested e.def) else by_name

-- Whether an entry is raised by an import at `wanted`, and what to.
abbrev pub raises : TypeInclude → TypeInclude → Bool
raises TypeInclude.full TypeInclude.full = false
raises current TypeInclude.full = true
raises TypeInclude.none wanted = true
raises current wanted = false

abbrev pub raised : TypeInclude → TypeInclude
raised TypeInclude.full = TypeInclude.full
raised wanted = TypeInclude.minimal

abbrev pub set_mark : TypeInclude → TypeEntry → TypeEntry
set_mark wanted e = record e { include = raised wanted }

abbrev pub touch : Text → TypeTree → TypeTree
touch n = get_namespace_mut (λ c. c) n

abbrev pub mark : Text → Text → TypeInclude → TypeTree → TypeTree
mark n k wanted = get_namespace_mut (get_type_mut (set_mark wanted) k) n

-- The loop over the entries that a row depends on.
unfoldable pub import_each :
    Mode → (TypeTree → Dependency → Outcome TypeTree) → List TypeEntry → TypeTree → Outcome TypeTree
unfolding dependency
import_each m visit [] t = ok t
import_each m visit (e ∷ rest) t = do
  d ← dependency m e
  next ← visit t d
  import_each m visit rest next

module _ (m : Mode) (dependencies : TypeRow → TypeInclude → Outcome (List TypeEntry)) where
  unfoldable pub import_type_dependencies :
      (TypeTree → Dependency → Outcome TypeTree)
      → TypeRow
      → TypeInclude
      → TypeTree
      → Outcome TypeTree
  unfolding import_each
  import_type_dependencies visit def wanted t = do
    entries ← dependencies def wanted
    import_each m visit entries t

  unfoldable pub import : ℕ → TypeTree → Dependency → Outcome TypeTree
  unfolding import_type_dependencies find_type get_namespace_mut get_type_mut
  import zero t d = panic Fault.out_of_fuel
  import (suc fuel) t (nested def) =
      import_type_dependencies (import fuel) def TypeInclude.minimal t
  import (suc fuel) t (named n k wanted) = do
    assert (not (is_empty n)) Fault.unexpected
    elim (find_type n k t) [
      | Option.none ↦ ok (touch n t)
      | Option.some e ↦
          (let raise = import_type_dependencies (import fuel) e.def wanted (mark n k wanted t) in
            if raises e.include wanted then raise else ok (touch n t))
    ]

  -- Also tells whether the type is there.
  unfoldable pub import_type : ℕ → Text → Text → TypeTree → Outcome (TypeTree × Bool)
  unfolding import find_type
  import_type fuel n k t = do
    next ← import fuel t (named n k TypeInclude.full)
    ok (next, elim (find_type n k t) [ Option.none ↦ false | Option.some e ↦ true ])

  unfoldable pub import_names : ℕ → Text → OrderedMap TypeEntry → TypeTree → Outcome TypeTree
  unfolding import
  import_names fuel n [] t = ok t
  import_names fuel n ((k, e) ∷ rest) t = do
    next ← import fuel t (named n k TypeInclude.full)
    import_names fuel n rest next

  unfoldable pub import_namespace : ℕ → Text → TypeTree → Outcome (TypeTree × Bool)
  unfolding import_names get_namespace
  import_namespace fuel n t = elim (get_namespace n t) [
    | Option.none ↦ ok (t, false)
    | Option.some found ↦ (do
      next ← import_names fuel (Tree.namespace found) (types found) t
      ok (next, true))
  ]
