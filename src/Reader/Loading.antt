-- ===== src/Reader/Loading.antt =====
-- `TypeReader::new` of crates/gen/src/parser/type_reader.rs: all files' type definitions, gathered in the tree of
-- types, and their nested classes. The map of the nested types, a `HashMap` whose keys are rows, is a list in
-- which every row stands once.
pub mod Gathered
use windows_rs.Base.{
  ℕ, zero, suc, ◌+◌, List, [], ◌∷◌, ◌++◌, Bool, true, false, ◌||◌, not, if◌then◌else◌, Option, none,
  some, Outcome, ok, ◌>>=◌, Mode,
}
use windows_rs.Base.Text.{Text, text}
use windows_rs.Base.Traverse.{traverse}
use windows_rs.Base.OrderedMap.{OrderedMap, entry}
use windows_rs.Metadata.Table.{TableIndex}
use windows_rs.Metadata.File.{File, Row, new_row, rows_between}
use windows_rs.Metadata.Order.{eq}
use windows_rs.Metadata.Types.{TypeDef, from_row, row_of}
use windows_rs.Metadata.Rows.{fields, methods}
use windows_rs.Metadata.Rows.Flags
use windows_rs.Metadata.Rows.Names.{FullName, same_name, name, namespace, field_name, method_name}
use windows_rs.Metadata.Rows.TypeDefs.{flags, extends, nested_type, nested_enclosing_type}
use windows_rs.Reader.Tree.{TypeTree, TypeRow, from_namespace, set_include}
use windows_rs.Reader.Registry.{Item, insert_item}
use windows_rs.Reader.WellKnown.{is_well_known, trim_tick, is_empty}

-- The rows of a list with their names.
unfoldable pub with_names :
    (Row → Outcome Text) → (Row → TypeRow) → List Row → Outcome (List (Text × TypeRow))
unfolding traverse
with_names name_of wrap = traverse (λ r. do name ← name_of r; ok (name, wrap r))

-- What a type definition puts into its namespace: itself, or, where it only holds constants and functions, those.
unfoldable pub entries_of : Mode → TypeDef → Text → FullName → Outcome (List (Text × TypeRow))
unfolding flags Flags.windows_runtime with_names fields methods field_name method_name
entries_of m d name base = do
  word ← flags m d
  let members = do
    fs ← fields m d
    named_fields ← with_names (field_name m) TypeRow.field fs
    ms ← methods m d
    named_methods ← with_names (method_name m) TypeRow.method_def ms
    ok (named_fields ++ named_methods)
  if Flags.windows_runtime word || not (same_name base (text "System", text "Object"))
      then ok ((name, TypeRow.type_def d) ∷ [])
      else members

-- The body of the loop over the type definitions; `none` where it continues early.
unfoldable pub item_of : Mode → TypeDef → Outcome (Option Item)
unfolding namespace name trim_tick is_well_known extends entries_of
item_of m d = do
  ns ← namespace m d
  full ← name m d
  trimmed ← trim_tick m full
  let insert = do
    base ← extends m d
    let inserted = do
      es ← entries_of m d trimmed base
      ok (some (record { namespace = ns; entries = es }))
    if same_name base (text "System", text "Attribute") then ok none else inserted
  if is_empty ns || is_well_known (ns, trimmed) then ok none else insert

abbrev pub Nested : Type 0
Nested = List (Row × OrderedMap TypeDef)

-- `nested.entry(enclosing).or_default().insert(name, enclosed)`
unfoldable pub insert_nested : Row → Text → TypeDef → Nested → Nested
unfolding entry eq
insert_nested enclosing name enclosed [] = (enclosing, (name, enclosed) ∷ []) ∷ []
insert_nested enclosing name enclosed ((r, l) ∷ rest) =
    let later = insert_nested enclosing name enclosed rest in
    if eq r enclosing then (r, entry name enclosed (λ old. enclosed) l) ∷ rest else (r, l) ∷ later

-- `self.nested.get(&enclosing.row)`
unfoldable pub nested_types : Row → Nested → Option (OrderedMap TypeDef)
unfolding eq
nested_types enclosing [] = none
nested_types enclosing ((r, l) ∷ rest) =
    let later = nested_types enclosing rest in if eq r enclosing then some l else later

pub record TypeReader : Type 0 where
  pub nested : Nested
  pub types : TypeTree

abbrev pub insert_found : Option Item → TypeTree → TypeTree
insert_found none tree = tree
insert_found (some item) tree = insert_item item tree

unfoldable pub add_type_defs : Mode → List Row → TypeReader → Outcome TypeReader
unfolding item_of
add_type_defs m [] reader = ok reader
add_type_defs m (r ∷ rest) reader = do
  found ← item_of m (from_row r)
  add_type_defs m rest (record reader { types = insert_found found reader.types })

-- The enclosing type of a nested class, the name in it and the nested type.
unfoldable pub nested_of : Mode → Row → Outcome (Row × Text × TypeDef)
unfolding nested_type nested_enclosing_type name
nested_of m r = do
  enclosed ← nested_type m r
  enclosing ← nested_enclosing_type m r
  inner ← name m enclosed
  ok (row_of enclosing, inner, enclosed)

unfoldable pub add_nested_classes : Mode → List Row → TypeReader → Outcome TypeReader
unfolding nested_of insert_nested
add_nested_classes m [] reader = ok reader
add_nested_classes m (r ∷ rest) reader = do
  (enclosing, inner, enclosed) ← nested_of m r
  add_nested_classes m rest
      (record reader { nested = insert_nested enclosing inner enclosed reader.nested })

-- The rows of the two tables of a file.
abbrev pub type_def_rows : File → List Row
type_def_rows f = rows_between 0 (f.tables TableIndex.type_def).row_count TableIndex.type_def f

abbrev pub nested_class_rows : File → List Row
nested_class_rows f =
    rows_between 0 (f.tables TableIndex.nested_class).row_count TableIndex.nested_class f

unfoldable pub add_files : Mode → List File → TypeReader → Outcome TypeReader
unfolding add_type_defs add_nested_classes
add_files m [] reader = ok reader
add_files m (f ∷ rest) reader = do
  with_types ← add_type_defs m (type_def_rows f) reader
  with_nested ← add_nested_classes m (nested_class_rows f) with_types
  add_files m rest with_nested

-- `TypeReader::new`, from the files that `crate_winmds` finds
unfoldable pub new : Mode → List File → Outcome TypeReader
unfolding add_files from_namespace
new m files = add_files m files (record { nested = []; types = set_include (from_namespace []) })
