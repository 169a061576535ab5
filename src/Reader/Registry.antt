-- ===== src/Reader/Registry.antt =====
-- What `TypeReader` puts into its tree of types: for each type definition a namespace, and the names with their
-- rows that belong there (crates/gen/src/parser/type_reader.rs and type_tree.rs).
pub mod Pieces
pub mod Loads
pub mod Marks
use windows_rs.Base.{List, [], ◌∷◌, ◌++◌, Bool, true, false, Option, if◌then◌else◌, ◌&&◌}
use windows_rs.Base.Text.{Text, same_text}
use windows_rs.Reader.Tree.{
  TypeTree, TypeRow, TypeEntry, insert_namespace, insert_type, get_namespace, get_type,
}

-- The entries of one type definition, with their namespace.
pub record Item : Type 0 where
  pub namespace : Text
  pub entries : List (Text × TypeRow)

unfoldable pub insert_types : List (Text × TypeRow) → TypeTree → TypeTree
unfolding insert_type
insert_types [] tree = tree
insert_types ((name, def) ∷ rest) tree = insert_types rest (insert_type name def tree)

unfoldable pub insert_item : Item → TypeTree → TypeTree
unfolding insert_types insert_namespace
insert_item item = insert_namespace (insert_types item.entries) item.namespace

unfoldable pub insert_items : List Item → TypeTree → TypeTree
unfolding insert_item
insert_items [] tree = tree
insert_items (item ∷ rest) tree = insert_items rest (insert_item item tree)

-- The lookup that `resolve_type` and its kin make.
unfoldable pub find_type : Text → Text → TypeTree → Option TypeEntry
unfolding get_namespace get_type
find_type namespace name tree = elim (get_namespace namespace tree) [
  | Option.none ↦ Option.none
  | Option.some t ↦ get_type name t
]

-- The first row that is given for a name, alone and in a namespace.
abbrev pub first_entry : Text → List (Text × TypeRow) → Option TypeRow
first_entry name [] = Option.none
first_entry name ((key, def) ∷ rest) =
    let later = first_entry name rest in if same_text name key then Option.some def else later

abbrev pub or_later : Option TypeRow → Option TypeRow → Option TypeRow
or_later Option.none later = later
or_later (Option.some def) later = Option.some def

abbrev pub first_row : Text → Text → List Item → Option TypeRow
first_row namespace name [] = Option.none
first_row namespace name (item ∷ rest) =
    let later = first_row namespace name rest in
    if same_text namespace item.namespace
    then or_later (first_entry name item.entries) later
    else later
