-- ===== src/Reader/Loading/Gathered.antt =====
-- What `TypeReader::new` makes, in terms of what each row says by itself.
use windows_rs.Base.{List, [], ◌∷◌, ◌++◌, Option, none, some, ok, Mode, ◌≡◌, refl, sym, ◌∙◌, ap}
use windows_rs.Base.Text.{Text}
use windows_rs.Base.Traverse.{traverse, traverse-nil, traverse-cons, traverse-append}
use windows_rs.Metadata.File.{File, Row}
use windows_rs.Metadata.Types.{TypeDef, from_row}
use windows_rs.Reader.Tree.{TypeTree, pieces, set_include, from_namespace}
use windows_rs.Reader.Registry.{Item, insert_items, find_type, first_row}
use windows_rs.Base.OrderedMap.{get}
use windows_rs.Reader.Tree.Searches.{types_at_lem, types_in_none}
use windows_rs.Reader.Registry.Loads.{kept_or, find_type-types, find_type-insert_items}
use windows_rs.Reader.Loading.{
  TypeReader, Nested, new, add_files, add_type_defs, add_nested_classes, item_of, nested_of,
  insert_nested, insert_found, type_def_rows, nested_class_rows,
}

-- The rows of all files.
abbrev pub all_rows : (File → List Row) → List File → List Row
all_rows rows_of [] = []
all_rows rows_of (f ∷ rest) = rows_of f ++ all_rows rows_of rest

abbrev pub found : List (Option Item) → List Item
found [] = []
found (none ∷ rest) = found rest
found (some item ∷ rest) = item ∷ found rest

abbrev insert_all_nested : List (Row × Text × TypeDef) → Nested → Nested
insert_all_nested [] nested = nested
insert_all_nested ((enclosing, inner, enclosed) ∷ rest) nested =
    insert_all_nested rest (insert_nested enclosing inner enclosed nested)

insert_items-found :
    (o : Option Item) (rest : List (Option Item)) (t : TypeTree)
    → insert_items (found rest) (insert_found o t) ≡ insert_items (found (o ∷ rest)) t
unfolding insert_items
insert_items-found none rest t = refl
insert_items-found (some item) rest t = refl

add_type_defs_lem :
    (m : Mode) (rows : List Row) (items : List (Option Item)) (reader : TypeReader)
    → traverse (λ r. item_of m (from_row r)) rows ≡ ok items
    → add_type_defs m rows reader
      ≡ ok (record reader { types = insert_items (found items) reader.types })
unfolding add_type_defs insert_items
add_type_defs_lem m [] items reader h =
    rw (sym (traverse-nil (λ r. item_of m (from_row r)) items h)) refl
add_type_defs_lem m (r ∷ rows) items reader h =
    let (y, rest, e, es, q) = traverse-cons (λ r. item_of m (from_row r)) r rows items h in
    rw
      (
        sym q,
        e,
        add_type_defs_lem m rows rest (record reader { types = insert_found y reader.types }) es,
        insert_items-found y rest reader.types,
      )
      refl

add_nested_classes_lem :
    (m : Mode) (rows : List Row) (pairs : List (Row × Text × TypeDef)) (reader : TypeReader)
    → traverse (nested_of m) rows ≡ ok pairs
    → add_nested_classes m rows reader
      ≡ ok (record reader { nested = insert_all_nested pairs reader.nested })
unfolding add_nested_classes
add_nested_classes_lem m [] pairs reader h = rw (sym (traverse-nil (nested_of m) pairs h)) refl
add_nested_classes_lem m (r ∷ rows) pairs reader h =
    let ((enclosing, inner, enclosed), rest, e, es, q) =
      traverse-cons (nested_of m) r rows pairs h in
    rw
      (
        sym q,
        e,
        add_nested_classes_lem m rows rest
            (record reader { nested = insert_nested enclosing inner enclosed reader.nested }) es,
      )
      refl

insert_items-append :
    (a b : List (Option Item)) (t : TypeTree)
    → insert_items (found (a ++ b)) t ≡ insert_items (found b) (insert_items (found a) t)
unfolding insert_items
insert_items-append [] b t = refl
insert_items-append (none ∷ a) b t = insert_items-append a b t
insert_items-append (some item ∷ a) b t = insert_items-append a b (insert_found (some item) t)

insert_all_nested-append :
    (a b : List (Row × Text × TypeDef)) (nested : Nested)
    → insert_all_nested (a ++ b) nested ≡ insert_all_nested b (insert_all_nested a nested)
insert_all_nested-append [] b nested = refl
insert_all_nested-append ((enclosing, inner, enclosed) ∷ a) b nested =
    insert_all_nested-append a b (insert_nested enclosing inner enclosed nested)

add_files_lem :
    (m : Mode) (files : List File) (items : List (Option Item))
    (pairs : List (Row × Text × TypeDef)) (reader : TypeReader)
    → traverse (λ r. item_of m (from_row r)) (all_rows type_def_rows files) ≡ ok items
    → traverse (nested_of m) (all_rows nested_class_rows files) ≡ ok pairs
    → add_files m files reader
      ≡ ok (record {
        nested = insert_all_nested pairs reader.nested;
        types = insert_items (found items) reader.types;
      })
unfolding add_files insert_items
add_files_lem m [] items pairs reader h g =
    rw
      (
        sym (traverse-nil (λ r. item_of m (from_row r)) items h),
        sym (traverse-nil (nested_of m) pairs g),
      )
      refl
add_files_lem m (f ∷ files) items pairs reader h g =
    let item = λ (r : Row). item_of m (from_row r) in
    let (here, later, e, es, q) =
      traverse-append item (type_def_rows f) (all_rows type_def_rows files) items h in
    let (here', later', e', es', q') =
      traverse-append (nested_of m) (nested_class_rows f) (all_rows nested_class_rows files) pairs
        g in
    let with_types : TypeReader = record reader {
      types = insert_items (found here) reader.types;
    } in
    let with_nested : TypeReader = record with_types {
      nested = insert_all_nested here' reader.nested;
    } in
    rw
      (
        sym q,
        sym q',
        add_type_defs_lem m (type_def_rows f) here reader e,
        add_nested_classes_lem m (nested_class_rows f) here' with_types e',
        add_files_lem m files later later' with_nested es es',
        insert_items-append here later reader.types,
        insert_all_nested-append here' later' reader.nested,
      )
      refl

-- Nothing is found in the empty tree.
pub find_type-root :
    (namespace name : Text) → find_type namespace name (set_include (from_namespace [])) ≡ none
unfolding get from_namespace
find_type-root namespace name =
    let root = set_include (from_namespace []) in
    find_type-types namespace name root
    ∙ ap (get name) (
        types_at_lem (pieces namespace).0 (pieces namespace).1 root
        ∙ types_in_none (pieces namespace).1)

-- Where every type definition and every nested class of the files can be read, in any build, `new` returns, and
-- then a search by any namespace and name finds the first row, in the order of the files and their tables, that a type
-- definition gives that name in that namespace, still not imported, or nothing where there is none.
pub new-finds_first :
    (m : Mode) (files : List File) (items : List (Option Item))
    (pairs : List (Row × Text × TypeDef))
    → traverse (λ r. item_of m (from_row r)) (all_rows type_def_rows files) ≡ ok items
    → traverse (nested_of m) (all_rows nested_class_rows files) ≡ ok pairs
    → (reader : TypeReader) × (new m files ≡ ok reader)
      × ((namespace name : Text)
          → find_type namespace name reader.types
            ≡ kept_or none (first_row namespace name (found items)))
unfolding new
new-finds_first m files items pairs h g =
    let root = set_include (from_namespace []) in
    (
      record { nested = insert_all_nested pairs []; types = insert_items (found items) root },
      add_files_lem m files items pairs (record { nested = []; types = root }) h g,
      λ namespace name.
          rw
            (
              find_type-insert_items namespace name (found items) root,
              find_type-root namespace name,
            )
            refl,
    )
