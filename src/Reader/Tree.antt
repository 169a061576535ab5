-- ===== src/Reader/Tree.antt =====
-- `TypeTree` of crates/gen/src/parser/type_tree.rs. A cursor into a namespace, the text with a position, is the
-- text before the position and the pieces between the dots behind it. What the source does through the
-- reference that a search returns is the argument `change`.
pub mod Searches
pub mod Changes
use windows_rs.Base.{List, [], ◌∷◌, ◌++◌, Bool, true, false, Option}
use windows_rs.Base.Text.{Text, text, split}
use windows_rs.Base.OrderedMap.{OrderedMap, get, entry, get_mut}
use windows_rs.Metadata.Types.{TypeDef}
use windows_rs.Metadata.File.{Row}

pub data TypeInclude : Type 0 where
  full minimal none : TypeInclude

pub data TypeRow : Type 0 where
  type_def : TypeDef → TypeRow
  method_def : Row → TypeRow
  field : Row → TypeRow

pub record TypeEntry : Type 0 where
  pub def : TypeRow
  pub include : TypeInclude

mutual
  -- `namespace`, `types`, `namespaces` and `include`
  pub data TypeTree : Type 0 where
    type_tree : Text → OrderedMap TypeEntry → Namespaces → Bool → TypeTree

  pub data Namespaces : Type 0 where
    nil : Namespaces
    cons : Text → TypeTree → Namespaces → Namespaces

-- The namespaces of a tree as a map, and a map as the namespaces of a tree.
abbrev pub to_map : Namespaces → OrderedMap TypeTree
to_map nil = []
to_map (cons key tree rest) = (key, tree) ∷ to_map rest

abbrev pub of_map : OrderedMap TypeTree → Namespaces
of_map [] = nil
of_map ((key, tree) ∷ rest) = cons key tree (of_map rest)

abbrev pub namespace : TypeTree → Text
namespace (type_tree n types children include) = n

abbrev pub types : TypeTree → OrderedMap TypeEntry
types (type_tree n ts children include) = ts

abbrev pub namespaces : TypeTree → OrderedMap TypeTree
namespaces (type_tree n ts children include) = to_map children

abbrev pub include : TypeTree → Bool
include (type_tree n ts children i) = i

abbrev pub set_types : OrderedMap TypeEntry → TypeTree → TypeTree
set_types new (type_tree n ts children i) = type_tree n new children i

abbrev pub set_namespaces : OrderedMap TypeTree → TypeTree → TypeTree
set_namespaces new (type_tree n ts children i) = type_tree n ts (of_map new) i

abbrev pub set_include : TypeTree → TypeTree
set_include (type_tree n ts children i) = type_tree n ts children true

abbrev pub dot : Text
dot = text "."

abbrev pub pieces : Text → Text × List Text
pieces = split 46

unfoldable pub from_namespace : Text → TypeTree
from_namespace n = type_tree n [] nil false

unfoldable pub insert_namespace_pos :
    (TypeTree → TypeTree) → Text → Text → List Text → TypeTree → TypeTree
unfolding entry from_namespace
insert_namespace_pos change before piece [] tree =
    set_namespaces (entry piece (from_namespace (before ++ piece)) change (namespaces tree)) tree
insert_namespace_pos change before piece (next ∷ rest) tree =
    let deeper = insert_namespace_pos change (before ++ piece ++ dot) next rest in
    set_namespaces (entry piece (from_namespace (before ++ piece)) deeper (namespaces tree)) tree

unfoldable pub insert_namespace : (TypeTree → TypeTree) → Text → TypeTree → TypeTree
unfolding insert_namespace_pos
insert_namespace change n = let p = pieces n in insert_namespace_pos change [] p.0 p.1

unfoldable pub insert_type : Text → TypeRow → TypeTree → TypeTree
unfolding entry
insert_type name def tree =
    set_types (entry name (record { def = def; include = TypeInclude.none }) (λ e. e) (types tree))
      tree

unfoldable pub get_type : Text → TypeTree → Option TypeEntry
unfolding get
get_type name tree = get name (types tree)

unfoldable pub get_namespace_pos : Text → List Text → TypeTree → Option TypeTree
unfolding get
get_namespace_pos piece [] tree = get piece (namespaces tree)
get_namespace_pos piece (next ∷ rest) tree = elim (get piece (namespaces tree)) [
  | Option.none ↦ Option.none
  | Option.some child ↦ get_namespace_pos next rest child
]

unfoldable pub get_namespace : Text → TypeTree → Option TypeTree
unfolding get_namespace_pos
get_namespace n tree = let p = pieces n in get_namespace_pos p.0 p.1 tree

-- The way to the namespace is included even where the search ends early.
unfoldable pub get_namespace_mut_pos :
    (TypeTree → TypeTree) → Text → List Text → TypeTree → TypeTree
unfolding get_mut
get_namespace_mut_pos change piece [] tree =
    set_include
      (set_namespaces (get_mut piece (λ ns. change (set_include ns)) (namespaces tree)) tree)
get_namespace_mut_pos change piece (next ∷ rest) tree =
    set_include (
      set_namespaces (get_mut piece (get_namespace_mut_pos change next rest) (namespaces tree))
        tree)

unfoldable pub get_namespace_mut : (TypeTree → TypeTree) → Text → TypeTree → TypeTree
unfolding get_namespace_mut_pos
get_namespace_mut change n = let p = pieces n in get_namespace_mut_pos change p.0 p.1

unfoldable pub get_type_mut : (TypeEntry → TypeEntry) → Text → TypeTree → TypeTree
unfolding get_mut
get_type_mut change name tree = set_types (get_mut name change (types tree)) tree

-- `TypeTree::namespaces`: every namespace below that has types, each before the ones inside it.
unfoldable mutual
  pub namespaces_of : TypeTree → List Text
  namespaces_of (type_tree n ts children i) = namespaces_in children

  pub namespaces_in : Namespaces → List Text
  namespaces_in nil = []
  namespaces_in (cons key (type_tree n [] children i) rest) =
      namespaces_in children ++ namespaces_in rest
  namespaces_in (cons key (type_tree n (t ∷ ts) children i) rest) =
      n ∷ (namespaces_in children ++ namespaces_in rest)
