-- ===== src/Reader/Registry/Loads.antt =====
-- The tree of types as a map from namespace and name to a row.
use windows_rs.Base.{
  List, [], ◌∷◌, ◌≡◌, ◌≢◌, refl, sym, false, Option, none, some, if◌then◌else◌, Bool-cases, inl,
  inr,
}
use windows_rs.Base.Text.{Text, same_text, same_text_refl, same_text-eq}
use windows_rs.Base.OrderedMap.{OrderedMap, get, entry, or_else, get-entry, get-entry_other}
use windows_rs.Reader.Tree.{
  TypeTree, type_tree, TypeRow, TypeEntry, TypeInclude, types, namespaces, pieces, insert_namespace,
  insert_type, get_namespace, get_type,
}
use windows_rs.Reader.Tree.Searches.{types_at, types_of, types_at-insert, types_at-insert_other}
use windows_rs.Reader.Registry.{
  Item, insert_types, insert_item, insert_items, find_type, first_entry, first_row, or_later,
}
use windows_rs.Reader.Registry.Pieces.{split-injective}

-- The types at a namespace.
abbrev pub types_in_namespace : Text → TypeTree → OrderedMap TypeEntry
types_in_namespace n t = types_at (pieces n).0 (pieces n).1 t

pub find_type-types : (n k : Text) (t : TypeTree) → find_type n k t ≡ get k (types_in_namespace n t)
unfolding find_type types_at get_namespace get_type get
find_type-types n k t =
    elim (get_namespace n t)
      as (λ o. elim o [ none ↦ none | some t' ↦ get_type k t' ] ≡ get k (types_of o)) [
        | none ↦ refl
        | some t' ↦ refl
      ]

-- A row that nothing imports.
abbrev pub unmarked : TypeRow → TypeEntry
unmarked def = record { def = def; include = TypeInclude.none }

-- What is there stays, and else the new row comes.
abbrev pub kept_or : Option TypeEntry → Option TypeRow → Option TypeEntry
kept_or (some e) new = some e
kept_or none none = none
kept_or none (some def) = some (unmarked def)

kept_or-or_later :
    (e : Option TypeEntry) (a b : Option TypeRow)
    → kept_or (kept_or e a) b ≡ kept_or e (or_later a b)
kept_or-or_later (some e) a b = refl
kept_or-or_later none none b = refl
kept_or-or_later none (some a) b = refl

kept_or_none : (e : Option TypeEntry) → kept_or e none ≡ e
kept_or_none (some e) = refl
kept_or_none none = refl

abbrev put_all : List (Text × TypeRow) → OrderedMap TypeEntry → OrderedMap TypeEntry
put_all [] l = l
put_all ((name, def) ∷ rest) l = put_all rest (entry name (unmarked def) (λ e. e) l)

namespaces-insert_types :
    (es : List (Text × TypeRow)) (c : TypeTree) → namespaces (insert_types es c) ≡ namespaces c
unfolding insert_types
namespaces-insert_types [] c = refl
namespaces-insert_types ((name, def) ∷ rest) (type_tree n ts children i) =
    namespaces-insert_types rest (insert_type name def (type_tree n ts children i))

types-insert_types :
    (es : List (Text × TypeRow)) (c : TypeTree) → types (insert_types es c) ≡ put_all es (types c)
unfolding insert_types
types-insert_types [] c = refl
types-insert_types ((name, def) ∷ rest) (type_tree n ts children i) =
    types-insert_types rest (insert_type name def (type_tree n ts children i))

some_kept :
    (def : TypeRow) (o : Option TypeEntry) → some (or_else (unmarked def) o) ≡ kept_or o (some def)
some_kept def none = refl
some_kept def (some e) = refl

same_text-not : (s t : Text) → same_text s t ≡ false → s ≢ t
same_text-not s t e q = let w = rw q at e in cc (w, same_text_refl t)

get-put_all :
    (k : Text) (es : List (Text × TypeRow)) (l : OrderedMap TypeEntry)
    → get k (put_all es l) ≡ kept_or (get k l) (first_entry k es)
get-put_all k [] l = sym (kept_or_none (get k l))
get-put_all k ((name, def) ∷ rest) l =
    let put = entry name (unmarked def) (λ e. e) l in
    elim (Bool-cases (same_text k name)) [
      | inl e ↦
          let q = same_text-eq k name e in
          rw
            (
              get-put_all k rest put,
              e,
              q,
              get-entry name (unmarked def) (λ e. e) l,
              some_kept def (get name l),
            )
            refl
      | inr e ↦
          rw
            (
              get-put_all k rest put,
              e,
              get-entry_other name (unmarked def) (λ e. e) k (same_text-not k name e) l,
            )
            refl
    ]

find_type-insert_item :
    (n k : Text) (item : Item) (t : TypeTree)
    → find_type n k (insert_item item t) ≡ (
        if same_text n item.namespace
        then kept_or (find_type n k t) (first_entry k item.entries)
        else find_type n k t)
unfolding insert_item insert_namespace
find_type-insert_item n k item t =
    let change = insert_types item.entries in
    let act = put_all item.entries in
    let keeps = namespaces-insert_types item.entries in
    let acts = types-insert_types item.entries in
    let p = pieces item.namespace in
    elim (Bool-cases (same_text n item.namespace)) [
      | inl e ↦
          let q = same_text-eq n item.namespace e in
          rw
            (
              e,
              q,
              find_type-types item.namespace k (insert_item item t),
              types_at-insert change act keeps acts [] p.0 p.1 t,
              get-put_all k item.entries (types_in_namespace item.namespace t),
              find_type-types item.namespace k t,
            )
            refl
      | inr e ↦
          rw
            (
              e,
              find_type-types n k (insert_item item t),
              types_at-insert_other change act keeps acts [] p.0 p.1 (pieces n).0 (pieces n).1 t
                  (λ w.
                    same_text-not n item.namespace e (split-injective 46 n item.namespace w.0 w.1)),
              find_type-types n k t,
            )
            refl
    ]

step :
    (n k : Text) (item : Item) (rest : List Item) (e : Option TypeEntry)
    → kept_or
        (if same_text n item.namespace then kept_or e (first_entry k item.entries) else e)
        (first_row n k rest)
      ≡ kept_or e (first_row n k (item ∷ rest))
step n k item rest e = elim (Bool-cases (same_text n item.namespace)) [
  | inl q ↦ rw (q, kept_or-or_later e (first_entry k item.entries) (first_row n k rest)) refl
  | inr q ↦ rw q refl
]

pub find_type-insert_items :
    (n k : Text) (items : List Item) (t : TypeTree)
    → find_type n k (insert_items items t) ≡ kept_or (find_type n k t) (first_row n k items)
unfolding insert_items
find_type-insert_items n k [] t = sym (kept_or_none (find_type n k t))
find_type-insert_items n k (item ∷ rest) t =
    rw (find_type-insert_items n k rest (insert_item item t), find_type-insert_item n k item t)
      (step n k item rest (find_type n k t))
