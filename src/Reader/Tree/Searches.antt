-- ===== src/Reader/Tree/Searches.antt =====
-- What the searches of the tree find after an insertion or a change. A place in the tree is the first piece of a
-- namespace and the others.
use windows_rs.Base.{
  List, [], ◌∷◌, ◌++◌, Option, none, some, ◌≡◌, ◌≢◌, ◌⊎◌, inl, inr, refl, ap, sym, ◌∙◌,
}
use windows_rs.Base.Text.{Text, cmp_text, cmp_text_refl, cmp_text-eq}
use windows_rs.Base.OrderedMap.{
  OrderedMap, get, entry, or_else, get-entry, get-entry_other, Ordering-cases,
}
use windows_rs.Reader.Tree.{
  TypeTree, type_tree, TypeEntry, to_map, of_map, types, namespaces, set_namespaces, set_include,
  from_namespace, dot, insert_namespace_pos, get_namespace_pos,
}

to_map-of_map : (l : OrderedMap TypeTree) → to_map (of_map l) ≡ l
to_map-of_map [] = refl
to_map-of_map ((key, tree) ∷ rest) = ap (λ r. (key, tree) ∷ r) (to_map-of_map rest)

pub namespaces-set : (l : OrderedMap TypeTree) (t : TypeTree) → namespaces (set_namespaces l t) ≡ l
namespaces-set l (type_tree n ts children i) = to_map-of_map l

pub types-set : (l : OrderedMap TypeTree) (t : TypeTree) → types (set_namespaces l t) ≡ types t
types-set l (type_tree n ts children i) = refl

pub types-set_include : (t : TypeTree) → types (set_include t) ≡ types t
types-set_include (type_tree n ts children i) = refl

pub namespaces-set_include : (t : TypeTree) → namespaces (set_include t) ≡ namespaces t
namespaces-set_include (type_tree n ts children i) = refl

pub same-or-not : (s t : Text) → (s ≡ t) ⊎ (s ≢ t)
same-or-not s t = elim (Ordering-cases (cmp_text s t)) [
  | inl e ↦ inr (λ q. let r = rw q at e in cc (r, cmp_text_refl t))
  | inr (inl e) ↦ inl (cmp_text-eq s t e)
  | inr (inr e) ↦ inr (λ q. let r = rw q at e in cc (r, cmp_text_refl t))
]

-- The types of a namespace that may be missing, and those at a place.
abbrev pub types_of : Option TypeTree → OrderedMap TypeEntry
types_of none = []
types_of (some t) = types t

unfoldable pub types_at : Text → List Text → TypeTree → OrderedMap TypeEntry
unfolding get_namespace_pos
types_at piece rest t = types_of (get_namespace_pos piece rest t)

abbrev pub types_in : List Text → Option TypeTree → OrderedMap TypeEntry
types_in [] found = types_of found
types_in (next ∷ rest) none = []
types_in (next ∷ rest) (some child) = types_at next rest child

-- Only the part of the tree below the first piece counts.
pub types_at_lem :
    (piece : Text) (rest : List Text) (t : TypeTree)
    → types_at piece rest t ≡ types_in rest (get piece (namespaces t))
unfolding types_at
types_at_lem piece [] t = refl
types_at_lem piece (next ∷ rest) t =
    elim (get piece (namespaces t))
      as (λ o.
        types_of (elim o [ none ↦ none | some child ↦ get_namespace_pos next rest child ])
        ≡ types_in (next ∷ rest) o) [ none ↦ refl | some child ↦ refl ]

pub types_in_none : (rest : List Text) → types_in rest none ≡ []
types_in_none [] = refl
types_in_none (next ∷ rest) = refl

types_at-fresh :
    (piece : Text) (rest : List Text) (n : Text) → types_at piece rest (from_namespace n) ≡ []
unfolding from_namespace get
types_at-fresh piece rest n = types_at_lem piece rest (from_namespace n) ∙ types_in_none rest

-- A namespace that an insertion makes has no types.
types_or_fresh :
    (n : Text) (o : Option TypeTree) → types (or_else (from_namespace n) o) ≡ types_of o
unfolding from_namespace
types_or_fresh n none = refl
types_or_fresh n (some c) = refl

types_at_or_fresh :
    (n next : Text) (rest : List Text) (o : Option TypeTree)
    → types_at next rest (or_else (from_namespace n) o) ≡ types_in (next ∷ rest) o
types_at_or_fresh n next rest none = types_at-fresh next rest n
types_at_or_fresh n next rest (some c) = refl

-- A change of a namespace that acts on its types alone.
module _ (change : TypeTree → TypeTree) (act : OrderedMap TypeEntry → OrderedMap TypeEntry)
    (keeps : (c : TypeTree) → namespaces (change c) ≡ namespaces c)
    (acts : (c : TypeTree) → types (change c) ≡ act (types c)) where
  types-insert :
      (before piece : Text) (rest : List Text) (t : TypeTree)
      → types (insert_namespace_pos change before piece rest t) ≡ types t
  unfolding insert_namespace_pos
  types-insert before piece [] t = types-set _ t
  types-insert before piece (next ∷ rest) t = types-set _ t

  pub types_at-insert :
      (before piece : Text) (rest : List Text) (t : TypeTree)
      → types_at piece rest (insert_namespace_pos change before piece rest t)
        ≡ act (types_at piece rest t)
  unfolding insert_namespace_pos
  types_at-insert before piece [] t =
      let fresh = from_namespace (before ++ piece) in
      let found = get piece (namespaces t) in
      rw
        (
          types_at_lem piece [] (set_namespaces (entry piece fresh change (namespaces t)) t),
          namespaces-set (entry piece fresh change (namespaces t)) t,
          get-entry piece fresh change (namespaces t),
          acts (or_else fresh found),
          types_or_fresh (before ++ piece) found,
          types_at_lem piece [] t,
        )
        refl
  types_at-insert before piece (next ∷ rest) t =
      let fresh = from_namespace (before ++ piece) in
      let deeper = insert_namespace_pos change (before ++ piece ++ dot) next rest in
      let found = get piece (namespaces t) in
      rw
        (
          types_at_lem piece (next ∷ rest)
              (set_namespaces (entry piece fresh deeper (namespaces t)) t),
          namespaces-set (entry piece fresh deeper (namespaces t)) t,
          get-entry piece fresh deeper (namespaces t),
          types_at-insert (before ++ piece ++ dot) next rest (or_else fresh found),
          types_at_or_fresh (before ++ piece) next rest found,
          types_at_lem piece (next ∷ rest) t,
        )
        refl

  -- An insertion below a piece, seen from the places below that piece.
  types_in-deeper :
      (before next : Text) (more rs : List Text) (n : Text) (o : Option TypeTree)
      → ((s : Text) (ss : List Text) (t : TypeTree)
          → rs ≡ s ∷ ss
          → types_at s ss (insert_namespace_pos change before next more t) ≡ types_at s ss t)
      → types_in rs
          (some (insert_namespace_pos change before next more (or_else (from_namespace n) o)))
        ≡ types_in rs o
  types_in-deeper before next more [] n o h =
      types-insert before next more (or_else (from_namespace n) o) ∙ types_or_fresh n o
  types_in-deeper before next more (s ∷ ss) n o h =
      h s ss (or_else (from_namespace n) o) refl ∙ types_at_or_fresh n s ss o

  types_in-change :
      (rs : List Text) (n : Text) (o : Option TypeTree)
      → rs ≢ []
      → types_in rs (some (change (or_else (from_namespace n) o))) ≡ types_in rs o
  types_in-change [] n o h = absurd (h refl)
  types_in-change (s ∷ ss) n o h =
      let c = or_else (from_namespace n) o in
      rw (types_at_lem s ss (change c), keeps c, sym (types_at_lem s ss c))
        (types_at_or_fresh n s ss o)

  pub types_at-insert_other :
      (before piece : Text) (rest : List Text) (r : Text) (rs : List Text) (t : TypeTree)
      → ¬ ((r ≡ piece) × (rs ≡ rest))
      → types_at r rs (insert_namespace_pos change before piece rest t) ≡ types_at r rs t
  unfolding insert_namespace_pos
  types_at-insert_other before piece [] r rs t n =
      let fresh = from_namespace (before ++ piece) in
      rw
        (
          types_at_lem r rs (set_namespaces (entry piece fresh change (namespaces t)) t),
          namespaces-set (entry piece fresh change (namespaces t)) t,
          types_at_lem r rs t,
        )
        (elim (same-or-not r piece) [
          | inl e ↦
              rw (e, get-entry piece fresh change (namespaces t))
                (types_in-change rs (before ++ piece) (get piece (namespaces t)) (λ q. n (e, q)))
          | inr e ↦ rw (get-entry_other piece fresh change r e (namespaces t)) refl
        ])
  types_at-insert_other before piece (next ∷ rest) r rs t n =
      let fresh = from_namespace (before ++ piece) in
      let below = before ++ piece ++ dot in
      let deeper = insert_namespace_pos change below next rest in
      rw
        (
          types_at_lem r rs (set_namespaces (entry piece fresh deeper (namespaces t)) t),
          namespaces-set (entry piece fresh deeper (namespaces t)) t,
          types_at_lem r rs t,
        )
        (elim (same-or-not r piece) [
          | inl e ↦
              rw (e, get-entry piece fresh deeper (namespaces t))
                (types_in-deeper below next rest rs (before ++ piece) (get piece (namespaces t))
                  (λ s ss c q.
                    types_at-insert_other below next rest s ss c (λ w. n (e, cc (q, w.0, w.1)))))
          | inr e ↦ rw (get-entry_other piece fresh deeper r e (namespaces t)) refl
        ])
