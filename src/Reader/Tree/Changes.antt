-- ===== src/Reader/Tree/Changes.antt =====
-- What the searches of the tree find after `get_namespace_mut`.
use windows_rs.Base.{List, [], ◌∷◌, Option, none, some, ◌≡◌, ◌≢◌, inl, inr, refl, sym, ◌∙◌}
use windows_rs.Base.Text.{Text}
use windows_rs.Base.OrderedMap.{OrderedMap, get, get_mut, map_some, get-get_mut, get-get_mut_other}
use windows_rs.Reader.Tree.{
  TypeTree, TypeEntry, types, namespaces, set_namespaces, set_include, get_namespace_mut_pos,
}
use windows_rs.Reader.Tree.Searches.{
  types_at, types_of, types_in, types_at_lem, namespaces-set, types-set, types-set_include,
  namespaces-set_include, same-or-not,
}

-- A change of a namespace that acts on its types alone, and not where there are none.
module _ (change : TypeTree → TypeTree) (act : OrderedMap TypeEntry → OrderedMap TypeEntry)
    (keeps : (c : TypeTree) → namespaces (change c) ≡ namespaces c)
    (acts : (c : TypeTree) → types (change c) ≡ act (types c)) (idle : act [] ≡ []) where
  abbrev change_included : TypeTree → TypeTree
  change_included c = change (set_include c)

  acts_some : (o : Option TypeTree) → types_of (map_some change_included o) ≡ act (types_of o)
  acts_some none = sym idle
  acts_some (some c) = rw (acts (set_include c), types-set_include c) refl

  -- The map of the namespaces that an update leaves.
  namespaces_lem :
      (l : OrderedMap TypeTree) (t : TypeTree) → namespaces (set_include (set_namespaces l t)) ≡ l
  namespaces_lem l t = namespaces-set_include (set_namespaces l t) ∙ namespaces-set l t

  types_lem :
      (l : OrderedMap TypeTree) (t : TypeTree) → types (set_include (set_namespaces l t)) ≡ types t
  types_lem l t = types-set_include (set_namespaces l t) ∙ types-set l t

  types-get_mut :
      (piece : Text) (rest : List Text) (t : TypeTree)
      → types (get_namespace_mut_pos change piece rest t) ≡ types t
  unfolding get_namespace_mut_pos
  types-get_mut piece [] t = types_lem (get_mut piece change_included (namespaces t)) t
  types-get_mut piece (next ∷ rest) t =
      types_lem (get_mut piece (get_namespace_mut_pos change next rest) (namespaces t)) t

  acts_deeper :
      (next : Text) (rest : List Text) (o : Option TypeTree)
      → ((c : TypeTree)
          → types_at next rest (get_namespace_mut_pos change next rest c)
            ≡ act (types_at next rest c))
      → types_in (next ∷ rest) (map_some (get_namespace_mut_pos change next rest) o)
        ≡ act (types_in (next ∷ rest) o)
  acts_deeper next rest none h = sym idle
  acts_deeper next rest (some c) h = h c

  pub types_at-get_mut :
      (piece : Text) (rest : List Text) (t : TypeTree)
      → types_at piece rest (get_namespace_mut_pos change piece rest t)
        ≡ act (types_at piece rest t)
  unfolding get_namespace_mut_pos
  types_at-get_mut piece [] t =
      let after = get_mut piece change_included (namespaces t) in
      rw
        (
          types_at_lem piece [] (set_include (set_namespaces after t)),
          namespaces_lem after t,
          get-get_mut piece change_included (namespaces t),
          types_at_lem piece [] t,
        )
        (acts_some (get piece (namespaces t)))
  types_at-get_mut piece (next ∷ rest) t =
      let deeper = get_namespace_mut_pos change next rest in
      let after = get_mut piece deeper (namespaces t) in
      rw
        (
          types_at_lem piece (next ∷ rest) (set_include (set_namespaces after t)),
          namespaces_lem after t,
          get-get_mut piece deeper (namespaces t),
          types_at_lem piece (next ∷ rest) t,
        )
        (acts_deeper next rest (get piece (namespaces t)) (types_at-get_mut next rest))

  other_change :
      (rs : List Text) (o : Option TypeTree)
      → rs ≢ []
      → types_in rs (map_some change_included o) ≡ types_in rs o
  other_change [] o h = absurd (h refl)
  other_change (s ∷ ss) none h = refl
  other_change (s ∷ ss) (some c) h =
      rw
        (
          types_at_lem s ss (change_included c),
          keeps (set_include c),
          namespaces-set_include c,
          sym (types_at_lem s ss c),
        )
        refl

  other_deeper :
      (next : Text) (rest rs : List Text) (o : Option TypeTree)
      → ((s : Text) (ss : List Text) (c : TypeTree)
          → rs ≡ s ∷ ss
          → types_at s ss (get_namespace_mut_pos change next rest c) ≡ types_at s ss c)
      → types_in rs (map_some (get_namespace_mut_pos change next rest) o) ≡ types_in rs o
  other_deeper next rest [] none h = refl
  other_deeper next rest [] (some c) h = types-get_mut next rest c
  other_deeper next rest (s ∷ ss) none h = refl
  other_deeper next rest (s ∷ ss) (some c) h = h s ss c refl

  pub types_at-get_mut_other :
      (piece : Text) (rest : List Text) (r : Text) (rs : List Text) (t : TypeTree)
      → ¬ ((r ≡ piece) × (rs ≡ rest))
      → types_at r rs (get_namespace_mut_pos change piece rest t) ≡ types_at r rs t
  unfolding get_namespace_mut_pos
  types_at-get_mut_other piece [] r rs t n =
      let after = get_mut piece change_included (namespaces t) in
      rw
        (
          types_at_lem r rs (set_include (set_namespaces after t)),
          namespaces_lem after t,
          types_at_lem r rs t,
        )
        (elim (same-or-not r piece) [
          | inl e ↦
              rw (e, get-get_mut piece change_included (namespaces t))
                (other_change rs (get piece (namespaces t)) (λ q. n (e, q)))
          | inr e ↦ rw (get-get_mut_other piece change_included r e (namespaces t)) refl
        ])
  types_at-get_mut_other piece (next ∷ rest) r rs t n =
      let deeper = get_namespace_mut_pos change next rest in
      let after = get_mut piece deeper (namespaces t) in
      rw
        (
          types_at_lem r rs (set_include (set_namespaces after t)),
          namespaces_lem after t,
          types_at_lem r rs t,
        )
        (elim (same-or-not r piece) [
          | inl e ↦
              rw (e, get-get_mut piece deeper (namespaces t))
                (other_deeper next rest rs (get piece (namespaces t)) (λ s ss c q.
                  types_at-get_mut_other next rest s ss c (λ w. n (e, cc (q, w.0, w.1)))))
          | inr e ↦ rw (get-get_mut_other piece deeper r e (namespaces t)) refl
        ])
