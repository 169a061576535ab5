-- ===== src/Reader/Registry/Marks.antt =====
-- What a search finds after a change of one entry, through `get_namespace_mut` and `get_type_mut`.
use windows_rs.Base.{[], ◌≡◌, refl, sym, ◌∙◌, ap, inl, inr}
use windows_rs.Base.Text.{Text}
use windows_rs.Base.OrderedMap.{OrderedMap, get, get_mut, map_some, get-get_mut, get-get_mut_other}
use windows_rs.Reader.Tree.{
  TypeTree, type_tree, TypeEntry, types, namespaces, pieces, get_namespace_mut, get_type_mut,
}
use windows_rs.Reader.Tree.Searches.{same-or-not}
use windows_rs.Reader.Tree.Changes.{types_at-get_mut, types_at-get_mut_other}
use windows_rs.Reader.Registry.{find_type}
use windows_rs.Reader.Registry.Loads.{types_in_namespace, find_type-types}
use windows_rs.Reader.Registry.Pieces.{split-injective}

namespaces-get_type_mut :
    (f : TypeEntry → TypeEntry) (k : Text) (c : TypeTree)
    → namespaces (get_type_mut f k c) ≡ namespaces c
unfolding get_type_mut
namespaces-get_type_mut f k (type_tree n ts children i) = refl

types-get_type_mut :
    (f : TypeEntry → TypeEntry) (k : Text) (c : TypeTree)
    → types (get_type_mut f k c) ≡ get_mut k f (types c)
unfolding get_type_mut
types-get_type_mut f k (type_tree n ts children i) = refl

-- A change of the types of one namespace.
module _ (n : Text) (change : TypeTree → TypeTree)
    (act : OrderedMap TypeEntry → OrderedMap TypeEntry)
    (keeps : (c : TypeTree) → namespaces (change c) ≡ namespaces c)
    (acts : (c : TypeTree) → types (change c) ≡ act (types c)) (idle : act [] ≡ []) where
  find_type-change :
      (k : Text) (t : TypeTree)
      → find_type n k (get_namespace_mut change n t) ≡ get k (act (types_in_namespace n t))
  unfolding get_namespace_mut
  find_type-change k t =
      find_type-types n k (get_namespace_mut change n t)
      ∙ ap (get k) (types_at-get_mut change act keeps acts idle (pieces n).0 (pieces n).1 t)

  find_type-change_other :
      (n' k : Text) (t : TypeTree)
      → ¬ (n' ≡ n)
      → find_type n' k (get_namespace_mut change n t) ≡ find_type n' k t
  unfolding get_namespace_mut
  find_type-change_other n' k t h =
      find_type-types n' k (get_namespace_mut change n t)
      ∙ ap (get k) (
          types_at-get_mut_other change act keeps acts idle (pieces n).0 (pieces n).1 (pieces n').0
            (pieces n').1 t (λ w. h (split-injective 46 n' n w.0 w.1)))
      ∙ sym (find_type-types n' k t)

module _ (n k : Text) (f : TypeEntry → TypeEntry) (t : TypeTree) where
  pub find_type-mut :
      find_type n k (get_namespace_mut (get_type_mut f k) n t) ≡ map_some f (find_type n k t)
  unfolding get_mut
  find_type-mut =
      find_type-change n (get_type_mut f k) (get_mut k f) (namespaces-get_type_mut f k)
        (types-get_type_mut f k) refl k t
      ∙ get-get_mut k f (types_in_namespace n t)
      ∙ ap (map_some f) (sym (find_type-types n k t))

  pub find_type-mut_other :
      (n' k' : Text)
      → ¬ ((n' ≡ n) × (k' ≡ k))
      → find_type n' k' (get_namespace_mut (get_type_mut f k) n t) ≡ find_type n' k' t
  unfolding get_mut
  find_type-mut_other n' k' h = elim (same-or-not n' n) [
    | inr e ↦
        find_type-change_other n (get_type_mut f k) (get_mut k f) (namespaces-get_type_mut f k)
          (types-get_type_mut f k) refl n' k' t e
    | inl e ↦ rw e (
        find_type-change n (get_type_mut f k) (get_mut k f) (namespaces-get_type_mut f k)
          (types-get_type_mut f k) refl k' t
        ∙ get-get_mut_other k f k' (λ q. h (e, q)) (types_in_namespace n t)
        ∙ sym (find_type-types n k' t))
  ]

pub find_type-touch :
    (n n' k : Text) (t : TypeTree)
    → find_type n' k (get_namespace_mut (λ c. c) n t) ≡ find_type n' k t
find_type-touch n n' k t = elim (same-or-not n' n) [
  | inr e ↦ find_type-change_other n (λ c. c) (λ l. l) (λ c. refl) (λ c. refl) refl n' k t e
  | inl e ↦ rw e (
      find_type-change n (λ c. c) (λ l. l) (λ c. refl) (λ c. refl) refl k t
      ∙ sym (find_type-types n k t))
]
