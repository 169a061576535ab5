-- ===== src/Base/OrderedMap.antt =====
-- `BTreeMap` from text: the entries in the order of their keys.
use Prim.Native.Nat.{Ordering}
use mathlib.Core.Path.{◌≡◌, refl, sym, ◌∙◌}
use mathlib.Core.Logic.{◌≢◌, ◌⊎◌, inl, inr}
use mathlib.Core.Option.{Option, none, some}
use mathlib.Core.List.{List, [], ◌∷◌}
use windows_rs.Base.Tests.{by_order}
use windows_rs.Base.Text.{Text, cmp_text, cmp_text_refl, cmp_text-eq, cmp_text_trans}

abbrev pub OrderedMap {ℓ} : Type ℓ → Type ℓ
OrderedMap A = List (Text × A)

unfoldable pub get {ℓ} : {A : Type ℓ} → Text → OrderedMap A → Option A
get k [] = none
get k ((key, a) ∷ l) = let later = get k l in by_order (cmp_text k key) none (some a) later

-- `entry(k).or_insert(fresh)`, and then `change` at the value.
unfoldable pub entry {ℓ} : {A : Type ℓ} → Text → A → (A → A) → OrderedMap A → OrderedMap A
entry k fresh change [] = (k, change fresh) ∷ []
entry k fresh change ((key, a) ∷ l) =
    let later = entry k fresh change l in
    by_order (cmp_text k key) ((k, change fresh) ∷ (key, a) ∷ l) ((key, change a) ∷ l)
      ((key, a) ∷ later)

-- `get_mut(k)`, and then `change` at the value.
unfoldable pub get_mut {ℓ} : {A : Type ℓ} → Text → (A → A) → OrderedMap A → OrderedMap A
get_mut k change [] = []
get_mut k change ((key, a) ∷ l) =
    let later = get_mut k change l in
    by_order (cmp_text k key) ((key, a) ∷ l) ((key, change a) ∷ l) ((key, a) ∷ later)

abbrev pub or_else {ℓ} : {A : Type ℓ} → A → Option A → A
or_else d none = d
or_else d (some a) = a

abbrev pub map_some {ℓ κ} : {A : Type ℓ} {B : Type κ} → (A → B) → Option A → Option B
map_some f none = none
map_some f (some a) = some (f a)

pub Ordering-cases : (o : Ordering) → (o ≡ Ordering.lt) ⊎ ((o ≡ Ordering.eq) ⊎ (o ≡ Ordering.gt))
Ordering-cases Ordering.lt = inl refl
Ordering-cases Ordering.eq = inr (inl refl)
Ordering-cases Ordering.gt = inr (inr refl)

module _ {ℓ} {A : Type ℓ} (k : Text) (fresh : A) (change : A → A) where
  pub get-entry :
      (l : OrderedMap A) → get k (entry k fresh change l) ≡ some (change (or_else fresh (get k l)))
  unfolding get entry
  get-entry [] = rw (cmp_text_refl k) refl
  get-entry ((key, a) ∷ l) = elim (Ordering-cases (cmp_text k key)) [
    | inl e ↦ rw (e, cmp_text_refl k) refl
    | inr (inl e) ↦ rw (e, e) refl
    | inr (inr e) ↦ rw (e, e, get-entry l) refl
  ]

  pub get-entry_other :
      (j : Text) → j ≢ k → (l : OrderedMap A) → get j (entry k fresh change l) ≡ get j l
  unfolding get entry
  get-entry_other j n [] = elim (Ordering-cases (cmp_text j k)) [
    | inl e ↦ rw e refl
    | inr (inl e) ↦ absurd (n (cmp_text-eq j k e))
    | inr (inr e) ↦ rw e refl
  ]
  get-entry_other j n ((key, a) ∷ l) = elim (Ordering-cases (cmp_text k key)) [
    | inl e ↦ elim (Ordering-cases (cmp_text j k)) [
      | inl q ↦ rw (e, q, cmp_text_trans j k key q e) refl
      | inr (inl q) ↦ absurd (n (cmp_text-eq j k q))
      | inr (inr q) ↦ rw (e, q) refl
    ]
    | inr (inl e) ↦ elim (Ordering-cases (cmp_text j key)) [
      | inl q ↦ rw (e, q) refl
      | inr (inl q) ↦ absurd (n (cmp_text-eq j key q ∙ sym (cmp_text-eq k key e)))
      | inr (inr q) ↦ rw (e, q) refl
    ]
    | inr (inr e) ↦ rw (e, get-entry_other j n l) refl
  ]

module _ {ℓ} {A : Type ℓ} (k : Text) (change : A → A) where
  pub get-get_mut : (l : OrderedMap A) → get k (get_mut k change l) ≡ map_some change (get k l)
  unfolding get get_mut
  get-get_mut [] = refl
  get-get_mut ((key, a) ∷ l) = elim (Ordering-cases (cmp_text k key)) [
    | inl e ↦ rw (e, e) refl
    | inr (inl e) ↦ rw (e, e) refl
    | inr (inr e) ↦ rw (e, e, get-get_mut l) refl
  ]

  pub get-get_mut_other :
      (j : Text) → j ≢ k → (l : OrderedMap A) → get j (get_mut k change l) ≡ get j l
  unfolding get get_mut
  get-get_mut_other j n [] = refl
  get-get_mut_other j n ((key, a) ∷ l) = elim (Ordering-cases (cmp_text k key)) [
    | inl e ↦ rw e refl
    | inr (inl e) ↦ elim (Ordering-cases (cmp_text j key)) [
      | inl q ↦ rw (e, q) refl
      | inr (inl q) ↦ absurd (n (cmp_text-eq j key q ∙ sym (cmp_text-eq k key e)))
      | inr (inr q) ↦ rw (e, q) refl
    ]
    | inr (inr e) ↦ rw (e, get-get_mut_other j n l) refl
  ]

pub Option-cases {ℓ} : {A : Type ℓ} (o : Option A) → (o ≡ none) ⊎ ((a : A) × (o ≡ some a))
Option-cases none = inl refl
Option-cases (some a) = inr (a, refl)
