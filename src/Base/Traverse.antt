-- ===== src/Base/Traverse.antt =====
-- A function that may panic, at every entry of a list.
use mathlib.Core.Path.{◌≡◌, refl}
use mathlib.Core.List.{List, [], ◌∷◌, ◌++◌}
use windows_rs.Base.Faults.{Outcome, ok, panic, ◌>>=◌}

unfoldable pub traverse {ℓ κ} :
    {A : Type ℓ} {B : Type κ} → (A → Outcome B) → List A → Outcome (List B)
traverse f [] = ok []
traverse f (x ∷ xs) = do y ← f x; ys ← traverse f xs; ok (y ∷ ys)

-- What is left when the whole list is done.
module _ {ℓ κ} {A : Type ℓ} {B : Type κ} (f : A → Outcome B) where
  pub traverse-nil : (ys : List B) → traverse f [] ≡ ok ys → [] ≡ ys
  unfolding traverse
  traverse-nil ys e = cc

  cons_cases :
      (o : Outcome B) (os : Outcome (List B)) (ys : List B)
      → (o >>= λ y. os >>= λ rest. ok (y ∷ rest)) ≡ ok ys
      → (y : B) × (rest : List B) × (o ≡ ok y) × (os ≡ ok rest) × (y ∷ rest ≡ ys)
  cons_cases (panic e) os ys h = cc
  cons_cases (ok y) (panic e) ys h = cc
  cons_cases (ok y) (ok rest) ys h = (y, rest, refl, refl, cc)

  pub traverse-cons :
      (x : A) (xs : List A) (ys : List B)
      → traverse f (x ∷ xs) ≡ ok ys
      → (y : B) × (rest : List B) × (f x ≡ ok y) × (traverse f xs ≡ ok rest) × (y ∷ rest ≡ ys)
  unfolding traverse
  traverse-cons x xs ys h = cons_cases (f x) (traverse f xs) ys h

  pub traverse-append :
      (xs more : List A) (ys : List B)
      → traverse f (xs ++ more) ≡ ok ys
      → (first : List B) × (rest : List B) × (traverse f xs ≡ ok first)
        × (traverse f more ≡ ok rest)
        × (first ++ rest ≡ ys)
  unfolding traverse
  traverse-append [] more ys h = ([], ys, refl, h, refl)
  traverse-append (x ∷ xs) more ys h =
      let (y, tail, e, es, q) = traverse-cons x (xs ++ more) ys h in
      let (first, rest, p, r, w) = traverse-append xs more tail es in
      (y ∷ first, rest, rw (e, p) refl, r, rw w q)
