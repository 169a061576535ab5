-- ===== src/Base/Lists.antt =====
-- Lists read by native indices.
use Prim.Native.Nat.{ℕ, zero, suc, ◌+◌, ◌-◌}
use mathlib.Core.Path.{◌≡◌, refl, sym, ap, ◌∙◌}
use mathlib.Core.List.{List, [], ◌∷◌, ◌++◌}
use mathlib.Core.Option.{Option, none, some}
use native.Mathlib.Omega.{arith}

module _ {ℓ} {A : Type ℓ} where
  abbrev pub length : List A → ℕ
  length [] = 0
  length (x ∷ xs) = suc (length xs)

  abbrev pub get_elem? : List A → ℕ → Option A
  get_elem? [] i = none
  get_elem? (x ∷ xs) zero = some x
  get_elem? (x ∷ xs) (suc i) = get_elem? xs i

  abbrev pub drop : ℕ → List A → List A
  drop zero xs = xs
  drop (suc n) [] = []
  drop (suc n) (x ∷ xs) = drop n xs

  abbrev pub take : ℕ → List A → List A
  take zero xs = []
  take (suc n) [] = []
  take (suc n) (x ∷ xs) = x ∷ take n xs

  -- A write out of bounds changes nothing.
  abbrev pub set : List A → ℕ → A → List A
  set [] i v = []
  set (x ∷ xs) zero v = v ∷ xs
  set (x ∷ xs) (suc i) v = x ∷ set xs i v

  abbrev pub All {κ} : (A → Type κ) → List A → Type κ
  All P [] = Unit {κ}
  All P (x ∷ xs) = P x × All P xs

  pub length-append : (xs ys : List A) → length (xs ++ ys) ≡ length xs + length ys
  length-append [] ys = omega arith
  length-append (x ∷ xs) ys = omega (arith, length-append xs ys)

  pub length-drop : (n : ℕ) (xs : List A) → length (drop n xs) ≡ length xs - n
  length-drop zero xs = omega arith
  length-drop (suc n) [] = omega arith
  length-drop (suc n) (x ∷ xs) = omega (arith, length-drop n xs)

  pub drop-append : (xs ys : List A) → drop (length xs) (xs ++ ys) ≡ ys
  drop-append [] ys = refl
  drop-append (x ∷ xs) ys = drop-append xs ys

  pub take-append : (xs ys : List A) → take (length xs) (xs ++ ys) ≡ xs
  take-append [] ys = refl
  take-append (x ∷ xs) ys = λ i. x ∷ take-append xs ys i

  -- What a slice that is known says of the whole.
  pub get_elem?-drop :
      (n : ℕ) (xs : List A) {x : A} {rest : List A} → drop n xs ≡ x ∷ rest → get_elem? xs n ≡ some x
  get_elem?-drop zero [] h = cc
  get_elem?-drop zero (y ∷ xs) h = cc
  get_elem?-drop (suc n) [] h = cc
  get_elem?-drop (suc n) (y ∷ xs) h = get_elem?-drop n xs h

  pub drop-next :
      (n : ℕ) (xs : List A) {x : A} {rest : List A} → drop n xs ≡ x ∷ rest → drop (suc n) xs ≡ rest
  drop-next zero [] h = cc
  drop-next zero (y ∷ xs) h = cc
  drop-next (suc n) [] h = cc
  drop-next (suc n) (y ∷ xs) h = drop-next n xs h

  pub drop-drop :
      (n k : ℕ) (xs front rest : List A)
      → drop n xs ≡ front ++ rest
      → k ≡ length front
      → drop (n + k) xs ≡ rest
  drop-drop n k xs [] rest h e = let e' : n + k ≡ n = omega arith in rw e' h
  drop-drop n k xs (x ∷ front) rest h e =
      let e' : n + k ≡ suc n + (k - 1) = omega arith in
      rw e' (drop-drop (suc n) (k - 1) xs front rest (drop-next n xs h) (omega arith))

  pub length-of_drop :
      (n : ℕ) (xs : List A) {x : A} {rest : List A}
      → drop n xs ≡ x ∷ rest
      → length xs ≡ n + suc (length rest)
  length-of_drop n xs h = omega (arith, length-drop n xs, ap (λ (l : List A). length l) h)

  drop_nil : (n : ℕ) → drop n [] ≡ []
  drop_nil zero = refl
  drop_nil (suc n) = refl

  pub drop_add : (n k : ℕ) (xs : List A) → drop (n + k) xs ≡ drop k (drop n xs)
  drop_add zero k xs = let e : 0 + k ≡ k = omega arith in rw e refl
  drop_add (suc n) k [] = drop_nil (suc n + k) ∙ sym (drop_nil k)
  drop_add (suc n) k (x ∷ xs) =
      let e : suc n + k ≡ suc (n + k) = omega arith in rw e (drop_add n k xs)
