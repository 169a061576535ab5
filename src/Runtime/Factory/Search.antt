-- ===== src/Runtime/Factory/Search.antt =====
-- Which libraries `factory` tries (src/runtime/factory_cache.rs).
use windows_rs.Base.{
  ℕ, zero, suc, ◌<◌, ◌≡◌, refl, sym, ◌∙◌, ap, List, [], ◌∷◌, ◌++◌, map, ◌==◌, if◌then◌else◌, Option,
  none, some, Outcome, ok, length, arith, Bool-cases, inl, inr,
}
use windows_rs.Base.Text.{Text, around_last_dot, around_with}
use windows_rs.Runtime.HResult.{Answer, err, Error, is_ok, and_some, from_code}
use windows_rs.Runtime.Factory.{System, try_library, search, activation, factory}

-- The parts of a name in front of its dots, the longest one first.
abbrev pub prefixes : Text → List Text
prefixes [] = []
prefixes (c ∷ s) = map (λ p. c ∷ p) (prefixes s) ++ (if c == 46 then [] ∷ [] else [])

abbrev of_parts : Option (Text × Text) → List Text
of_parts none = []
of_parts (some (before, after)) = before ∷ prefixes before

cons_parts :
    (c : ℕ) (s : Text) (o : Option (Text × Text))
    → prefixes s ≡ of_parts o
    → prefixes (c ∷ s) ≡ of_parts (around_with c s o)
unfolding around_with
cons_parts c s (some (before, after)) h = rw h refl
cons_parts c s none h = elim (Bool-cases (c == 46)) [
  | inl e ↦ rw (h, e) refl
  | inr e ↦ rw (h, e) refl
]

-- Each round of the loop takes the next one of them.
prefixes_parts : (s : Text) → prefixes s ≡ of_parts (around_last_dot s)
unfolding around_last_dot
prefixes_parts [] = refl
prefixes_parts (c ∷ s) = cons_parts c s (around_last_dot s) (prefixes_parts s)

shorter_with :
    (c : ℕ) (s : Text) (o : Option (Text × Text)) (before after : Text)
    → ((b a : Text) → o ≡ some (b, a) → length b < length s)
    → around_with c s o ≡ some (before, after)
    → length before < suc (length s)
unfolding around_with
shorter_with c s (some (b, a)) before after ih e =
    let deeper = ih b a refl in
    let same : c ∷ b ≡ before = cc in let size = ap (λ (t : Text). length t) same in omega arith
shorter_with c s none before after ih e = elim (Bool-cases (c == 46)) [
  | inl q ↦
      let e' = rw q at e in
      let same : [] ≡ before = cc in let size = ap (λ (t : Text). length t) same in omega arith
  | inr q ↦ let e' = rw q at e in cc
]

shorter :
    (s before after : Text) → around_last_dot s ≡ some (before, after) → length before < length s
unfolding around_last_dot
shorter [] before after e = cc
shorter (c ∷ s) before after e = shorter_with c s (around_last_dot s) before after (shorter s) e

choose_at {ℓ κ} :
    {A : Type ℓ} {B : Type κ} (o : Option A) (y : Outcome B) (x : B) (f : A → B)
    → y ≡ ok x
    → Path
        (Outcome B)
        (elim o [ none ↦ y | some a ↦ ok (f a) ])
        (ok (elim o [ none ↦ x | some a ↦ f a ]))
choose_at none y x f h = h
choose_at (some a) y x f h = refl

module _ {Info F G : Type 0} (system : System Info F G) where
  -- The first library in a list that gives a factory decides; libraries stay loaded that have the function, but gave none.
  abbrev pub first_library : Error Info → List Text → List ℕ → Answer (Error Info) F × List ℕ
  first_library original [] loaded = (err original, loaded)
  first_library original (path ∷ rest) loaded =
      let tried = try_library system path loaded in
      let further = first_library original rest tried.1 in
      elim tried.0 [ none ↦ further | some g ↦ (system.cast g, tried.1) ]

  search_step :
      (fuel : ℕ) (original : Error Info) (path : Text) (loaded : List ℕ) (o : Option (Text × Text))
      → around_last_dot path ≡ o
      → ((before after : Text) (l : List ℕ)
          → o ≡ some (before, after)
          → search system fuel original before l ≡ ok (first_library original (prefixes before) l))
      → search system (suc fuel) original path loaded
        ≡ ok (first_library original (of_parts o) loaded)
  unfolding search
  search_step fuel original path loaded none e h = rw (search, e) refl
  search_step fuel original path loaded (some (before, after)) e h =
      let tried = try_library system before loaded in
      rw (search, e)
        (choose_at tried.0 (search system fuel original before tried.1)
          (first_library original (prefixes before) tried.1) (λ g. (system.cast g, tried.1))
          (h before after tried.1 refl))

  search_lem :
      (fuel : ℕ) (original : Error Info) (path : Text) (loaded : List ℕ)
      → length path < fuel
      → search system fuel original path loaded ≡ ok (first_library original (prefixes path) loaded)
  search_lem zero original path loaded h = absurd (omega arith)
  search_lem (suc fuel) original path loaded h =
      search_step fuel original path loaded (around_last_dot path) refl (λ before after l e.
        search_lem fuel original before l (omega (arith, shorter path before after e)))
      ∙ ap (λ ps. ok (first_library original ps loaded)) (sym (prefixes_parts path))

  -- The search always ends. Where activation succeeds, its factory is the answer, or a null pointer an error, and no library is loaded;
  -- else the libraries named by the parts of the class's name in front of its dots are tried, the longest one first, and where
  -- none of them gives a factory the answer is the error of the activation.
  pub factory-prefixes :
      (name : Text) (loaded : List ℕ)
      → factory system name loaded
        ≡ ok (
            if is_ok (activation system).0
            then (and_some system.thread (activation system).0 (activation system).1, loaded)
            else first_library
                (from_code system.thread (activation system).0)
                (prefixes name)
                loaded)
  unfolding factory
  factory-prefixes name loaded = elim (Bool-cases (is_ok (activation system).0)) [
    | inl e ↦ rw e refl
    | inr e ↦ rw e (
        search_lem (suc (length name)) (from_code system.thread (activation system).0) name loaded
          (omega arith))
  ]
