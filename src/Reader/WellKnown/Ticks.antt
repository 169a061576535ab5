-- ===== src/Reader/WellKnown/Ticks.antt =====
-- The names of generic types, which end in a tick and the number of parameters.
use windows_rs.Base.{
  ℕ, zero, suc, ◌+◌, ◌-◌, ◌≤◌, ◌<◌, ◌%◌, ◌≡◌, ◌≢◌, refl, ap, ◌∙◌, [], ◌∷◌, ◌++◌, false, ◌==◌, none,
  some, length, length-append, get_elem?, take, Outcome, ok, panic, Fault, Mode, trap, wrap,
  u64_mod, arith,
}
use windows_rs.Base.Text.{Text}
use windows_rs.Base.Word.{sub_at, sub_at_ok}
use windows_rs.Reader.WellKnown.{trim_tick}

get_elem?-beyond : (l : Text) (i : ℕ) → length l ≤ i → get_elem? l i ≡ none
get_elem?-beyond [] i h = refl
get_elem?-beyond (x ∷ l) zero h = absurd (omega arith)
get_elem?-beyond (x ∷ l) (suc i) h = get_elem?-beyond l i (omega arith)

get_elem?-behind :
    (l : Text) (x : ℕ) (rest : Text) → get_elem? (l ++ (x ∷ rest)) (length l) ≡ some x
get_elem?-behind [] x rest = refl
get_elem?-behind (y ∷ l) x rest = get_elem?-behind l x rest

take-front : (l rest : Text) → take (length l) (l ++ rest) ≡ l
take-front [] [] = refl
take-front [] (x ∷ rest) = refl
take-front (y ∷ l) rest = ap (λ z. y ∷ z) (take-front l rest)

-- Behind two bytes that end a name.
before_two :
    (m : Mode) (base : Text) (c digit : ℕ)
    → sub_at u64_mod m (length (base ++ (c ∷ digit ∷ []))) 2 ≡ ok (length base)
before_two m base c digit =
    let size = length-append base (c ∷ digit ∷ []) in
    sub_at_ok u64_mod m (length (base ++ (c ∷ digit ∷ []))) 2 (omega arith)
    ∙ ap (λ n. ok n) (omega arith)

trim_tick-tick :
    (m : Mode) (base : Text) (digit : ℕ) → trim_tick m (base ++ (96 ∷ digit ∷ [])) ≡ ok base
unfolding trim_tick
trim_tick-tick m base digit =
    rw
      (
        before_two m base 96 digit,
        get_elem?-behind base 96 (digit ∷ []),
        take-front base (96 ∷ digit ∷ []),
      )
      refl

trim_tick-other :
    (m : Mode) (base : Text) (c digit : ℕ)
    → c ≢ 96
    → trim_tick m (base ++ (c ∷ digit ∷ [])) ≡ ok (base ++ (c ∷ digit ∷ []))
unfolding trim_tick
trim_tick-other m base c digit n =
    let no : (c == 96) ≡ false = ground (arith, n) in
    rw (before_two m base c digit, get_elem?-behind base c (digit ∷ []), no) refl

-- What is behind an overflow.
abbrev at_zero : Mode → ℕ → Outcome ℕ
at_zero trap v = panic Fault.overflow
at_zero wrap v = ok v

-- What a name of fewer than two bytes gives in a build.
abbrev pub too_short : Mode → Text → Outcome Text
too_short trap name = panic Fault.overflow
too_short wrap name = ok name

below_two :
    (m : Mode) (name : Text)
    → length name < 2
    → sub_at u64_mod m (length name) 2 ≡ at_zero m ((length name + u64_mod - 2) % u64_mod)
unfolding sub_at
below_two trap name h = ground arith
below_two wrap name h = ground arith

trim_tick-short : (m : Mode) (name : Text) → length name < 2 → trim_tick m name ≡ too_short m name
unfolding trim_tick
trim_tick-short trap name h = rw (below_two trap name h) refl
trim_tick-short wrap name h =
    let far = (length name + u64_mod - 2) % u64_mod in
    rw (below_two wrap name h, get_elem?-beyond name far (omega arith)) refl

-- A tick in front of the last byte of a name is cut off with it, and any other name of two bytes or more stays as it
-- is; a name of fewer bytes makes a build with overflow checks panic, and stays in any other.
pub trim_tick-branches :
    (m : Mode) (base name : Text) (c digit : ℕ)
    → c ≢ 96
    → length name < 2
    → (trim_tick m (base ++ (96 ∷ digit ∷ [])) ≡ ok base)
      × (trim_tick m (base ++ (c ∷ digit ∷ [])) ≡ ok (base ++ (c ∷ digit ∷ [])))
      × (trim_tick m name ≡ too_short m name)
trim_tick-branches m base name c digit n h =
    (trim_tick-tick m base digit, trim_tick-other m base c digit n, trim_tick-short m name h)
