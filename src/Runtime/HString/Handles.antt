-- ===== src/Runtime/HString/Handles.antt =====
-- Buffers and handles: what writing a string leaves in its buffer, and how often a list of handles names an address.
use windows_rs.Base.{
  ℕ, zero, suc, ◌+◌, ◌≤◌, ◌<◌, List, [], ◌∷◌, ◌++◌, ◌≡◌, ◌≢◌, ◌⊎◌, refl, sym, subst, ◌∙◌, ap, some,
  true, ltb, ◌==◌, if◌then◌else◌, Bool-cases, inl, inr, length, get_elem?, take, set, Outcome, ok,
  Mode, trap, wrap, arith,
}
use mathlib.Core.Option.{some-injective}
use windows_rs.Base.Tests.{==→eq}
use windows_rs.Runtime.HString.{Header, units, debug_assert, write_unit, write_all}

pub length-units : (junk n : ℕ) → length (units junk n) ≡ n
length-units junk zero = refl
length-units junk (suc n) = omega (arith, length-units junk n)

pub length-set : (l : List ℕ) (i v : ℕ) → length (set l i v) ≡ length l
length-set [] i v = refl
length-set (x ∷ l) zero v = refl
length-set (x ∷ l) (suc i) v = omega (arith, length-set l i v)

pub take-set : (l : List ℕ) (i v : ℕ) → take i (set l i v) ≡ take i l
take-set [] i v = refl
take-set (x ∷ l) zero v = refl
take-set (x ∷ l) (suc i) v = ap (λ r. x ∷ r) (take-set l i v)

-- One more unit than before a write at `i`.
take-set_next :
    (l : List ℕ) (i v : ℕ) → i < length l → take (suc i) (set l i v) ≡ take i l ++ (v ∷ [])
take-set_next [] i v h = absurd (omega arith)
take-set_next (x ∷ l) zero v h = refl
take-set_next (x ∷ l) (suc i) v h = ap (λ r. x ∷ r) (take-set_next l i v (omega arith))

append_next : (a : List ℕ) (v : ℕ) (b : List ℕ) → (a ++ (v ∷ [])) ++ b ≡ a ++ (v ∷ b)
append_next [] v b = refl
append_next (x ∷ a) v b = ap (λ r. x ∷ r) (append_next a v b)

append_nil : (a : List ℕ) → a ++ [] ≡ a
append_nil [] = refl
append_nil (x ∷ a) = ap (λ r. x ∷ r) (append_nil a)

pub debug_assert_ok : (m : Mode) (a b : ℕ) → a < b → debug_assert m (ltb a b) ≡ ok tt
debug_assert_ok trap a b h = let e : ltb a b ≡ true = ground arith in rw e refl
debug_assert_ok wrap a b h = refl

-- A buffer that holds `units` up to a position.
abbrev pub Written : Outcome Header → Header → ℕ → List ℕ → Type 0
Written o h n text =
    (h' : Header) × (o ≡ ok h')
    × (h'.flags ≡ h.flags)
    × (h'.count ≡ h.count)
    × (h'.len ≡ n)
    × (length h'.buffer ≡ length h.buffer)
    × (take n h'.buffer ≡ text)

take_zero : (l : List ℕ) → take 0 l ≡ []
take_zero [] = refl
take_zero (x ∷ l) = refl

pub write_all_lem :
    (m : Mode) (len : ℕ) (v : List ℕ) (i : ℕ) (h : Header)
    → i + length v ≤ len
    → len < length h.buffer
    → (h.len ≡ i) ⊎ (1 ≤ length v)
    → Written (write_all m len v i h) h (i + length v) (take i h.buffer ++ v)
unfolding write_all write_unit
write_all_lem m len [] i h a b c = (
  h,
  refl,
  refl,
  refl,
  elim c [ inl e ↦ e ∙ omega arith | inr e ↦ absurd (omega arith) ],
  refl,
  ap (λ n. take n h.buffer) (omega arith) ∙ sym (append_nil (take i h.buffer)),
)
write_all_lem m len (unit ∷ rest) i h a b c =
    let h1 : Header = record h { len = suc i; buffer = set h.buffer i unit } in
    let fits : ltb i (length h.buffer) ≡ true = ground arith in
    let same = length-set h.buffer i unit in
    let (h', o, fl, co, le, bu, tk) =
      write_all_lem m len rest (suc i) h1 (omega arith) (omega arith) (inl refl) in
    (
      h',
      rw (debug_assert_ok m i len (omega arith), fits) o,
      fl,
      co,
      le ∙ omega arith,
      bu ∙ same,
      ap (λ n. take n h'.buffer) (omega arith)
          ∙ tk
          ∙ ap (λ l. l ++ rest) (take-set_next h.buffer i unit (omega arith))
          ∙ append_next (take i h.buffer) unit rest,
    )

-- A string that is written into a fresh buffer.
pub write_whole :
    (m : Mode) (v : List ℕ) (h : Header)
    → length v < length h.buffer
    → 1 ≤ length v
    → Written (write_all m (length v) v 0 h) h (length v) v
write_whole m v h room some_units =
    let start : (0 + length v) ≡ length v = omega arith in
    subst (λ n. Written (write_all m (length v) v 0 h) h n v) start
      (subst (λ l. Written (write_all m (length v) v 0 h) h (0 + length v) (l ++ v))
        (take_zero h.buffer) (write_all_lem m (length v) v 0 h (omega arith) room (inr some_units)))

-- How often a list of handles names an address.
unfoldable pub occurrences : ℕ → List ℕ → ℕ
occurrences a [] = 0
occurrences a (x ∷ xs) = let n = occurrences a xs in if a == x then suc n else n

pub occurrences-le : (a : ℕ) (l : List ℕ) → occurrences a l ≤ length l
unfolding occurrences
occurrences-le a [] = omega arith
occurrences-le a (x ∷ l) = ground (arith, occurrences-le a l)

-- A handle that becomes null.
pub occurrences-set :
    (a : ℕ) (l : List ℕ) (i at : ℕ)
    → a ≢ 0
    → get_elem? l i ≡ some at
    → occurrences a l ≡ occurrences a (set l i 0) + (if a == at then 1 else 0)
unfolding occurrences
occurrences-set a [] i at n h = cc
occurrences-set a (x ∷ l) zero at n h =
    let same : x ≡ at = some-injective x at h in rw same (ground (arith, n))
occurrences-set a (x ∷ l) (suc i) at n h = ground (arith, occurrences-set a l i at n h)

pub occurrences-get : (a : ℕ) (l : List ℕ) (i : ℕ) → get_elem? l i ≡ some a → 1 ≤ occurrences a l
unfolding occurrences
occurrences-get a [] i h = cc
occurrences-get a (x ∷ l) zero h = let same : x ≡ a = some-injective x a h in rw same (ground arith)
occurrences-get a (x ∷ l) (suc i) h = ground (arith, occurrences-get a l i h)

-- An address that a list names stands in it.
pub occurrences-find :
    (a : ℕ) (l : List ℕ) → 1 ≤ occurrences a l → (i : ℕ) × (get_elem? l i ≡ some a)
unfolding occurrences
occurrences-find a [] h = absurd (omega arith)
occurrences-find a (x ∷ l) h = elim (Bool-cases (a == x)) [
  | inl e ↦ (0, ap (λ z. some z) (sym (==→eq a x e)))
  | inr e ↦ let h' = rw e at h in let (i, g) = occurrences-find a l h' in (suc i, g)
]

pub occurrences-cons : (a : ℕ) (hs : List ℕ) → occurrences a (a ∷ hs) ≡ suc (occurrences a hs)
unfolding occurrences
occurrences-cons a hs = ground arith

pub occurrences-other : (a x : ℕ) (hs : List ℕ) → a ≢ x → occurrences a (x ∷ hs) ≡ occurrences a hs
unfolding occurrences
occurrences-other a x hs n = ground (arith, n)

pub get_elem?-set :
    {A : Type 0} (l : List A) (i : ℕ) (z y : A)
    → get_elem? l i ≡ some y
    → get_elem? (set l i z) i ≡ some z
get_elem?-set [] i z y h = cc
get_elem?-set (x ∷ l) zero z y h = refl
get_elem?-set (x ∷ l) (suc i) z y h = get_elem?-set l i z y h

pub get_elem?-set_other :
    {A : Type 0} (l : List A) (i j : ℕ) (z : A) → j ≢ i → get_elem? (set l i z) j ≡ get_elem? l j
get_elem?-set_other [] i j z n = refl
get_elem?-set_other (x ∷ l) zero zero z n = absurd (n refl)
get_elem?-set_other (x ∷ l) zero (suc j) z n = refl
get_elem?-set_other (x ∷ l) (suc i) zero z n = refl
get_elem?-set_other (x ∷ l) (suc i) (suc j) z n = get_elem?-set_other l i j z (λ e. n (ap suc e))
