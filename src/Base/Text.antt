-- ===== src/Base/Text.antt =====
-- Text as the list of its bytes, with Rust's comparison of byte strings.
use Prim.Native.Nat.{ℕ, compare, Ordering}
use Prim.Native.Char.{code}
use Prim.Native.String.{String}
use mathlib.Core.Path.{◌≡◌, refl}
use mathlib.Core.Bool.{Bool, true, false}
use mathlib.Core.List.{List, [], ◌∷◌}
use mathlib.Core.Option.{Option, none, some}
use native.Mathlib.Omega.{arith}
use windows_rs.Base.Tests.{by_order, ◌==◌, if◌then◌else◌}

abbrev pub Text : Type 0
Text = List ℕ

-- The bytes of a literal, which is ASCII.
abbrev pub text : String → Text
text String.[] = []
text (String.◌∷◌ c s) = code c ∷ text s

-- `cmp` of byte strings.
unfoldable pub cmp_text : Text → Text → Ordering
cmp_text [] [] = Ordering.eq
cmp_text [] (b ∷ bs) = Ordering.lt
cmp_text (a ∷ as') [] = Ordering.gt
cmp_text (a ∷ as') (b ∷ bs) =
    let later = cmp_text as' bs in by_order (compare a b) Ordering.lt later Ordering.gt

unfoldable pub same_text : Text → Text → Bool
unfolding cmp_text
same_text s t = elim (cmp_text s t) [ Ordering.eq ↦ true | _ ↦ false ]

pub cmp_text_refl : (s : Text) → cmp_text s s ≡ Ordering.eq
unfolding cmp_text
cmp_text_refl [] = refl
cmp_text_refl (a ∷ s) = ground (arith, cmp_text_refl s)

pub cmp_text-eq : (s t : Text) → cmp_text s t ≡ Ordering.eq → s ≡ t
unfolding cmp_text
cmp_text-eq [] [] e = refl
cmp_text-eq [] (b ∷ t) e = cc
cmp_text-eq (a ∷ s) [] e = cc
cmp_text-eq (a ∷ s) (b ∷ t) e = ground (arith, cmp_text-eq s t)

pub same_text_refl : (s : Text) → same_text s s ≡ true
unfolding same_text
same_text_refl s = rw (same_text, cmp_text_refl s) refl

pub same_text-eq : (s t : Text) → same_text s t ≡ true → s ≡ t
unfolding same_text
same_text-eq s t e = ground (arith, cmp_text-eq s t)

pub cmp_text_flip : (s t : Text) → cmp_text s t ≡ Ordering.gt → cmp_text t s ≡ Ordering.lt
unfolding cmp_text
cmp_text_flip [] [] e = cc
cmp_text_flip [] (b ∷ t) e = cc
cmp_text_flip (a ∷ s) [] e = refl
cmp_text_flip (a ∷ s) (b ∷ t) e = ground (arith, cmp_text_flip s t)

pub cmp_text_trans :
    (s t u : Text)
    → cmp_text s t ≡ Ordering.lt
    → cmp_text t u ≡ Ordering.lt
    → cmp_text s u ≡ Ordering.lt
unfolding cmp_text
cmp_text_trans [] [] u p q = cc
cmp_text_trans (a ∷ s) [] u p q = cc
cmp_text_trans [] (b ∷ t) [] p q = cc
cmp_text_trans [] (b ∷ t) (c ∷ u) p q = refl
cmp_text_trans (a ∷ s) (b ∷ t) [] p q = cc
cmp_text_trans (a ∷ s) (b ∷ t) (c ∷ u) p q = ground (arith, cmp_text_trans s t u)

-- `split` at a separator: the first piece and the others. There is always a first one.
unfoldable pub split : ℕ → Text → Text × List Text
split separator [] = ([], [])
split separator (c ∷ s) =
    let pieces = split separator s in
    if c == separator then ([], pieces.0 ∷ pieces.1) else (c ∷ pieces.0, pieces.1)

-- The parts around the last dot: `rfind('.')` and the slices before and behind it.
unfoldable pub around_with : ℕ → Text → Option (Text × Text) → Option (Text × Text)
around_with c s (some (before, after)) = some (c ∷ before, after)
around_with c s none = if c == 46 then some ([], s) else none

unfoldable pub around_last_dot : Text → Option (Text × Text)
unfolding around_with
around_last_dot [] = none
around_last_dot (c ∷ s) = around_with c s (around_last_dot s)
