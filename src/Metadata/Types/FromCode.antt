-- ===== src/Metadata/Types/FromCode.antt =====
-- `ElementType::from_code` of crates/gen/src/parser/element_type.rs.
use windows_rs.Base.{
  ℕ, ◌≡◌, ◌==◌, if◌then◌else◌, Option, none, some, List, [], ◌∷◌, refl, ap, sym, subst, ◌∙◌, inl,
  inr, All, Bool, true, not, ◌&&◌, ltb, Bool-cases,
}
use mathlib.Core.Option.{some-injective}
use windows_rs.Base.Tests.{==→eq}
use windows_rs.Metadata.Types.{ElementType}

-- The arms of the `match`, in their order.
abbrev arms : List (ℕ × ElementType)
arms =
    (0x01, ElementType.void)
    ∷ (0x02, ElementType.bool)
    ∷ (0x03, ElementType.char)
    ∷ (0x04, ElementType.i8)
    ∷ (0x05, ElementType.u8)
    ∷ (0x06, ElementType.i16)
    ∷ (0x07, ElementType.u16)
    ∷ (0x08, ElementType.i32)
    ∷ (0x09, ElementType.u32)
    ∷ (0x0a, ElementType.i64)
    ∷ (0x0b, ElementType.u64)
    ∷ (0x0c, ElementType.f32)
    ∷ (0x0d, ElementType.f64)
    ∷ (0x18, ElementType.isize)
    ∷ (0x19, ElementType.usize)
    ∷ (0x0e, ElementType.string)
    ∷ (0x1c, ElementType.i_inspectable)
    ∷ []

-- The first arm that matches.
unfoldable pub match_code : List (ℕ × ElementType) → ℕ → Option ElementType
match_code [] code = none
match_code ((c, t) ∷ rest) code =
    let later = match_code rest code in if code == c then some t else later

unfoldable pub from_code : ℕ → Option ElementType
unfolding match_code
from_code code = match_code arms code

-- The code that the metadata format gives to a type; 0 for the types that have none of their own.
abbrev pub code_of : ElementType → ℕ
code_of ElementType.void = 0x01
code_of ElementType.bool = 0x02
code_of ElementType.char = 0x03
code_of ElementType.i8 = 0x04
code_of ElementType.u8 = 0x05
code_of ElementType.i16 = 0x06
code_of ElementType.u16 = 0x07
code_of ElementType.i32 = 0x08
code_of ElementType.u32 = 0x09
code_of ElementType.i64 = 0x0a
code_of ElementType.u64 = 0x0b
code_of ElementType.f32 = 0x0c
code_of ElementType.f64 = 0x0d
code_of ElementType.string = 0x0e
code_of ElementType.isize = 0x18
code_of ElementType.usize = 0x19
code_of ElementType.i_inspectable = 0x1c
code_of _ = 0

abbrev AreCoded : List (ℕ × ElementType) → Type 0
AreCoded [] = Unit
AreCoded ((c, t) ∷ rest) = (code_of t ≡ c) × AreCoded rest

match_code-code_of :
    (l : List (ℕ × ElementType)) (code : ℕ) (t : ElementType)
    → AreCoded l
    → match_code l code ≡ some t
    → code_of t ≡ code
unfolding match_code
match_code-code_of [] code t a e = cc
match_code-code_of ((c, u) ∷ rest) code t (here, a) e = elim (Bool-cases (code == c)) [
  | inl q ↦
      let same : u ≡ t = some-injective u t (rw q at e) in
      ap code_of (sym same) ∙ here ∙ sym (==→eq code c q)
  | inr q ↦ match_code-code_of rest code t a (rw q at e)
]

-- `from_code` takes a code for no type but the one that the metadata format gives it to.
pub from_code-code_of : (code : ℕ) (t : ElementType) → from_code code ≡ some t → code_of t ≡ code
unfolding from_code
from_code-code_of code t e =
    match_code-code_of arms code t
      (
        refl,
        (
          refl,
          (
            refl,
            (
              refl,
              (
                refl,
                (
                  refl,
                  (
                    refl,
                    (
                      refl,
                      (refl, (refl, (refl, (refl, (refl, (refl, (refl, (refl, (refl, tt))))))))),
                    ),
                  ),
                ),
              ),
            ),
          ),
        ),
      )
      e

-- What holds of the codes of all arms holds of every code that some arm takes.
match_code-All :
    (P : ℕ → Type 0) (l : List (ℕ × ElementType)) (code : ℕ) (t : ElementType)
    → All (λ (a : ℕ × ElementType). P a.0) l
    → match_code l code ≡ some t
    → P code
unfolding match_code
match_code-All P [] code t a e = cc
match_code-All P ((c, u) ∷ rest) code t (here, a) e = elim (Bool-cases (code == c)) [
  | inl q ↦ subst P (sym (==→eq code c q)) here
  | inr q ↦ match_code-All P rest code t a (rw q at e)
]

-- A code of one byte that is none of the marks in signatures: by reference, array, pointer and the two modifiers.
abbrev pub is_plain : ℕ → Bool
is_plain x =
    ltb x 0x80
    && (not (x == 0x10)
        && (not (x == 0x1d) && (not (x == 0x0f) && (not (x == 0x1f) && not (x == 0x20)))))

pub from_code-is_plain :
    (code : ℕ) (t : ElementType) → from_code code ≡ some t → is_plain code ≡ true
unfolding from_code
from_code-is_plain code t =
    match_code-All (λ x. is_plain x ≡ true) arms code t
      (
        refl,
        (
          refl,
          (
            refl,
            (
              refl,
              (
                refl,
                (
                  refl,
                  (
                    refl,
                    (
                      refl,
                      (refl, (refl, (refl, (refl, (refl, (refl, (refl, (refl, (refl, tt))))))))),
                    ),
                  ),
                ),
              ),
            ),
          ),
        ),
      )
