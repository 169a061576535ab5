-- ===== src/Reader/TypeNames/Brackets.antt =====
-- Texts that close the brackets they open, and the parts of type signatures that do (crates/gen/src/parser/element_type.rs
-- and guid.rs).
use windows_rs.Base.{
  ℕ, zero, suc, ◌<◌, ◌/◌, ◌%◌, ◌^◌, ◌≡◌, ◌≢◌, refl, sym, ◌∙◌, ap, List, [], ◌∷◌, ◌++◌, ◌==◌,
  if◌then◌else◌, Option, none, some, All, arith,
}
use mathlib.Core.List.{append_assoc}
use windows_rs.Base.Text.{Text, text}
use windows_rs.Reader.Dependencies.Includes.{All-append}
use windows_rs.Base.Each.{Each}
use windows_rs.Metadata.Types.{ElementType}
use windows_rs.Reader.TypeNames.{lower_digit, lower_hex, join_texts, guid_text, plain_signature}
use windows_rs.Runtime.Guid.{Guid}

abbrev less_one : ℕ → Option ℕ
less_one zero = none
less_one (suc n) = some n

-- How many brackets are open behind a byte, and behind a text; none if one is closed that was not open.
abbrev open_behind : ℕ → ℕ → Option ℕ
open_behind n c = if c == 40 then some (suc n) else if c == 41 then less_one n else some n

abbrev pub open_after : ℕ → Text → Option ℕ
open_after n [] = some n
open_after n (c ∷ s) = elim (open_behind n c) [ none ↦ none | some k ↦ open_after k s ]

-- A text that closes what it opens, and nothing else, wherever it stands.
abbrev pub IsBalanced : Text → Type 0
IsBalanced s = (n : ℕ) (rest : Text) → open_after n (s ++ rest) ≡ open_after n rest

abbrev pub HasNoBracket : Text → Type 0
HasNoBracket = All (λ (c : ℕ). (c ≢ 40) × (c ≢ 41))

behind_other : (n c : ℕ) → c ≢ 40 → c ≢ 41 → open_behind n c ≡ some n
behind_other n c h k = ground arith

pub HasNoBracket-IsBalanced : (s : Text) → HasNoBracket s → IsBalanced s
HasNoBracket-IsBalanced [] h n rest = refl
HasNoBracket-IsBalanced (c ∷ s) h n rest =
    rw (open_after, behind_other n c h.0.0 h.0.1) (HasNoBracket-IsBalanced s h.1 n rest)

pub IsBalanced-append : (s t : Text) → IsBalanced s → IsBalanced t → IsBalanced (s ++ t)
IsBalanced-append s t h k n rest =
    ap (open_after n) (append_assoc s t rest) ∙ h n (t ++ rest) ∙ k n rest

-- What stands in brackets.
pub enclosed :
    (s x : Text)
    → IsBalanced s
    → x ≡ s ++ text ")"
    → (n : ℕ) (rest : Text) → open_after (suc n) (x ++ rest) ≡ open_after n rest
enclosed s x h e n rest =
    ap (λ z. open_after (suc n) (z ++ rest)) e
    ∙ ap (open_after (suc n)) (append_assoc s (text ")") rest)
    ∙ h (suc n) (text ")" ++ rest)

lower_digit-ne : (d : ℕ) → d < 16 → (lower_digit d ≢ 40) × (lower_digit d ≢ 41)
lower_digit-ne d h = (λ e. ground arith, λ e. ground arith)

lower_hex-HasNoBracket : (w n : ℕ) → HasNoBracket (lower_hex w n)
unfolding lower_hex
lower_hex-HasNoBracket zero n = tt
lower_hex-HasNoBracket (suc w) n =
    (lower_digit-ne (n / 16 ^ w % 16) (omega arith), lower_hex-HasNoBracket w n)

HasNoBracket-join_texts :
    (pieces : List Text) → All HasNoBracket pieces → HasNoBracket (join_texts pieces)
HasNoBracket-join_texts [] h = tt
HasNoBracket-join_texts (s ∷ pieces) h =
    All-append (λ (c : ℕ). (c ≢ 40) × (c ≢ 41)) s (join_texts pieces) h.0
      (HasNoBracket-join_texts pieces h.1)

dash_free : HasNoBracket (text "-")
dash_free = ((λ e. absurd (omega arith), λ e. absurd (omega arith)), tt)

guid_text-HasNoBracket : (g : Guid) → HasNoBracket (guid_text g)
unfolding guid_text
guid_text-HasNoBracket g =
    let hex = lower_hex-HasNoBracket in
    let b = g.data4 in
    HasNoBracket-join_texts
      (lower_hex 8 g.data1
        ∷ text "-"
        ∷ lower_hex 4 g.data2
        ∷ text "-"
        ∷ lower_hex 4 g.data3
        ∷ text "-"
        ∷ lower_hex 2 b.0
        ∷ lower_hex 2 b.1
        ∷ text "-"
        ∷ lower_hex 2 b.2
        ∷ lower_hex 2 b.3
        ∷ lower_hex 2 b.4
        ∷ lower_hex 2 b.5
        ∷ lower_hex 2 b.6
        ∷ lower_hex 2 b.7
        ∷ [])
      (
        hex 8 g.data1,
        (
          dash_free,
          (
            hex 4 g.data2,
            (
              dash_free,
              (
                hex 4 g.data3,
                (
                  dash_free,
                  (
                    hex 2 b.0,
                    (
                      hex 2 b.1,
                      (
                        dash_free,
                        (
                          hex 2 b.2,
                          (hex 2 b.3, (hex 2 b.4, (hex 2 b.5, (hex 2 b.6, (hex 2 b.7, tt))))),
                        ),
                      ),
                    ),
                  ),
                ),
              ),
            ),
          ),
        ),
      )

pub plain_signature-IsBalanced : (t : ElementType) → Each IsBalanced (plain_signature t)
unfolding plain_signature
plain_signature-IsBalanced ElementType.bool = λ n rest. refl
plain_signature-IsBalanced ElementType.char = λ n rest. refl
plain_signature-IsBalanced ElementType.i8 = λ n rest. refl
plain_signature-IsBalanced ElementType.u8 = λ n rest. refl
plain_signature-IsBalanced ElementType.i16 = λ n rest. refl
plain_signature-IsBalanced ElementType.u16 = λ n rest. refl
plain_signature-IsBalanced ElementType.i32 = λ n rest. refl
plain_signature-IsBalanced ElementType.u32 = λ n rest. refl
plain_signature-IsBalanced ElementType.i64 = λ n rest. refl
plain_signature-IsBalanced ElementType.u64 = λ n rest. refl
plain_signature-IsBalanced ElementType.f32 = λ n rest. refl
plain_signature-IsBalanced ElementType.f64 = λ n rest. refl
plain_signature-IsBalanced ElementType.string = λ n rest. refl
plain_signature-IsBalanced ElementType.i_inspectable = λ n rest. refl
plain_signature-IsBalanced ElementType.guid = λ n rest. refl
plain_signature-IsBalanced t = tt

pub braced-IsBalanced : (g : Guid) → IsBalanced (text "{" ++ (guid_text g ++ text "}"))
braced-IsBalanced g = HasNoBracket-IsBalanced (text "{" ++ (guid_text g ++ text "}")) (
  (λ e. absurd (omega arith), λ e. absurd (omega arith)),
  All-append (λ (c : ℕ). (c ≢ 40) × (c ≢ 41)) (guid_text g) (text "}") (guid_text-HasNoBracket g)
      ((λ e. absurd (omega arith), λ e. absurd (omega arith)), tt),
)

-- Behind an opening bracket: a part, another one and the closing bracket.
pub two_enclosed :
    (s t : Text)
    → IsBalanced s
    → IsBalanced t
    → (n : ℕ) (rest : Text)
    → open_after (suc n) ((s ++ (t ++ text ")")) ++ rest) ≡ open_after n rest
two_enclosed s t h k =
    enclosed (s ++ t) (s ++ (t ++ text ")")) (IsBalanced-append s t h k)
      (sym (append_assoc s t (text ")")))

-- What stands behind a semicolon.
pub tail-IsBalanced : (s : Text) → IsBalanced s → IsBalanced (text ";" ++ s)
tail-IsBalanced s h n rest = h n rest
