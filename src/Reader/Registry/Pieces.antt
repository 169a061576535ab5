-- ===== src/Reader/Registry/Pieces.antt =====
-- Different namespaces lie at different places of the tree.
use windows_rs.Base.{ℕ, List, [], ◌∷◌, ◌++◌, ◌≡◌, refl, sym, ◌∙◌, ◌==◌, Bool-cases, inl, inr}
use windows_rs.Base.Tests.{==→eq}
use windows_rs.Base.Text.{Text, split}

abbrev join : ℕ → Text → List Text → Text
join separator first [] = first
join separator first (next ∷ rest) = first ++ (separator ∷ join separator next rest)

join-cons :
    (separator c : ℕ) (first : Text) (rest : List Text)
    → join separator (c ∷ first) rest ≡ c ∷ join separator first rest
join-cons separator c first [] = refl
join-cons separator c first (next ∷ rest) = refl

join-split :
    (separator : ℕ) (s : Text) → join separator (split separator s).0 (split separator s).1 ≡ s
unfolding split
join-split separator [] = refl
join-split separator (c ∷ s) = elim (Bool-cases (c == separator)) [
  | inl e ↦ rw (e, join-split separator s, ==→eq c separator e) refl
  | inr e ↦
      rw
        (
          e,
          join-cons separator c (split separator s).0 (split separator s).1,
          join-split separator s,
        )
        refl
]

pub split-injective :
    (separator : ℕ) (s t : Text)
    → ((split separator s).0 ≡ (split separator t).0)
    → ((split separator s).1 ≡ (split separator t).1)
    → s ≡ t
split-injective separator s t p q =
    sym (join-split separator s) ∙ (rw (p, q) (join-split separator t))
