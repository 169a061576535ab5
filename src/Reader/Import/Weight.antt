-- ===== src/Reader/Import/Weight.antt =====
-- How far the marks of a tree can still rise: the measure by which an import ends.
use windows_rs.Base.{
  ℕ, zero, suc, ◌+◌, ◌-◌, ◌≤◌, ◌<◌, List, [], ◌∷◌, ◌≡◌, ◌⊎◌, refl, sym, ◌∙◌, ap, Option, none, some,
  get_elem?, inl, inr, arith, true,
}
use mathlib.Core.Option.{some-injective}
use windows_rs.Base.Text.{Text}
use windows_rs.Base.OrderedMap.{map_some, Option-cases}
use windows_rs.Reader.Tree.{TypeTree, TypeEntry, TypeInclude}
use windows_rs.Reader.Tree.Searches.{same-or-not}
use windows_rs.Reader.Registry.{find_type}
use windows_rs.Reader.Registry.Marks.{find_type-mut, find_type-mut_other, find_type-touch}
use windows_rs.Reader.Import.{raises, raised, set_mark, mark, touch}
use windows_rs.Reader.Import.Marking.{level, Extends}

raises-level : (a b : TypeInclude) → raises a b ≡ true → level a < level (raised b)
raises-level TypeInclude.none TypeInclude.none h = omega arith
raises-level TypeInclude.none TypeInclude.minimal h = omega arith
raises-level TypeInclude.none TypeInclude.full h = omega arith
raises-level TypeInclude.minimal TypeInclude.full h = omega arith
raises-level TypeInclude.minimal TypeInclude.none h = cc
raises-level TypeInclude.minimal TypeInclude.minimal h = cc
raises-level TypeInclude.full TypeInclude.none h = cc
raises-level TypeInclude.full TypeInclude.minimal h = cc
raises-level TypeInclude.full TypeInclude.full h = cc

level-le : (a : TypeInclude) → level a ≤ 2
level-le TypeInclude.none = omega arith
level-le TypeInclude.minimal = omega arith
level-le TypeInclude.full = omega arith

-- Where two names are the same, both their parts are.
pub names_cases : (n k n' k' : Text) → ((n' ≡ n) × (k' ≡ k)) ⊎ (¬ ((n' ≡ n) × (k' ≡ k)))
names_cases n k n' k' = elim (same-or-not n' n) [
  | inl a ↦ elim (same-or-not k' k) [ inl b ↦ inl (a, b) | inr b ↦ inr (λ w. b w.1) ]
  | inr a ↦ inr (λ w. a w.0)
]

module _ (n k : Text) (wanted : TypeInclude) (t : TypeTree) (e : TypeEntry)
    (here : find_type n k t ≡ some e) (rise : raises e.include wanted ≡ true) where
  pub find_type-mark : find_type n k (mark n k wanted t) ≡ some (set_mark wanted e)
  find_type-mark = find_type-mut n k (set_mark wanted) t ∙ ap (map_some (set_mark wanted)) here

  pub find_type-mark_other :
      (n' k' : Text)
      → ¬ ((n' ≡ n) × (k' ≡ k))
      → find_type n' k' (mark n k wanted t) ≡ find_type n' k' t
  find_type-mark_other = find_type-mut_other n k (set_mark wanted) t

  pub mark-Extends : Extends t (mark n k wanted t)
  mark-Extends = record {
    stays = λ n' k' e' h. elim (names_cases n k n' k') [
      | inl (p, q) ↦
          let same : e ≡ e' = some-injective e e' (
            sym here
            ∙ ap (λ z. find_type z k t) (sym p)
            ∙ ap (λ z. find_type n' z t) (sym q)
            ∙ h) in
          let up = raises-level e.include wanted rise in
          (
            set_mark wanted e,
            ap (λ z. find_type z k' (mark n k wanted t)) p
                ∙ ap (λ z. find_type n z (mark n k wanted t)) q
                ∙ find_type-mark,
            ap (λ (z : TypeEntry). z.def) same,
            rw (sym same) (omega arith),
          )
      | inr u ↦ (e', find_type-mark_other n' k' u ∙ h, refl, omega arith)
    ];
    absent = λ n' k' h. elim (names_cases n k n' k') [
      | inl (p, q) ↦
          let w = ap (λ z. find_type z k t) (sym p) ∙ ap (λ z. find_type n' z t) (sym q) ∙ h in
          cc (w, here)
      | inr u ↦ find_type-mark_other n' k' u ∙ h
    ];
  }

pub touch-Extends : (n : Text) (t : TypeTree) → Extends t (touch n t)
touch-Extends n t = record {
  stays = λ n' k e h. (e, find_type-touch n n' k t ∙ h, refl, omega arith);
  absent = λ n' k h. find_type-touch n n' k t ∙ h;
}

-- How far one entry can rise, and all those of a list of names.
abbrev room : Option TypeEntry → ℕ
room none = 0
room (some e) = 2 - level e.include

unfoldable pub weight : List (Text × Text) → TypeTree → ℕ
weight [] t = 0
weight ((n, k) ∷ rest) t = room (find_type n k t) + weight rest t

room-le :
    (t u : TypeTree) → Extends t u → (n k : Text) → room (find_type n k u) ≤ room (find_type n k t)
room-le t u x n k = elim (Option-cases (find_type n k t)) [
  | inl q ↦ rw (q, x.absent n k q) (omega arith)
  | inr (e, q) ↦ let (e', q', d, l) = x.stays n k e q in rw (q, q') (omega arith)
]

pub weight-le :
    (names : List (Text × Text)) (t u : TypeTree) → Extends t u → weight names u ≤ weight names t
unfolding weight
weight-le [] t u x = omega arith
weight-le ((n, k) ∷ rest) t u x = omega (arith, room-le t u x n k, weight-le rest t u x)

-- A raised mark makes the weight smaller.
pub weight-lt :
    (n k : Text) (t u : TypeTree)
    → Extends t u
    → room (find_type n k u) < room (find_type n k t)
    → (names : List (Text × Text)) (i : ℕ) → get_elem? names i ≡ some (n, k)
    → weight names u < weight names t
unfolding weight
weight-lt n k t u x less [] i h = cc
weight-lt n k t u x less ((n', k') ∷ rest) zero h =
    let same = some-injective (n', k') (n, k) h in
    let p : n' ≡ n = ap (λ (z : Text × Text). z.0) same in
    let q : k' ≡ k = ap (λ (z : Text × Text). z.1) same in
    rw (p, q) (omega (arith, less, weight-le rest t u x))
weight-lt n k t u x less ((n', k') ∷ rest) (suc i) h =
    omega (arith, room-le t u x n' k', weight-lt n k t u x less rest i h)

pub room-mark :
    (n k : Text) (wanted : TypeInclude) (t : TypeTree) (e : TypeEntry)
    → find_type n k t ≡ some e
    → raises e.include wanted ≡ true
    → room (find_type n k (mark n k wanted t)) < room (find_type n k t)
room-mark n k wanted t e here rise =
    let up = raises-level e.include wanted rise in
    let top = level-le (raised wanted) in
    rw (find_type-mark n k wanted t e here rise, here) (omega arith)

-- The fuel for every mark that can still be raised, where types are nested up to `depth` levels.
unfoldable pub budget : ℕ → ℕ → ℕ
budget depth zero = 0
budget depth (suc w) = budget depth w + (depth + 2)

pub budget-le : (depth a b : ℕ) → a ≤ b → budget depth a ≤ budget depth b
unfolding budget
budget-le depth zero b h = omega arith
budget-le depth (suc a) zero h = absurd (omega arith)
budget-le depth (suc a) (suc b) h = omega (arith, budget-le depth a b (omega arith))

pub budget-lt : (depth a b : ℕ) → a < b → budget depth a + (depth + 2) ≤ budget depth b
unfolding budget
budget-lt depth a zero h = absurd (omega arith)
budget-lt depth a (suc b) h = omega (arith, budget-le depth a b (omega arith))
