-- ===== src/Reader/Import/Marking.antt =====
-- The marks of the entries, how an import may change them, and what it means that a dependency is met.
use windows_rs.Base.{
  ℕ, ◌≤◌, List, ◌≡◌, ◌⊎◌, refl, sym, ◌∙◌, ap, none, some, get_elem?, inl, inr, arith,
}
use mathlib.Core.Option.{some-injective}
use windows_rs.Base.Text.{Text}
use windows_rs.Base.OrderedMap.{Option-cases}
use windows_rs.Reader.Tree.{TypeTree, TypeRow, TypeEntry, TypeInclude}
use windows_rs.Reader.Registry.{find_type}
use windows_rs.Reader.Import.{Dependency, nested, named}

abbrev pub level : TypeInclude → ℕ
level TypeInclude.none = 0
level TypeInclude.minimal = 1
level TypeInclude.full = 2

-- The same entries, none of them with a lower mark.
pub record Extends (t t' : TypeTree) : Type 0 where
  pub stays :
      (n k : Text) (e : TypeEntry)
      → find_type n k t ≡ some e
      → (e' : TypeEntry) × (find_type n k t' ≡ some e')
        × (e'.def ≡ e.def)
        × (level e.include ≤ level e'.include)
  pub absent : (n k : Text) → find_type n k t ≡ none → find_type n k t' ≡ none

-- A type that is there has the mark that is wanted; a nested type has all its own dependencies met.
pub data Satisfied (deps : TypeRow → TypeInclude → List Dependency) (t : TypeTree)
    : Dependency → Type 0 where
  marked :
      (n k : Text) (wanted : TypeInclude)
      → ((e : TypeEntry) → find_type n k t ≡ some e → level wanted ≤ level e.include)
      → Satisfied deps t (named n k wanted)
  parts :
      (def : TypeRow)
      → ((i : ℕ) (d : Dependency)
          → get_elem? (deps def TypeInclude.minimal) i ≡ some d
          → Satisfied deps t d)
      → Satisfied deps t (nested def)

pub Extends-refl : (t : TypeTree) → Extends t t
Extends-refl t = record { stays = λ n k e h. (e, h, refl, omega arith); absent = λ n k h. h }

pub Extends-trans : (t u v : TypeTree) → Extends t u → Extends u v → Extends t v
Extends-trans t u v a b = record {
  stays = λ n k e h.
      let (e1, h1, d1, l1) = a.stays n k e h in
      let (e2, h2, d2, l2) = b.stays n k e1 h1 in (e2, h2, d2 ∙ d1, omega arith);
  absent = λ n k h. b.absent n k (a.absent n k h);
}

-- What is found later was there before.
pub earlier :
    (t u : TypeTree) (n k : Text) (e' : TypeEntry)
    → Extends t u
    → find_type n k u ≡ some e'
    → (e : TypeEntry) × (find_type n k t ≡ some e)
      × (e'.def ≡ e.def)
      × (level e.include ≤ level e'.include)
earlier t u n k e' x h = elim (Option-cases (find_type n k t)) [
  | inl q ↦ let w = x.absent n k q in cc (w, h)
  | inr (e, q) ↦
      let (e1, h1, d1, l1) = x.stays n k e q in
      let same : e1 ≡ e' = some-injective e1 e' (sym h1 ∙ h) in
      (e, q, ap (λ (z : TypeEntry). z.def) (sym same) ∙ d1, rw (sym same) l1)
]

pub Satisfied-Extends :
    (deps : TypeRow → TypeInclude → List Dependency) (t u : TypeTree)
    → Extends t u
    → (d : Dependency) → Satisfied deps t d
    → Satisfied deps u d
Satisfied-Extends deps t u x d (marked n k wanted h) =
    marked n k wanted
      (λ e' q. let (e, q', d', l) = earlier t u n k e' x q in let low = h e q' in omega arith)
Satisfied-Extends deps t u x d (parts def h) =
    parts def (λ i d q. Satisfied-Extends deps t u x d (h i d q))

-- The marks that an import changes belong to entries whose dependencies are then met.
pub record Imports (deps : TypeRow → TypeInclude → List Dependency) (t u : TypeTree) : Type 0 where
  pub extends : Extends t u
  pub closed :
      (n k : Text) (e e' : TypeEntry)
      → find_type n k t ≡ some e
      → find_type n k u ≡ some e'
      → (e.include ≡ e'.include)
        ⊎ ((i : ℕ) (d : Dependency)
            → get_elem? (deps e'.def e'.include) i ≡ some d
            → Satisfied deps u d)

pub Imports-refl :
    (deps : TypeRow → TypeInclude → List Dependency) (t : TypeTree) → Imports deps t t
Imports-refl deps t = record {
  extends = Extends-refl t;
  closed =
      λ n k e e' h h'. inl (ap (λ (z : TypeEntry). z.include) (some-injective e e' (sym h ∙ h')));
}

pub Imports-trans :
    (deps : TypeRow → TypeInclude → List Dependency) (t u v : TypeTree)
    → Imports deps t u
    → Imports deps u v
    → Imports deps t v
Imports-trans deps t u v a b = record {
  extends = Extends-trans t u v a.extends b.extends;
  closed = λ n k e e2 h h2.
      let (e1, h1, d1, l1) = a.extends.stays n k e h in
      let (e2', h2', d2, l2) = b.extends.stays n k e1 h1 in
      let same : e2' ≡ e2 = some-injective e2' e2 (sym h2' ∙ h2) in
      elim (b.closed n k e1 e2 h1 h2) [
        | inr c ↦ inr c
        | inl q ↦ elim (a.closed n k e e1 h h1) [
          | inl p ↦ inl (p ∙ q)
          | inr c ↦ inr (λ i d w. Satisfied-Extends deps u v b.extends d (
              c i d (
                ap (λ z. get_elem? (deps z e1.include) i)
                  (sym d2 ∙ ap (λ (z : TypeEntry). z.def) same)
                ∙ ap (λ z. get_elem? (deps e2.def z) i) q
                ∙ w)))
        ]
      ];
}
