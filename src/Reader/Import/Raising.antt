-- ===== src/Reader/Import/Raising.antt =====
-- What is met after one raised mark.
use windows_rs.Base.{
  ℕ, ◌≤◌, List, ◌≡◌, ◌≢◌, refl, sym, subst, ◌∙◌, ap, some, get_elem?, inl, inr, arith, true, false,
}
use mathlib.Core.Option.{some-injective}
use windows_rs.Base.Text.{Text}
use windows_rs.Reader.Tree.{TypeTree, TypeRow, TypeEntry, TypeInclude}
use windows_rs.Reader.Registry.{find_type}
use windows_rs.Reader.Registry.Marks.{find_type-touch}
use windows_rs.Reader.Import.{Dependency, named, raises, raised, set_mark, mark, touch}
use windows_rs.Reader.Import.Marking.{
  level, Extends, Extends-trans, Satisfied, marked, Imports, earlier,
}
use windows_rs.Reader.Import.Weight.{
  names_cases, find_type-mark, find_type-mark_other, mark-Extends, touch-Extends,
}

raised-eq : (wanted : TypeInclude) → wanted ≢ TypeInclude.none → raised wanted ≡ wanted
raised-eq TypeInclude.full h = refl
raised-eq TypeInclude.minimal h = refl
raised-eq TypeInclude.none h = absurd (h refl)

pub not_raised :
    (a wanted : TypeInclude)
    → wanted ≢ TypeInclude.none
    → raises a wanted ≡ false
    → level wanted ≤ level a
not_raised TypeInclude.full TypeInclude.full h e = omega arith
not_raised TypeInclude.full TypeInclude.minimal h e = omega arith
not_raised TypeInclude.minimal TypeInclude.minimal h e = omega arith
not_raised TypeInclude.minimal TypeInclude.full h e = cc
not_raised TypeInclude.none TypeInclude.full h e = cc
not_raised TypeInclude.none TypeInclude.minimal h e = cc
not_raised a TypeInclude.none h e = absurd (h refl)

module _ (deps : TypeRow → TypeInclude → List Dependency) where
  -- What an entry with a raised mark is later.
  later_entry :
      (n k : Text) (wanted : TypeInclude) (t u : TypeTree) (e e2 : TypeEntry)
      → find_type n k t ≡ some e
      → raises e.include wanted ≡ true
      → wanted ≢ TypeInclude.none
      → Extends (mark n k wanted t) u
      → find_type n k u ≡ some e2
      → (e2.def ≡ e.def) × (level wanted ≤ level e2.include)
  later_entry n k wanted t u e e2 here rise some_mark x h2 =
      let (e0, q, d, l) = earlier (mark n k wanted t) u n k e2 x h2 in
      let same : set_mark wanted e ≡ e0 =
        some-injective (set_mark wanted e) e0 (sym (find_type-mark n k wanted t e here rise) ∙ q) in
      (
        d ∙ ap (λ (z : TypeEntry). z.def) (sym same),
        (let l' : level (raised wanted) ≤ level e2.include =
              subst (λ (z : TypeEntry). level z.include ≤ level e2.include) (sym same) l in
            subst (λ z. level z ≤ level e2.include) (raised-eq wanted some_mark) l'),
      )

  closed-mark :
      (n k : Text) (wanted : TypeInclude) (t u : TypeTree) (e : TypeEntry)
      → find_type n k t ≡ some e
      → raises e.include wanted ≡ true
      → wanted ≢ TypeInclude.none
      → Imports deps (mark n k wanted t) u
      → ((i : ℕ) (d : Dependency) → get_elem? (deps e.def wanted) i ≡ some d → Satisfied deps u d)
      → (e2 : TypeEntry) → find_type n k u ≡ some e2
      → (i : ℕ) (d : Dependency) → get_elem? (deps e2.def e2.include) i ≡ some d
      → Satisfied deps u d
  closed-mark n k wanted t u e here rise some_mark im met e2 h2 i d g =
      let (d', l) = later_entry n k wanted t u e e2 here rise some_mark im.extends h2 in
      elim (im.closed n k (set_mark wanted e) e2 (find_type-mark n k wanted t e here rise) h2) [
        | inr c ↦ c i d g
        | inl c ↦
            let q : e2.include ≡ wanted = sym c ∙ raised-eq wanted some_mark in
            met i d (
              ap (λ z. get_elem? (deps z wanted) i) (sym d')
              ∙ ap (λ z. get_elem? (deps e2.def z) i) (sym q)
              ∙ g)
      ]

  -- After the mark of an entry is raised and its dependencies are met.
  pub import-mark :
      (n k : Text) (wanted : TypeInclude) (t u : TypeTree) (e : TypeEntry)
      → find_type n k t ≡ some e
      → raises e.include wanted ≡ true
      → wanted ≢ TypeInclude.none
      → Imports deps (mark n k wanted t) u
      → ((i : ℕ) (d : Dependency) → get_elem? (deps e.def wanted) i ≡ some d → Satisfied deps u d)
      → Imports deps t u × Satisfied deps u (named n k wanted)
  import-mark n k wanted t u e here rise some_mark im met = (
    record {
      extends =
          Extends-trans t (mark n k wanted t) u (mark-Extends n k wanted t e here rise) im.extends;
      closed = λ n' k' e1 e2 h h2. elim (names_cases n k n' k') [
        | inl (p, q) ↦ inr (
            closed-mark n k wanted t u e here rise some_mark im met e2
              (ap (λ z. find_type z k u) (sym p) ∙ ap (λ z. find_type n' z u) (sym q) ∙ h2))
        | inr v ↦
            im.closed n' k' e1 e2 (find_type-mark_other n k wanted t e here rise n' k' v ∙ h) h2
      ];
    },
    marked n k wanted (λ e2 h2.
        let (d', l) = later_entry n k wanted t u e e2 here rise some_mark im.extends h2 in l),
  )

  pub touch-Imports : (n : Text) (t : TypeTree) → Imports deps t (touch n t)
  touch-Imports n t = record {
    extends = touch-Extends n t;
    closed = λ n' k e e' h h'. inl (
        ap (λ (z : TypeEntry). z.include)
          (some-injective e e' (sym h ∙ sym (find_type-touch n n' k t) ∙ h')));
  }
