-- ===== src/Reader/Import/Minimal.antt =====
-- What a minimal import (crates/gen/src/parser/type_reader.rs) does with the dependencies of types (tables/type_def.rs).
use windows_rs.Base.{
  ℕ, zero, suc, List, [], ◌∷◌, ◌≡◌, sym, ◌∙◌, ap, All, some, not, true, Mode, Outcome, ok, assert,
  Fault, Bool-cases, inl, inr,
}
use mathlib.Core.Option.{some-injective}
use windows_rs.Base.Text.{Text}
use windows_rs.Base.Each.{Each, Each-bind, Each-step, Each-if, Each-map}
use windows_rs.Base.OrderedMap.{Option-cases}
use windows_rs.Reader.Tree.{TypeTree, TypeRow, TypeEntry, TypeInclude}
use windows_rs.Reader.Registry.{find_type}
use windows_rs.Reader.Registry.Marks.{find_type-touch}
use windows_rs.Reader.WellKnown.{is_empty, trim_tick}
use windows_rs.Reader.Loading.{TypeReader}
use windows_rs.Reader.Import.{
  Dependency, nested, named, raises, mark, touch, set_mark, dependency, row_namespace, row_name,
  import_each, import_type_dependencies, import,
}
use windows_rs.Reader.Import.Weight.{names_cases, find_type-mark, find_type-mark_other}
use windows_rs.Reader.Dependencies.{row_dependencies}
use windows_rs.Reader.Dependencies.Includes.{Allowed}
use windows_rs.Reader.Dependencies.Levels.{row_dependencies-Allowed}

-- What is fully included later was so before.
abbrev pub KeepsFull : TypeTree → TypeTree → Type 0
KeepsFull t u =
    (n k : Text) (later : TypeEntry)
    → find_type n k u ≡ some later
    → later.include ≡ TypeInclude.full
    → (e : TypeEntry) × (find_type n k t ≡ some e) × (e.include ≡ TypeInclude.full)

-- A dependency that asks for no more than a minimal inclusion.
abbrev pub IsMinimal : Dependency → Type 0
IsMinimal (nested row) = Unit
IsMinimal (named n k wanted) = wanted ≡ TypeInclude.minimal

KeepsFull-refl : (t : TypeTree) → KeepsFull t t
KeepsFull-refl t n k e h full = (e, h, full)

KeepsFull-trans : (t u v : TypeTree) → KeepsFull t u → KeepsFull u v → KeepsFull t v
KeepsFull-trans t u v a b n k e h full = let (e1, h1, full1) = b n k e h full in a n k e1 h1 full1

touch-KeepsFull : (n : Text) (t : TypeTree) → KeepsFull t (touch n t)
touch-KeepsFull n t n' k' e h full = (e, sym (find_type-touch n n' k' t) ∙ h, full)

mark-KeepsFull :
    (n k : Text) (t : TypeTree) (e : TypeEntry)
    → find_type n k t ≡ some e
    → raises e.include TypeInclude.minimal ≡ true
    → KeepsFull t (mark n k TypeInclude.minimal t)
mark-KeepsFull n k t e here rise n' k' later h full =
    let u : TypeTree = mark n k TypeInclude.minimal t in
    elim (names_cases n k n' k') [
      | inl (p, q) ↦
          let same : set_mark TypeInclude.minimal e ≡ later =
            some-injective (set_mark TypeInclude.minimal e) later (
              sym (find_type-mark n k TypeInclude.minimal t e here rise)
              ∙ ap (λ z. find_type z k u) (sym p)
              ∙ ap (λ z. find_type n' z u) (sym q)
              ∙ h) in
          let both = ap (λ (z : TypeEntry). z.include) same ∙ full in cc
      | inr v ↦ (
        later,
        sym (find_type-mark_other n k TypeInclude.minimal t e here rise n' k' v) ∙ h,
        full,
      )
    ]

module _ (m : Mode) where
  dependency-IsMinimal :
      (e : TypeEntry) → e.include ≡ TypeInclude.minimal → Each IsMinimal (dependency m e)
  unfolding dependency
  dependency-IsMinimal e minimal = Each-bind IsMinimal (row_namespace m e.def) _ λ ns.
      Each-if IsMinimal (is_empty ns) (ok (nested e.def)) _ tt (
        Each-bind IsMinimal (row_name m e.def) _
          λ full. Each-bind IsMinimal (trim_tick m full) _ λ k. minimal)

  import_each-KeepsFull :
      (visit : TypeTree → Dependency → Outcome TypeTree)
      → ((t : TypeTree) (d : Dependency) → IsMinimal d → Each (KeepsFull t) (visit t d))
      → (entries : List TypeEntry) (t : TypeTree) → All (Allowed TypeInclude.minimal) entries
      → Each (KeepsFull t) (import_each m visit entries t)
  unfolding import_each
  import_each-KeepsFull visit inner [] t allowed = KeepsFull-refl t
  import_each-KeepsFull visit inner (e ∷ rest) t allowed =
      Each-step IsMinimal (KeepsFull t) (dependency m e) _ (dependency-IsMinimal e allowed.0) λ d h.
        Each-step (KeepsFull t) (KeepsFull t) (visit t d) _ (inner t d h) λ u keeps.
          Each-map (KeepsFull u) (KeepsFull t) (import_each m visit rest u)
            (λ v. KeepsFull-trans t u v keeps) (import_each-KeepsFull visit inner rest u allowed.1)

  module _ (reader : TypeReader) (types_fuel depth : ℕ) where
    dependencies-KeepsFull :
        (visit : TypeTree → Dependency → Outcome TypeTree)
        → ((t : TypeTree) (d : Dependency) → IsMinimal d → Each (KeepsFull t) (visit t d))
        → (row : TypeRow) (t : TypeTree)
        → Each (KeepsFull t) (
            import_type_dependencies m
              (row_dependencies m reader types_fuel depth)
              visit
              row
              TypeInclude.minimal
              t)
    unfolding import_type_dependencies
    dependencies-KeepsFull visit inner row t =
        Each-step (All (Allowed TypeInclude.minimal)) (KeepsFull t)
          (row_dependencies m reader types_fuel depth row TypeInclude.minimal) _
          (row_dependencies-Allowed m reader types_fuel depth row TypeInclude.minimal (λ e. cc))
          λ entries. import_each-KeepsFull visit inner entries t

    -- With `TypeRow::dependencies` as what rows depend on, in any build: an import that asks for no more than a minimal
    -- inclusion, or goes into a nested type, and all imports that it leads to, never include a type fully. What is
    -- fully included when it returns was so before.
    pub import-KeepsFull :
        (fuel : ℕ) (t : TypeTree) (d : Dependency)
        → IsMinimal d
        → Each (KeepsFull t) (import m (row_dependencies m reader types_fuel depth) fuel t d)
    unfolding import
    import-KeepsFull zero t d h = tt
    import-KeepsFull (suc fuel) t (nested row) h =
        dependencies-KeepsFull (import m (row_dependencies m reader types_fuel depth) fuel)
          (import-KeepsFull fuel) row t
    import-KeepsFull (suc fuel) t (named n k TypeInclude.full) h = cc
    import-KeepsFull (suc fuel) t (named n k TypeInclude.none) h = cc
    import-KeepsFull (suc fuel) t (named n k TypeInclude.minimal) h =
        Each-bind (KeepsFull t) (assert (not (is_empty n)) Fault.unexpected) _ λ u.
          elim (Option-cases (find_type n k t)) [
            | inl q ↦ rw q (touch-KeepsFull n t)
            | inr (e, q) ↦ elim (Bool-cases (raises e.include TypeInclude.minimal)) [
              | inr low ↦ rw (q, low) (touch-KeepsFull n t)
              | inl rise ↦
                  rw (q, rise)
                    (Each-map (KeepsFull (mark n k TypeInclude.minimal t)) (KeepsFull t) _
                      (λ v.
                        KeepsFull-trans t (mark n k TypeInclude.minimal t) v
                          (mark-KeepsFull n k t e q rise))
                      (dependencies-KeepsFull
                        (import m (row_dependencies m reader types_fuel depth) fuel)
                        (import-KeepsFull fuel) e.def (mark n k TypeInclude.minimal t)))
            ]
          ]
