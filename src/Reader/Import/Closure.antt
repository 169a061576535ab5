-- ===== src/Reader/Import/Closure.antt =====
-- An import ends, and leaves the dependencies of every type whose mark it changes met.
use windows_rs.Base.{
  ℕ, zero, suc, ◌+◌, ◌≤◌, ◌<◌, List, [], ◌∷◌, ◌≡◌, ◌≢◌, refl, sym, ◌∙◌, ap, Option, none, some,
  get_elem?, inl, inr, arith, true, false, Bool, Bool-cases, Outcome, ok, Mode,
}
use mathlib.Core.Option.{some-injective}
use windows_rs.Base.Text.{Text}
use windows_rs.Base.OrderedMap.{Option-cases}
use windows_rs.Base.Traverse.{traverse, traverse-nil, traverse-cons}
use windows_rs.Reader.Tree.{TypeTree, TypeRow, TypeEntry, TypeInclude}
use windows_rs.Reader.Registry.{find_type}
use windows_rs.Reader.Registry.Marks.{find_type-touch}
use windows_rs.Reader.WellKnown.{is_empty}
use windows_rs.Reader.Import.{
  Dependency, nested, named, raises, mark, touch, dependency, import_each, import_type_dependencies,
  import, import_type,
}
use windows_rs.Reader.Import.Marking.{
  Extends, Satisfied, marked, parts, Imports, Imports-refl, Imports-trans, Satisfied-Extends,
  earlier,
}
use windows_rs.Reader.Import.Raising.{import-mark, touch-Imports, not_raised}
use windows_rs.Reader.Import.Weight.{
  mark-Extends, weight, weight-le, weight-lt, room-mark, budget, budget-le, budget-lt,
}

-- The types of the tree stand among the names, and their rows are known.
pub record IsReady (IsKnown : TypeRow → Type 0) (names : List (Text × Text)) (t : TypeTree)
    : Type 0 where
  pub covered :
      (n k : Text) (e : TypeEntry)
      → find_type n k t ≡ some e
      → (i : ℕ) × (get_elem? names i ≡ some (n, k))
  pub known : (n k : Text) (e : TypeEntry) → find_type n k t ≡ some e → IsKnown e.def

-- The dependency of a row of nesting rank `r`.
abbrev pub IsBelow : (TypeRow → Type 0) → (TypeRow → ℕ) → ℕ → Dependency → Type 0
IsBelow IsKnown rank r (nested def) = IsKnown def × (rank def < r)
IsBelow IsKnown rank r (named n k wanted) = (is_empty n ≡ false) × (wanted ≢ TypeInclude.none)

abbrev pub is_there : Option TypeEntry → Bool
is_there none = false
is_there (some e) = true

module _ (m : Mode) (dependencies : TypeRow → TypeInclude → Outcome (List TypeEntry))
    (deps : TypeRow → TypeInclude → List Dependency) (IsKnown : TypeRow → Type 0)
    (rank : TypeRow → ℕ) (depth : ℕ) (names : List (Text × Text))
    (reads : (def : TypeRow) (wanted : TypeInclude)
      → IsKnown def
      → wanted ≢ TypeInclude.none
      → (entries : List TypeEntry) × (dependencies def wanted ≡ ok entries)
        × (traverse (dependency m) entries ≡ ok (deps def wanted)))
    (below : (def : TypeRow) (wanted : TypeInclude) (i : ℕ) (d : Dependency)
      → IsKnown def
      → wanted ≢ TypeInclude.none
      → get_elem? (deps def wanted) i ≡ some d
      → IsBelow IsKnown rank (rank def) d)
    (shallow : (def : TypeRow) → IsKnown def → rank def ≤ depth) where
  IsReady-Extends :
      (t u : TypeTree) → Extends t u → IsReady IsKnown names t → IsReady IsKnown names u
  IsReady-Extends t u x r = record {
    covered = λ n k e' h. let (e, q, d, l) = earlier t u n k e' x h in r.covered n k e q;
    known =
        λ n k e' h. let (e, q, d, l) = earlier t u n k e' x h in let w = r.known n k e q in rw d w;
  }

  -- The fuel behind the budget of a tree that one dependency takes.
  abbrev height : Dependency → ℕ
  height (named n k wanted) = 1
  height (nested def) = rank def + 2

  abbrev Done : TypeTree → Outcome TypeTree → Dependency → Type 0
  Done t o d = (u : TypeTree) × (o ≡ ok u) × Imports deps t u × Satisfied deps u d

  abbrev DoneAll : TypeTree → Outcome TypeTree → List Dependency → Type 0
  DoneAll t o ds =
      (u : TypeTree) × (o ≡ ok u)
      × Imports deps t u
      × ((i : ℕ) (d : Dependency) → get_elem? ds i ≡ some d → Satisfied deps u d)

  all_met :
      (d : Dependency) (rest : List Dependency) (v : TypeTree)
      → Satisfied deps v d
      → ((i : ℕ) (d' : Dependency) → get_elem? rest i ≡ some d' → Satisfied deps v d')
      → (i : ℕ) (d' : Dependency) → get_elem? (d ∷ rest) i ≡ some d'
      → Satisfied deps v d'
  all_met d rest v s s' zero d' g = rw (sym (some-injective d d' g)) s
  all_met d rest v s s' (suc i) d' g = s' i d' g

  each :
      (visit : TypeTree → Dependency → Outcome TypeTree) (w : ℕ) (entries : List TypeEntry)
      (ds : List Dependency)
      → ((t : TypeTree) (i : ℕ) (d : Dependency)
          → IsReady IsKnown names t
          → weight names t ≤ w
          → get_elem? ds i ≡ some d
          → Done t (visit t d) d)
      → traverse (dependency m) entries ≡ ok ds
      → (t : TypeTree) → IsReady IsKnown names t
      → weight names t ≤ w
      → DoneAll t (import_each m visit entries t) ds
  unfolding import_each
  each visit w [] ds h q t ready light =
      let e = traverse-nil (dependency m) ds q in
      (t, refl, Imports-refl deps t, λ i d g. let g' = ap (λ z. get_elem? z i) e ∙ g in cc)
  each visit w (x ∷ xs) ds h q t ready light =
      let (d, rest, e, es, p) = traverse-cons (dependency m) x xs ds q in
      let (u, o, im, s) = h t 0 d ready light (ap (λ z. get_elem? z 0) (sym p)) in
      let (v, o', im', s') =
        each visit w xs rest
          (λ t' i d' r l g. h t' (suc i) d' r l (ap (λ z. get_elem? z (suc i)) (sym p) ∙ g)) es u
          (IsReady-Extends t u im.extends ready)
          (let le = weight-le names t u im.extends in omega arith) in
      (
        v,
        rw (e, o, o') refl,
        Imports-trans deps t u v im im',
        λ i d' g.
            all_met d rest v (Satisfied-Extends deps u v im'.extends d s) s' i d'
              (ap (λ z. get_elem? z i) p ∙ g),
      )

  height-le : (r : ℕ) (d : Dependency) → IsBelow IsKnown rank r d → height d ≤ r + 1
  height-le r (nested def) b = let l = b.1 in omega arith
  height-le r (named n k wanted) b = omega arith

  dependencies-all :
      (fuel : ℕ) (def : TypeRow) (wanted : TypeInclude) (w : ℕ)
      → IsKnown def
      → wanted ≢ TypeInclude.none
      → ((t : TypeTree) (d : Dependency)
          → IsReady IsKnown names t
          → IsBelow IsKnown rank (rank def) d
          → weight names t ≤ w
          → Done t (import m dependencies fuel t d) d)
      → (t : TypeTree) → IsReady IsKnown names t
      → weight names t ≤ w
      → DoneAll t
          (import_type_dependencies m dependencies (import m dependencies fuel) def wanted t)
          (deps def wanted)
  unfolding import_type_dependencies
  dependencies-all fuel def wanted w is_known some_mark h t ready light =
      let (entries, e, q) = reads def wanted is_known some_mark in
      rw e (
        each (import m dependencies fuel) w entries (deps def wanted)
          (λ t' i d r l g. h t' d r (below def wanted i d is_known some_mark g) l) q t ready light)

  import_lem :
      (fuel r : ℕ) (t : TypeTree) (d : Dependency)
      → IsReady IsKnown names t
      → IsBelow IsKnown rank r d
      → budget depth (weight names t) + height d ≤ fuel
      → Done t (import m dependencies fuel t d) d
  unfolding import
  import_lem zero r t (nested def) ready b h = absurd (omega arith)
  import_lem zero r t (named n k wanted) ready b h = absurd (omega arith)
  import_lem (suc fuel) r t (nested def) ready (is_known, less) h =
      let (u, o, im, s) =
        dependencies-all fuel def TypeInclude.minimal (weight names t) is_known (λ q. cc)
          (λ t' d ready' b light. import_lem fuel (rank def) t' d ready' b (
            let high = height-le (rank def) d b in
            let le = budget-le depth (weight names t') (weight names t) light in omega arith))
          t ready (omega arith) in
      (u, o, im, parts def s)
  import_lem (suc fuel) r t (named n k wanted) ready (not_empty, some_mark) h =
      elim (Option-cases (find_type n k t)) [
        | inl q ↦ (
          touch n t,
          rw (not_empty, q) refl,
          touch-Imports deps n t,
          marked n k wanted (λ e h'. let w = sym q ∙ sym (find_type-touch n n k t) ∙ h' in cc),
        )
        | inr (e, q) ↦ elim (Bool-cases (raises e.include wanted)) [
          | inr stay ↦ (
            touch n t,
            rw (not_empty, q, stay) refl,
            touch-Imports deps n t,
            marked n k wanted (λ e' h'.
                let same = some-injective e e' (sym q ∙ sym (find_type-touch n n k t) ∙ h') in
                rw (sym same) (not_raised e.include wanted some_mark stay)),
          )
          | inl rise ↦
              let next = mark n k wanted t in
              let x = mark-Extends n k wanted t e q rise in
              let is_known = ready.known n k e q in
              let (i, at) = ready.covered n k e q in
              let less = weight-lt n k t next x (room-mark n k wanted t e q rise) names i at in
              let step = budget-lt depth (weight names next) (weight names t) less in
              let low = shallow e.def is_known in
              let (u, o, im, s) =
                dependencies-all fuel e.def wanted (weight names next) is_known some_mark
                  (λ t' d ready' b light. import_lem fuel (rank e.def) t' d ready' b (
                    let high = height-le (rank e.def) d b in
                    let le = budget-le depth (weight names t') (weight names next) light in
                    omega arith))
                  next (IsReady-Extends t next x ready) (omega arith) in
              let (im', s') = import-mark deps n k wanted t u e q rise some_mark im s in
              (u, rw (not_empty, q, rise) o, im', s')
        ]
      ]

  full-none : TypeInclude.full ≢ TypeInclude.none
  full-none q = cc

  told :
      (u : TypeTree) (o : Option TypeEntry)
      → Path
          (Outcome (TypeTree × Bool))
          (ok (u, elim o [ none ↦ false | some e ↦ true ]))
          (ok (u, is_there o))
  told u none = refl
  told u (some e) = refl

  -- For any way of finding dependencies: let what each known row depends on be readable at both levels of inclusion, and let each
  -- dependency be a known nested type of smaller rank or have a namespace and ask for an inclusion.
  pub import_type-closes :
      (fuel : ℕ) (n k : Text) (t : TypeTree)
      → IsReady IsKnown names t
      → is_empty n ≡ false
      → budget depth (weight names t) + 1 ≤ fuel
      → (u : TypeTree) × (import_type m dependencies fuel n k t
          ≡ ok (u, is_there (find_type n k t)))
        × Imports deps t u
        × Satisfied deps u (named n k TypeInclude.full)
  unfolding import_type
  import_type-closes fuel n k t ready not_empty enough =
      let (u, o, im, s) =
        import_lem fuel 0 t (named n k TypeInclude.full) ready (not_empty, full-none) enough in
      (u, rw o (told u (find_type n k t)), im, s)
