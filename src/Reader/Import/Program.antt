-- ===== src/Reader/Import/Program.antt =====
-- An import over what the rows of the metadata depend on (`TypeTree::import_type` with the dependencies of
-- crates/gen/src/tables/type_def.rs and parser/type_reader.rs).
use windows_rs.Base.{
  ℕ, zero, suc, ◌+◌, ◌≤◌, ◌<◌, List, [], ◌∷◌, ◌≡◌, ◌≢◌, refl, sym, ◌∙◌, ap, subst, some, All,
  get_elem?, inl, inr, false, Bool-cases, ok, Mode,
}
use mathlib.Core.Option.{some-injective}
use windows_rs.Base.Text.{Text}
use windows_rs.Base.Each.{Each, Each-bind}
use windows_rs.Base.Traverse.{traverse, traverse-nil, traverse-cons}
use windows_rs.Reader.Tree.{TypeTree, TypeRow, TypeEntry, TypeInclude}
use windows_rs.Reader.Loading.{TypeReader}
use windows_rs.Reader.Registry.{find_type}
use windows_rs.Reader.WellKnown.{is_empty, trim_tick}
use windows_rs.Reader.Dependencies.{row_dependencies}
use windows_rs.Reader.Dependencies.Includes.{Allowed}
use windows_rs.Reader.Dependencies.Levels.{row_dependencies-Allowed}
use windows_rs.Reader.Import.{
  Dependency, nested, named, row_namespace, row_name, dependency, import_type,
}
use windows_rs.Reader.Import.Marking.{Satisfied, Imports}
use windows_rs.Reader.Import.Weight.{weight, budget}
use windows_rs.Reader.Import.Closure.{IsReady, IsBelow, is_there, import_type-closes}

-- A dependency with a name has a namespace, and asks for the level of its entry.
abbrev IsOf : TypeEntry → Dependency → Type 0
IsOf e (nested def) = Unit
IsOf e (named n k wanted) = (is_empty n ≡ false) × (e.include ≡ wanted)

dependency-IsOf : (m : Mode) (e : TypeEntry) → Each (IsOf e) (dependency m e)
unfolding dependency
dependency-IsOf m e = Each-bind (IsOf e) (row_namespace m e.def) _ (λ ns.
    elim (Bool-cases (is_empty ns)) [
      | inl p ↦ rw p tt
      | inr p ↦ rw p (
          Each-bind (IsOf e) (row_name m e.def) _
            (λ full. Each-bind (IsOf e) (trim_tick m full) _ (λ k. (p, refl))))
    ])

-- What a dependency asks for, if it has a name.
abbrev Asks : Dependency → Type 0
Asks (nested def) = Unit
Asks (named n k wanted) = (is_empty n ≡ false) × (wanted ≢ TypeInclude.none)

asks_some : (w : TypeInclude) (e : TypeEntry) → Allowed w e → e.include ≢ TypeInclude.none
asks_some TypeInclude.minimal e a = λ q. let w = sym a ∙ q in cc
asks_some TypeInclude.full e a = a
asks_some TypeInclude.none e a = a

IsOf-Asks : (w : TypeInclude) (e : TypeEntry) (d : Dependency) → Allowed w e → IsOf e d → Asks d
IsOf-Asks w e (nested def) a o = tt
IsOf-Asks w e (named n k wanted) a (p, q) = (p, λ r. asks_some w e a (q ∙ r))

traverse-Asks :
    (m : Mode) (w : TypeInclude) (entries : List TypeEntry) (ds : List Dependency)
    → traverse (dependency m) entries ≡ ok ds
    → All (Allowed w) entries
    → (i : ℕ) (d : Dependency) → get_elem? ds i ≡ some d
    → Asks d
traverse-Asks m w [] ds h all i d g =
    let g' = ap (λ z. get_elem? z i) (traverse-nil (dependency m) ds h) ∙ g in cc
traverse-Asks m w (x ∷ xs) ds h (a, all) zero d g =
    let (d', rest, e, es, p) = traverse-cons (dependency m) x xs ds h in
    let same = some-injective d' d (ap (λ z. get_elem? z zero) p ∙ g) in
    subst Asks same (IsOf-Asks w x d' a (subst (Each (IsOf x)) e (dependency-IsOf m x)))
traverse-Asks m w (x ∷ xs) ds h (a, all) (suc i) d g =
    let (d', rest, e, es, p) = traverse-cons (dependency m) x xs ds h in
    traverse-Asks m w xs rest es all i d (ap (λ z. get_elem? z (suc i)) p ∙ g)

-- A nested type is known and of smaller rank.
abbrev pub IsInner : (TypeRow → Type 0) → (TypeRow → ℕ) → ℕ → Dependency → Type 0
IsInner IsKnown rank r (nested def) = IsKnown def × (rank def < r)
IsInner IsKnown rank r (named n k wanted) = Unit

IsBelow-join :
    (IsKnown : TypeRow → Type 0) (rank : TypeRow → ℕ) (r : ℕ) (d : Dependency)
    → IsInner IsKnown rank r d
    → Asks d
    → IsBelow IsKnown rank r d
IsBelow-join IsKnown rank r (nested def) b a = b
IsBelow-join IsKnown rank r (named n k wanted) b a = a

module _ (m : Mode) (reader : TypeReader) (fuel depth : ℕ)
    (deps : TypeRow → TypeInclude → List Dependency) (IsKnown : TypeRow → Type 0)
    (rank : TypeRow → ℕ) (levels : ℕ) (names : List (Text × Text))
    (reads : (def : TypeRow) (wanted : TypeInclude)
      → IsKnown def
      → wanted ≢ TypeInclude.none
      → (entries : List TypeEntry) × (row_dependencies m reader fuel depth def wanted ≡ ok entries)
        × (traverse (dependency m) entries ≡ ok (deps def wanted)))
    (inner : (def : TypeRow) (wanted : TypeInclude) (i : ℕ) (d : Dependency)
      → IsKnown def
      → wanted ≢ TypeInclude.none
      → get_elem? (deps def wanted) i ≡ some d
      → IsInner IsKnown rank (rank def) d)
    (shallow : (def : TypeRow) → IsKnown def → rank def ≤ levels) where
  below :
      (def : TypeRow) (wanted : TypeInclude) (i : ℕ) (d : Dependency)
      → IsKnown def
      → wanted ≢ TypeInclude.none
      → get_elem? (deps def wanted) i ≡ some d
      → IsBelow IsKnown rank (rank def) d
  below def wanted i d is_known some_mark g =
      let (entries, e, q) = reads def wanted is_known some_mark in
      let allowed =
        subst (Each (All (Allowed wanted))) e
          (row_dependencies-Allowed m reader fuel depth def wanted some_mark) in
      IsBelow-join IsKnown rank (rank def) d (inner def wanted i d is_known some_mark g)
        (traverse-Asks m wanted entries (deps def wanted) q allowed i d g)

  -- In any build, with the dependencies that the rows have in the program: let what each known row depends on be readable at
  -- both levels of inclusion, let every nested type that it depends on be known and of a smaller rank, with no rank above
  -- `levels`, and let every type of the tree be known and stand among `names`. With a non-empty namespace, and one round more
  -- than the budget of the marks that can still rise, `import_type` returns, and tells whether the type is in the tree. No mark
  -- is lower than before, the type is fully included if it is in the tree, and for each type with a changed mark, all that it
  -- depends on at this mark is included at the level that it asks for, if it is in the tree.
  pub import_type-Imports :
      (rounds : ℕ) (n k : Text) (t : TypeTree)
      → IsReady IsKnown names t
      → is_empty n ≡ false
      → budget levels (weight names t) + 1 ≤ rounds
      → (u : TypeTree) × (import_type m (row_dependencies m reader fuel depth) rounds n k t
          ≡ ok (u, is_there (find_type n k t)))
        × Imports deps t u
        × Satisfied deps u (named n k TypeInclude.full)
  import_type-Imports =
      import_type-closes m (row_dependencies m reader fuel depth) deps IsKnown rank levels names
        reads below shallow
