-- ===== src/Reader/Dependencies/Levels.antt =====
-- What is asked for by interfaces, classes and all rows (`dependencies` in crates/gen/src/tables/type_def.rs and
-- parser/type_reader.rs).
use windows_rs.Base.{
  ℕ, ◌≡◌, ◌≢◌, refl, List, [], ◌∷◌, ◌++◌, Option, none, some, All, Outcome, ok, panic, ◌>>=◌, Mode,
  ◌||◌,
}
use windows_rs.Base.Text.{text, same_text}
use windows_rs.Base.Each.{Each, Each-bind, Each-step, Each-if}
use windows_rs.Metadata.File.{Row}
use windows_rs.Metadata.Types.{TypeDef}
use windows_rs.Metadata.Rows.{methods}
use windows_rs.Metadata.Rows.Names.{same_name, full_name}
use windows_rs.Metadata.Rows.Attributes.{attribute_name}
use windows_rs.Metadata.Rows.TypeDefs.{TypeKind, kind}
use windows_rs.Reader.Tree.{TypeRow, TypeEntry, TypeInclude}
use windows_rs.Reader.Loading.{TypeReader}
use windows_rs.Reader.Values.{args}
use windows_rs.Reader.Values.Uses.{first_type, type_attributes}
use windows_rs.Reader.Interfaces.{generics_of, interfaces, bases, invoke_method}
use windows_rs.Reader.Dependencies.{
  entry_of, iterable, flat_map, matrix_def, definition, element_definitions, method_dependencies,
  interface_dependencies, factory_entry, class_dependencies, type_dependencies, row_dependencies,
}
use windows_rs.Reader.Dependencies.Includes.{
  All-append, Allowed, Asks, Asks-flat_map, Asks-def, Asks-elements, minimal-Allowed, Asks-method,
  Asks-field, asks_named, Asks-one, Asks-struct, Asks-class_minimal,
}

full-Allowed : (d : TypeDef) → Allowed TypeInclude.full (entry_of TypeInclude.full d)
full-Allowed d = λ e. cc

module _ (m : Mode) (reader : TypeReader) (fuel depth : ℕ) where
  abbrev AsksFull : Outcome (List TypeEntry) → Type 0
  AsksFull = Asks TypeInclude.full

  asks_full : (d : TypeDef) → AsksFull (definition m reader fuel depth TypeInclude.full d)
  unfolding definition
  asks_full d =
      Asks-def TypeInclude.full (matrix_def m reader fuel depth) TypeInclude.full full-Allowed d

  -- One more list in front of the others.
  asks_more :
      {A : Type 0} (o : Outcome A) (f : A → Outcome (List TypeEntry))
      → ((a : A) → AsksFull (f a))
      → AsksFull (o >>= f)
  asks_more o f h = Each-bind (All (Allowed TypeInclude.full)) o f h

  asks_list :
      (o : Outcome (List TypeEntry)) (f : List TypeEntry → Outcome (List TypeEntry))
      → AsksFull o
      → ((xs : List TypeEntry) → All (Allowed TypeInclude.full) xs → AsksFull (f xs))
      → AsksFull (o >>= f)
  asks_list o f = Each-step (All (Allowed TypeInclude.full)) (All (Allowed TypeInclude.full)) o f

  asks_append :
      (xs ys : List TypeEntry)
      → All (Allowed TypeInclude.full) xs
      → All (Allowed TypeInclude.full) ys
      → All (Allowed TypeInclude.full) (xs ++ ys)
  asks_append = All-append (Allowed TypeInclude.full)

  asks_interface : (d : TypeDef) → AsksFull (interface_dependencies m reader fuel depth d)
  unfolding interface_dependencies
  asks_interface d = asks_more (interfaces m reader fuel d) _ λ is. asks_more (methods m d) _ λ ms.
      asks_list (flat_map (method_dependencies m reader fuel depth) ms) _
        (Asks-flat_map TypeInclude.full (method_dependencies m reader fuel depth) ms
          (Asks-method m reader fuel depth TypeInclude.full))
        λ of_methods h. asks_more (full_name m d) _ λ full.
          asks_list _ _
            (Each-if (All (Allowed TypeInclude.full)) (same_name full iterable) _ _
              (Asks-one m reader fuel depth TypeInclude.full _ (
                asks_named m reader fuel depth TypeInclude.full TypeInclude.full (λ r e. cc)
                  (text "Windows.Foundation.Collections") (text "IIterator`1")))
              tt)
            λ more k.
              asks_list (flat_map (λ (i : TypeDef). ok (entry_of TypeInclude.full i ∷ [])) is) _
                (Asks-flat_map TypeInclude.full
                  (λ (i : TypeDef). ok (entry_of TypeInclude.full i ∷ [])) is
                  (λ i. (full-Allowed i, tt)))
                λ of_interfaces l.
                  asks_append of_interfaces (of_methods ++ more) l (asks_append of_methods more h k)

  factory-Allowed :
      (o : Option TypeDef)
      → All
          (Allowed TypeInclude.full)
          (elim o [ none ↦ [] | some d ↦ entry_of TypeInclude.full d ∷ [] ])
  factory-Allowed none = tt
  factory-Allowed (some d) = (full-Allowed d, tt)

  asks_factory : (r : Row) → AsksFull (factory_entry m reader fuel depth r)
  unfolding factory_entry
  asks_factory r = asks_more (attribute_name m r) _ λ name.
      Each-if (All (Allowed TypeInclude.full))
        (same_text name (text "StaticAttribute")
          || same_text name (text "ActivatableAttribute")
          || same_text name (text "ComposableAttribute"))
        _ _ (asks_more (args m reader fuel r) _ λ found. factory-Allowed (first_type found)) tt

  asks_class : (d : TypeDef) → AsksFull (class_dependencies m reader fuel depth d)
  unfolding class_dependencies element_definitions
  asks_class d =
      asks_list (element_definitions m reader fuel depth TypeInclude.minimal (generics_of d)) _
        (Asks-elements TypeInclude.full (matrix_def m reader fuel depth) TypeInclude.minimal
          (minimal-Allowed TypeInclude.full) (generics_of d))
        λ a h. asks_more (interfaces m reader fuel d) _ λ is.
          asks_list (flat_map (definition m reader fuel depth TypeInclude.full) is) _
            (Asks-flat_map TypeInclude.full (definition m reader fuel depth TypeInclude.full) is
              asks_full)
            λ b k. asks_more (bases m reader fuel depth d) _ λ bs.
              asks_list (flat_map (definition m reader fuel depth TypeInclude.full) bs) _
                (Asks-flat_map TypeInclude.full (definition m reader fuel depth TypeInclude.full) bs
                  asks_full)
                λ c l. asks_more (type_attributes m d) _ λ rows.
                  asks_list (flat_map (factory_entry m reader fuel depth) rows) _
                    (Asks-flat_map TypeInclude.full (factory_entry m reader fuel depth) rows
                      asks_factory)
                    λ e n.
                      asks_append a (b ++ (c ++ e)) h
                        (asks_append b (c ++ e) k (asks_append c e l n))

  Asks-delegate :
      (w : TypeInclude) (d : TypeDef)
      → Asks w (invoke_method m reader fuel d >>= method_dependencies m reader fuel depth)
  Asks-delegate w d =
      Each-bind (All (Allowed w)) (invoke_method m reader fuel d)
        (method_dependencies m reader fuel depth) (Asks-method m reader fuel depth w)

  Asks-kind :
      (w : TypeInclude)
      → w ≢ TypeInclude.none
      → (d : TypeDef) (k : Outcome TypeKind) → kind m d ≡ k
      → Asks w (type_dependencies m reader fuel depth w d)
  unfolding type_dependencies
  Asks-kind w n d (panic f) e = rw e tt
  Asks-kind w n d (ok TypeKind.enum) e = rw e tt
  Asks-kind w n d (ok TypeKind.struct) e = rw e (Asks-struct m reader fuel depth w d)
  Asks-kind w n d (ok TypeKind.delegate) e = rw e (Asks-delegate w d)
  Asks-kind TypeInclude.minimal n d (ok TypeKind.interface) e = rw e tt
  Asks-kind TypeInclude.full n d (ok TypeKind.interface) e = rw e (asks_interface d)
  Asks-kind TypeInclude.none n d (ok TypeKind.interface) e = absurd (n refl)
  Asks-kind TypeInclude.minimal n d (ok TypeKind.class) e =
      rw e (Asks-class_minimal m reader fuel depth TypeInclude.minimal d)
  Asks-kind TypeInclude.full n d (ok TypeKind.class) e = rw e (asks_class d)
  Asks-kind TypeInclude.none n d (ok TypeKind.class) e = absurd (n refl)

  -- A row that is included minimally asks for no more than the minimal inclusion of all that it depends on, and a fully
  -- included one never asks for types that are not to be included.
  pub row_dependencies-Allowed :
      (row : TypeRow) (wanted : TypeInclude)
      → wanted ≢ TypeInclude.none
      → Each (All (Allowed wanted)) (row_dependencies m reader fuel depth row wanted)
  unfolding row_dependencies
  row_dependencies-Allowed (TypeRow.type_def d) wanted n = Asks-kind wanted n d (kind m d) refl
  row_dependencies-Allowed (TypeRow.method_def r) wanted n =
      Asks-method m reader fuel depth wanted r
  row_dependencies-Allowed (TypeRow.field r) TypeInclude.minimal n =
      Asks-field m reader fuel depth TypeInclude.minimal TypeInclude.minimal
        (minimal-Allowed TypeInclude.minimal) r
  row_dependencies-Allowed (TypeRow.field r) TypeInclude.full n =
      Asks-field m reader fuel depth TypeInclude.full TypeInclude.full full-Allowed r
  row_dependencies-Allowed (TypeRow.field r) TypeInclude.none n = absurd (n refl)
