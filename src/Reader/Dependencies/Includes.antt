-- ===== src/Reader/Dependencies/Includes.antt =====
-- At which level a type asks for what it depends on (crates/gen/src/tables/type_def.rs).
use windows_rs.Base.{
  ℕ, ◌≡◌, ◌≢◌, refl, List, [], ◌∷◌, ◌++◌, Option, none, some, All, Outcome, ok, panic, ◌>>=◌, Mode,
}
use windows_rs.Base.Text.{Text, text}
use windows_rs.Base.Each.{Each, Each-bind, Each-step, Each-if}
use windows_rs.Metadata.File.{Row}
use windows_rs.Metadata.Types.{
  ElementType, Signature, signature, TypeDef, def, ElementTypes, nil, cons,
}
use windows_rs.Metadata.Rows.Names.{same_name, full_name}
use windows_rs.Reader.Tree.{TypeRow, TypeEntry, TypeInclude}
use windows_rs.Reader.Loading.{TypeReader}
use windows_rs.Reader.Methods.{MethodParam, method_signature}
use windows_rs.Metadata.Rows.{fields}
use windows_rs.Reader.Signatures.{resolve_type_row}
use windows_rs.Reader.Shapes.{field_signature, bstr}
use windows_rs.Reader.Classes.{class_interfaces}
use windows_rs.Reader.Dependencies.{
  entry_of, matrix3x2, flat_map, push_convertible, find_default, definition_element,
  definition_signature, definition_def, definition_elements, matrix_def, signature_definition,
  definition, signature_dependencies, method_dependencies, field_definition, named_entry,
  class_minimal, struct_dependencies,
}

-- The level that may be asked for by a type at a level.
abbrev pub Allowed : TypeInclude → TypeEntry → Type 0
Allowed TypeInclude.minimal e = e.include ≡ TypeInclude.minimal
Allowed _ e = e.include ≢ TypeInclude.none

pub All-append {ℓ κ} :
    {A : Type ℓ} (P : A → Type κ) (xs ys : List A) → All P xs → All P ys → All P (xs ++ ys)
All-append P [] ys h k = k
All-append P (x ∷ xs) ys h k = (h.0, All-append P xs ys h.1 k)

module _ (w : TypeInclude) where
  abbrev pub Asks : Outcome (List TypeEntry) → Type 0
  Asks = Each (All (Allowed w))

  pub Asks-append :
      (o p : Outcome (List TypeEntry))
      → Asks o
      → Asks p
      → Asks (o >>= λ xs. p >>= λ ys. ok (xs ++ ys))
  Asks-append (panic f) p h k = tt
  Asks-append (ok xs) (panic f) h k = tt
  Asks-append (ok xs) (ok ys) h k = All-append (Allowed w) xs ys h k

  pub Asks-flat_map {ℓ} :
      {A : Type ℓ} (f : A → Outcome (List TypeEntry)) (xs : List A)
      → ((a : A) → Asks (f a))
      → Asks (flat_map f xs)
  Asks-flat_map f [] h = tt
  Asks-flat_map f (x ∷ xs) h = Asks-append (f x) (flat_map f xs) (h x) (Asks-flat_map f xs h)

  -- A definition asks for all its parts at its own level `v`.
  module _ (matrix : Outcome TypeDef) (v : TypeInclude)
      (own : (d : TypeDef) → Allowed w (entry_of v d)) where
    mutual
      unfolding definition_element definition_signature definition_def definition_elements

      Asks-element : (t : ElementType) → Asks (definition_element matrix v t)
      Asks-element (ElementType.type_def d) = Asks-def d
      Asks-element (ElementType.array s len) = Asks-signature s
      Asks-element ElementType.matrix3x2 =
          Each-bind (All (Allowed w)) matrix (λ d. ok (entry_of v d ∷ [])) (λ d. (own d, tt))
      Asks-element t = tt

      Asks-signature : (s : Signature) → Asks (definition_signature matrix v s)
      Asks-signature (signature t pointers by_ref is_const is_array) = Asks-element t

      pub Asks-def : (d : TypeDef) → Asks (definition_def matrix v d)
      Asks-def (def r generics) =
          Each-step (All (Allowed w)) (All (Allowed w)) (definition_elements matrix v generics)
            (λ more. ok (entry_of v (def r generics) ∷ more)) (Asks-elements generics)
            (λ more h. (own (def r generics), h))

      pub Asks-elements : (ts : ElementTypes) → Asks (definition_elements matrix v ts)
      Asks-elements nil = tt
      Asks-elements (cons t rest) =
          Asks-append (definition_element matrix v t) (definition_elements matrix v rest)
            (Asks-element t) (Asks-elements rest)

pub minimal-Allowed : (w : TypeInclude) (d : TypeDef) → Allowed w (entry_of TypeInclude.minimal d)
minimal-Allowed TypeInclude.minimal d = refl
minimal-Allowed TypeInclude.full d = λ e. cc
minimal-Allowed TypeInclude.none d = λ e. cc

minimal_row :
    (w : TypeInclude) (r : TypeRow) → Allowed w (record { def = r; include = TypeInclude.minimal })
minimal_row TypeInclude.minimal r = refl
minimal_row TypeInclude.full r = λ e. cc
minimal_row TypeInclude.none r = λ e. cc

convertible-Allowed : (w : TypeInclude) (o : Option TypeDef) → All (Allowed w) (push_convertible o)
convertible-Allowed w none = tt
convertible-Allowed w (some d) = (minimal-Allowed w d, tt)

module _ (m : Mode) (reader : TypeReader) (fuel depth : ℕ) (w : TypeInclude) where
  Asks-result :
      (v : TypeInclude)
      → ((d : TypeDef) → Allowed w (entry_of v d))
      → (o : Option Signature)
      → Asks w (elim o [ none ↦ ok [] | some r ↦ signature_definition m reader fuel depth v r ])
  unfolding signature_definition
  Asks-result v own none = tt
  Asks-result v own (some r) = Asks-signature w (matrix_def m reader fuel depth) v own r

  pub Asks-method : (r : Row) → Asks w (method_dependencies m reader fuel depth r)
  unfolding method_dependencies signature_dependencies signature_definition
  Asks-method r =
      Each-bind (All (Allowed w)) (method_signature m reader nil fuel r)
        (signature_dependencies m reader fuel depth TypeInclude.minimal)
        λ s.
          let matrix = matrix_def m reader fuel depth in
          Asks-append w _ _ (Asks-result TypeInclude.minimal (minimal-Allowed w) s.return_type) (
            Asks-flat_map w
              (λ (p : MethodParam).
                signature_definition m reader fuel depth TypeInclude.minimal p.signature)
              s.params
              λ p. Asks-signature w matrix TypeInclude.minimal (minimal-Allowed w) p.signature)

  pub Asks-field :
      (v : TypeInclude)
      → ((d : TypeDef) → Allowed w (entry_of v d))
      → (r : Row) → Asks w (field_definition m reader fuel depth v r)
  unfolding field_definition signature_definition
  Asks-field v own r =
      Each-bind (All (Allowed w)) (field_signature m reader fuel r)
        (signature_definition m reader fuel depth v)
        λ s. Asks-signature w (matrix_def m reader fuel depth) v own s

  pub asks_named :
      (v : TypeInclude)
      → ((r : TypeRow) → Allowed w (record { def = r; include = v }))
      → (ns k : Text) → Each (Allowed w) (named_entry m reader fuel depth v ns k)
  unfolding named_entry
  asks_named v own ns k =
      Each-bind (Allowed w) (resolve_type_row m reader ns k)
        (λ r. ok (record { def = r; include = v })) own

  minimal_named :
      (ns k : Text) → Each (Allowed w) (named_entry m reader fuel depth TypeInclude.minimal ns k)
  minimal_named ns k = asks_named TypeInclude.minimal (minimal_row w) ns k

  pub Asks-one : (o : Outcome TypeEntry) → Each (Allowed w) o → Asks w (o >>= λ e. ok (e ∷ []))
  Asks-one o h = Each-step (Allowed w) (All (Allowed w)) o (λ e. ok (e ∷ [])) h (λ e a. (a, tt))

  Asks-three :
      (o p q : Outcome TypeEntry)
      → Each (Allowed w) o
      → Each (Allowed w) p
      → Each (Allowed w) q
      → Asks w (o >>= λ a. p >>= λ b. q >>= λ c. ok (a ∷ b ∷ c ∷ []))
  Asks-three (ok a) (ok b) (ok c) h k l = (h, (k, (l, tt)))
  Asks-three (ok a) (ok b) (panic f) h k l = tt
  Asks-three (ok a) (panic f) q h k l = tt
  Asks-three (panic f) p q h k l = tt

  Asks-pushed :
      (o : Outcome (List TypeEntry)) (p : Outcome (Option TypeDef))
      → Asks w o
      → Asks w (o >>= λ xs. p >>= λ d. ok (xs ++ push_convertible d))
  Asks-pushed (ok xs) (ok d) h =
      All-append (Allowed w) xs (push_convertible d) h (convertible-Allowed w d)
  Asks-pushed (ok xs) (panic f) h = tt
  Asks-pushed (panic f) p h = tt

  pub Asks-struct : (d : TypeDef) → Asks w (struct_dependencies m reader fuel depth d)
  unfolding struct_dependencies
  Asks-struct d = Each-bind (All (Allowed w)) (full_name m d) _ λ full.
      Each-if (All (Allowed w)) (same_name full bstr) _ _
        (Asks-three _ _ _ (minimal_named bstr.0 (text "SysFreeString"))
          (minimal_named bstr.0 (text "SysAllocStringLen"))
          (minimal_named bstr.0 (text "SysStringLen")))
        (Each-if (All (Allowed w)) (same_name full matrix3x2) _ _
          (Asks-one _
            (minimal_named (text "Windows.Win32.Graphics.Direct2D") (text "D2D1MakeRotateMatrix")))
          (Each-bind (All (Allowed w)) (fields m d) _ λ fs. Asks-pushed _ _ (
            Asks-flat_map w (field_definition m reader fuel depth TypeInclude.minimal) fs
              (Asks-field TypeInclude.minimal (minimal-Allowed w)))))

  Asks-found :
      (o : Option TypeDef)
      → Asks w
          (elim o [ none ↦ ok [] | some i ↦ definition m reader fuel depth TypeInclude.minimal i ])
  unfolding definition
  Asks-found none = tt
  Asks-found (some i) =
      Asks-def w (matrix_def m reader fuel depth) TypeInclude.minimal (minimal-Allowed w) i

  pub Asks-class_minimal : (d : TypeDef) → Asks w (class_minimal m reader fuel depth d)
  unfolding class_minimal
  Asks-class_minimal d =
      Each-bind (All (Allowed w)) (class_interfaces m reader fuel depth d) _
        λ infos. Asks-found (find_default infos)
