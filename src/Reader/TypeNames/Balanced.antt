-- ===== src/Reader/TypeNames/Balanced.antt =====
-- The brackets in type signatures (crates/gen/src/tables/type_def.rs).
use windows_rs.Base.{
  ℕ, zero, suc, ◌≡◌, refl, List, [], ◌∷◌, ◌++◌, All, Outcome, ok, panic, ◌>>=◌, Mode, arith,
}
use windows_rs.Base.Text.{Text, text}
use windows_rs.Base.Each.{Each, Each-bind, Each-step}
use windows_rs.Metadata.File.{Row}
use windows_rs.Metadata.Types.{ElementType, Signature, TypeDef, ElementTypes, nil, cons}
use windows_rs.Metadata.Rows.{fields}
use windows_rs.Metadata.Rows.Names.{name, namespace}
use windows_rs.Metadata.Rows.TypeDefs.{TypeKind, kind}
use windows_rs.Reader.Loading.{TypeReader}
use windows_rs.Reader.Values.{underlying_type}
use windows_rs.Reader.Values.Uses.{guid}
use windows_rs.Reader.Shapes.{field_signature}
use windows_rs.Reader.Methods.{kind_of}
use windows_rs.Reader.Interfaces.{generics_of, default_interface}
use windows_rs.Reader.TypeNames.{
  guid_text, element_signature, generic_signatures, interface_with, field_signatures, dotted,
  type_signature, by_generics,
}
use windows_rs.Runtime.Guid.{Guid}
use windows_rs.Reader.TypeNames.Brackets.{
  IsBalanced, HasNoBracket, HasNoBracket-IsBalanced, IsBalanced-append, enclosed,
  plain_signature-IsBalanced, braced-IsBalanced, two_enclosed, tail-IsBalanced,
}

-- An element type that is none of metadata's definitions, or one of a family.
abbrev pub IsWithin : (TypeDef → Type 0) → ElementType → Type 0
IsWithin P (ElementType.type_def d) = P d
IsWithin P _ = Unit

abbrev pub AreWithin : (TypeDef → Type 0) → ElementTypes → Type 0
AreWithin P nil = Unit
AreWithin P (cons t rest) = IsWithin P t × AreWithin P rest

module _ (m : Mode) (reader : TypeReader) (fuel : ℕ) where
  -- A family of types that holds with each type all that its signature is made from, and whose names have no brackets.
  pub record IsClosed (P : TypeDef → Type 0) : Type 0 where
    pub names : (d : TypeDef) → P d → Each HasNoBracket (name m d)
    pub namespaces : (d : TypeDef) → P d → Each HasNoBracket (namespace m d)
    pub generics : (d : TypeDef) → P d → AreWithin P (generics_of d)
    pub defaults : (d : TypeDef) → P d → Each P (default_interface m reader fuel d)
    pub underlying : (d : TypeDef) → P d → Each (IsWithin P) (underlying_type m reader fuel d)
    pub members :
        (d : TypeDef)
        → P d
        → Each
            (All (λ (r : Row).
              Each (λ (s : Signature). IsWithin P (kind_of s)) (field_signature m reader fuel r)))
            (fields m d)

  dotted-IsBalanced :
      (d : TypeDef)
      → Each HasNoBracket (name m d)
      → Each HasNoBracket (namespace m d)
      → Each IsBalanced (dotted m reader fuel d)
  unfolding dotted
  dotted-IsBalanced d plain plain' =
      Each-step HasNoBracket IsBalanced (namespace m d) _ plain' λ ns h.
        Each-step HasNoBracket IsBalanced (name m d) _ plain λ k h'.
          IsBalanced-append ns (text "." ++ k) (HasNoBracket-IsBalanced ns h) (
            HasNoBracket-IsBalanced (text "." ++ k)
              ((λ e. absurd (omega arith), λ e. absurd (omega arith)), h'))

  -- With signatures of the types within that are balanced.
  module _ (P : TypeDef → Type 0) (of_def : TypeDef → Outcome Text)
      (inner : (d : TypeDef) → P d → Each IsBalanced (of_def d)) where
    element-IsBalanced :
        (t : ElementType) → IsWithin P t → Each IsBalanced (element_signature of_def t)
    unfolding element_signature
    element-IsBalanced (ElementType.type_def d) within = inner d within
    element-IsBalanced t within = plain_signature-IsBalanced t

    semicolon-IsBalanced :
        (s t : Text) → IsBalanced s → IsBalanced t → IsBalanced (text ";" ++ (s ++ t))
    semicolon-IsBalanced s t h k n rest = IsBalanced-append s t h k n rest

    generics-IsBalanced :
        (ts : ElementTypes) → AreWithin P ts → Each IsBalanced (generic_signatures of_def ts)
    unfolding generic_signatures
    generics-IsBalanced nil within = λ n rest. refl
    generics-IsBalanced (cons t ts) within =
        Each-step IsBalanced IsBalanced (element_signature of_def t) _
          (element-IsBalanced t within.0)
          λ s h.
            Each-step IsBalanced IsBalanced (generic_signatures of_def ts) _
              (generics-IsBalanced ts within.1) λ more k. semicolon-IsBalanced s more h k

    fields-IsBalanced :
        (fs : List Row)
        → All
            (λ (r : Row).
              Each (λ (s : Signature). IsWithin P (kind_of s)) (field_signature m reader fuel r))
            fs
        → Each IsBalanced (field_signatures m reader fuel of_def fs)
    unfolding field_signatures
    fields-IsBalanced [] within = λ n rest. refl
    fields-IsBalanced (r ∷ fs) within =
        Each-step (λ (s : Signature). IsWithin P (kind_of s)) IsBalanced
          (field_signature m reader fuel r) _ within.0
          λ f w.
            Each-step IsBalanced IsBalanced (element_signature of_def (kind_of f)) _
              (element-IsBalanced (kind_of f) w)
              λ s h.
                Each-step IsBalanced IsBalanced (field_signatures m reader fuel of_def fs) _
                  (fields-IsBalanced fs within.1) λ more k. semicolon-IsBalanced s more h k

    interface-IsBalanced :
        (d : TypeDef)
        → AreWithin P (generics_of d)
        → Each IsBalanced (interface_with m reader fuel of_def d)
    unfolding interface_with
    interface-IsBalanced d within =
        Each-bind IsBalanced (guid m reader fuel d) _ λ g. generics_cases (generics_of d) g
      where
        generics_cases :
            (ts : ElementTypes) (g : Guid)
            → Each IsBalanced (
                by_generics ts (ok (text "{" ++ (guid_text g ++ text "}"))) (
                  generic_signatures of_def (generics_of d) >>= λ more. ok (
                    text "pinterface("
                    ++ ((text "{" ++ (guid_text g ++ text "}")) ++ (more ++ text ")")))))
        generics_cases nil g = braced-IsBalanced g
        generics_cases (cons t ts) g =
            Each-step IsBalanced IsBalanced (generic_signatures of_def (generics_of d)) _
              (generics-IsBalanced (generics_of d) within)
              λ more h n rest.
                two_enclosed (text "{" ++ (guid_text g ++ text "}")) more (braced-IsBalanced g) h n
                  rest

  -- A type whose parts have balanced signatures, by its kind.
  module _ (P : TypeDef → Type 0) (closed : IsClosed P) (depth : ℕ)
      (inner : (d : TypeDef) → P d → Each IsBalanced (type_signature m reader fuel depth d)) where
    kind_IsBalanced :
        (d : TypeDef) (k : Outcome TypeKind)
        → kind m d ≡ k
        → P d
        → Each IsBalanced (type_signature m reader fuel (suc depth) d)
    unfolding type_signature
    kind_IsBalanced d (panic f) e here = rw e tt
    kind_IsBalanced d (ok TypeKind.interface) e here = rw e (
        interface-IsBalanced P (type_signature m reader fuel depth) inner d
          (closed.generics d here))
    kind_IsBalanced d (ok TypeKind.class) e here = rw e (
        Each-step IsBalanced IsBalanced (dotted m reader fuel d) _
          (dotted-IsBalanced d (closed.names d here) (closed.namespaces d here))
          λ full b.
            Each-step P IsBalanced (default_interface m reader fuel d) _ (closed.defaults d here)
              λ default there.
                Each-step IsBalanced IsBalanced
                  (interface_with m reader fuel (type_signature m reader fuel depth) default) _
                  (interface-IsBalanced P (type_signature m reader fuel depth) inner default
                    (closed.generics default there))
                  λ s h n rest. two_enclosed full (text ";" ++ s) b (tail-IsBalanced s h) n rest)
    kind_IsBalanced d (ok TypeKind.enum) e here = rw e (
        Each-step IsBalanced IsBalanced (dotted m reader fuel d) _
          (dotted-IsBalanced d (closed.names d here) (closed.namespaces d here))
          λ full b.
            Each-step (IsWithin P) IsBalanced (underlying_type m reader fuel d) _
              (closed.underlying d here)
              λ t there.
                Each-step IsBalanced IsBalanced
                  (element_signature (type_signature m reader fuel depth) t) _
                  (element-IsBalanced P (type_signature m reader fuel depth) inner t there)
                  λ s h n rest. two_enclosed full (text ";" ++ s) b (tail-IsBalanced s h) n rest)
    kind_IsBalanced d (ok TypeKind.struct) e here = rw e (
        Each-step IsBalanced IsBalanced (dotted m reader fuel d) _
          (dotted-IsBalanced d (closed.names d here) (closed.namespaces d here))
          λ full b. Each-step _ IsBalanced (fields m d) _ (closed.members d here) λ fs there.
            Each-step IsBalanced IsBalanced
              (field_signatures m reader fuel (type_signature m reader fuel depth) fs) _
              (fields-IsBalanced P (type_signature m reader fuel depth) inner fs there)
              λ more h n rest. two_enclosed full more b h n rest)
    kind_IsBalanced d (ok TypeKind.delegate) e here = rw e (delegate_cases (generics_of d))
      where
        delegate_cases :
            (ts : ElementTypes)
            → Each IsBalanced (
                by_generics ts
                  (interface_with m reader fuel (type_signature m reader fuel depth) d >>= λ s.
                    ok (text "delegate(" ++ (s ++ text ")")))
                  (interface_with m reader fuel (type_signature m reader fuel depth) d))
        delegate_cases nil =
            Each-step IsBalanced IsBalanced
              (interface_with m reader fuel (type_signature m reader fuel depth) d) _
              (interface-IsBalanced P (type_signature m reader fuel depth) inner d
                (closed.generics d here))
              λ s h n rest. enclosed s (s ++ text ")") h refl n rest
        delegate_cases (cons t ts) =
            interface-IsBalanced P (type_signature m reader fuel depth) inner d
              (closed.generics d here)

  -- For a family of types that holds, with each type, its generic arguments, its default interface, its underlying type and
  -- the types of its fields, as far as they are type definitions, and in which no name and no namespace has a round bracket:
  -- whatever `type_signature` returns for a type of it, at any depth, closes exactly the round brackets that it opens,
  -- wherever it stands in a longer text.
  pub type_signature-IsBalanced :
      (P : TypeDef → Type 0)
      → IsClosed P
      → (depth : ℕ) (d : TypeDef) → P d
      → Each IsBalanced (type_signature m reader fuel depth d)
  unfolding type_signature
  type_signature-IsBalanced P closed zero d here = tt
  type_signature-IsBalanced P closed (suc depth) d here =
      kind_IsBalanced P closed depth (type_signature-IsBalanced P closed depth) d (kind m d) refl
        here
