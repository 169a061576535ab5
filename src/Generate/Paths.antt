-- ===== src/Generate/Paths.antt =====
-- Where the paths in generated code lead. A module is the list of its names, the innermost first.
use windows_rs.Base.{
  ℕ, zero, suc, List, [], ◌∷◌, map, ◌≡◌, refl, sym, ◌∙◌, ap, Option, none, some, Bool-cases, inl,
  inr, length, All,
}
use windows_rs.Base.Text.{Text, same_text, same_text-eq}
use windows_rs.Generate.{
  Segment, super, inside, relative, after_common, supers, pieces_of, path, to_ident,
}

-- The module that a path leads to, from a module on.
abbrev pub follow : List Text → List Segment → Option (List Text)
follow module' [] = some module'
follow [] (super ∷ rest) = none
follow (m ∷ module') (super ∷ rest) = follow module' rest
follow module' (inside n ∷ rest) = follow (n ∷ module') rest

abbrev onto : List Text → List Text → List Text
onto [] outer = outer
onto (n ∷ ns) outer = onto ns (n ∷ outer)

-- The module that is generated for a namespace: `gen_namespaces` names it and those around it by `to_ident`.
abbrev pub module_of : Text → List Text
module_of n = onto (map to_ident (pieces_of n)) []

-- The names that `to_ident` leaves as they are.
abbrev pub IsPlain : Text → Type 0
IsPlain n = to_ident n ≡ n

follow-inside :
    (ns outer : List Text)
    → All IsPlain ns
    → follow outer (map inside ns) ≡ some (onto (map to_ident ns) outer)
follow-inside [] outer plain = refl
follow-inside (n ∷ ns) outer (here, plain) =
    follow-inside ns (n ∷ outer) plain
    ∙ ap (λ (z : Text). some (onto (map to_ident ns) (z ∷ outer))) (sym here)

supers-next : (k : ℕ) (rest : List Segment) → supers k (super ∷ rest) ≡ super ∷ supers k rest
unfolding supers
supers-next zero rest = refl
supers-next (suc k) rest = ap (λ s. super ∷ s) (supers-next k rest)

follow-supers :
    (rs outer : List Text) (rest : List Segment)
    → follow (onto (map to_ident rs) outer) (supers (length rs) rest) ≡ follow outer rest
unfolding supers
follow-supers [] outer rest = refl
follow-supers (r ∷ rs) outer rest =
    ap (follow (onto (map to_ident rs) (to_ident r ∷ outer))) (sym (supers-next (length rs) rest))
    ∙ follow-supers rs (to_ident r ∷ outer) (super ∷ rest)

follow-after_common :
    (rs ns outer : List Text)
    → All IsPlain ns
    → follow
        (onto (map to_ident rs) outer)
        (supers (length (after_common rs ns).0) (map inside (after_common rs ns).1))
      ≡ some (onto (map to_ident ns) outer)
unfolding after_common supers
follow-after_common [] ns outer plain = follow-inside ns outer plain
follow-after_common (r ∷ rs) [] outer plain = follow-supers (r ∷ rs) outer []
follow-after_common (r ∷ rs) (n ∷ ns) outer plain = elim (Bool-cases (same_text r n)) [
  | inl e ↦ rw (e, same_text-eq r n e) (follow-after_common rs ns (to_ident n ∷ outer) plain.1)
  | inr e ↦
      rw e (follow-supers (r ∷ rs) outer (map inside (n ∷ ns)) ∙ follow-inside (n ∷ ns) outer plain)
]

-- From the module that is generated for one namespace, whatever its parts are, the relative path to another, whose parts
-- `to_ident` leaves as they are, leads to the module that is generated for the other.
pub path-follow :
    (from namespace : Text)
    → All IsPlain (pieces_of namespace)
    → follow (module_of from) (path (relative from) namespace) ≡ some (module_of namespace)
unfolding path
path-follow from namespace plain = elim (Bool-cases (same_text namespace from)) [
  | inl e ↦ rw (e, same_text-eq namespace from e) refl
  | inr e ↦ rw e (follow-after_common (pieces_of from) (pieces_of namespace) [] plain)
]
