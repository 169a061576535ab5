-- ===== src/Generate/Idents.antt =====
-- The identifiers that generated code may use.
use windows_rs.Base.{
  ◌≡◌, refl, List, [], ◌∷◌, ◌++◌, Bool, ◌&&◌, ◌||◌, not, true, false, Bool-cases, inl, inr,
}
use windows_rs.Base.Text.{Text, text, cmp_text, same_text, same_text-eq}
use windows_rs.Generate.{keywords, is_one_of, to_ident}

-- The strict keywords and the reserved ones of Rust's reference, in its order, and the underscore.
abbrev pub reserved : List Text
reserved =
    text "as"
    ∷ text "break"
    ∷ text "const"
    ∷ text "continue"
    ∷ text "crate"
    ∷ text "else"
    ∷ text "enum"
    ∷ text "extern"
    ∷ text "false"
    ∷ text "fn"
    ∷ text "for"
    ∷ text "if"
    ∷ text "impl"
    ∷ text "in"
    ∷ text "let"
    ∷ text "loop"
    ∷ text "match"
    ∷ text "mod"
    ∷ text "move"
    ∷ text "mut"
    ∷ text "pub"
    ∷ text "ref"
    ∷ text "return"
    ∷ text "self"
    ∷ text "Self"
    ∷ text "static"
    ∷ text "struct"
    ∷ text "super"
    ∷ text "trait"
    ∷ text "true"
    ∷ text "type"
    ∷ text "unsafe"
    ∷ text "use"
    ∷ text "where"
    ∷ text "while"
    ∷ text "async"
    ∷ text "await"
    ∷ text "dyn"
    ∷ text "abstract"
    ∷ text "become"
    ∷ text "box"
    ∷ text "do"
    ∷ text "final"
    ∷ text "macro"
    ∷ text "override"
    ∷ text "priv"
    ∷ text "typeof"
    ∷ text "unsized"
    ∷ text "virtual"
    ∷ text "yield"
    ∷ text "try"
    ∷ text "_"
    ∷ []

-- The words that have no raw form.
abbrev pub not_raw : List Text
not_raw = text "r#crate" ∷ text "r#super" ∷ text "r#self" ∷ text "r#Self" ∷ text "r#_" ∷ []

abbrev pub IsIdent : Text → Type 0
IsIdent s = is_one_of s (reserved ++ not_raw) ≡ false

-- The names that `to_ident` turns into no identifier: two keywords, and words that are raw and none already.
abbrev pub without_ident : List Text
without_ident = text "crate" ∷ text "super" ∷ not_raw

abbrev every : (Text → Bool) → List Text → Bool
every p [] = true
every p (t ∷ rest) = p t && every p rest

every-holds :
    (p : Text → Bool) (l : List Text) (name : Text)
    → every p l ≡ true
    → is_one_of name l ≡ true
    → p name ≡ true
unfolding is_one_of
every-holds p [] name all one = cc
every-holds p (t ∷ rest) name all one = elim (Bool-cases (p t)) [
  | inr n ↦ let w = rw n at all in cc
  | inl y ↦ elim (Bool-cases (same_text name t)) [
    | inl e ↦ rw (same_text-eq name t e) y
    | inr e ↦ every-holds p rest name (rw y at all) (rw e at one)
  ]
]

abbrev selves : List Text
selves = text "Self" ∷ text "self" ∷ []

-- A keyword has a raw form, but for the two.
abbrev raw_is_ident : Text → Bool
raw_is_ident t = is_one_of t without_ident || not (is_one_of (text "r#" ++ t) (reserved ++ not_raw))

abbrev longer_is_ident : Text → Bool
longer_is_ident t = not (is_one_of (t ++ text "_") (reserved ++ not_raw))

-- What is no identifier is escaped.
abbrev is_escaped : Text → Bool
is_escaped t =
    is_one_of t without_ident
    || (is_one_of t keywords || (is_one_of t selves || same_text t (text "_")))

raw-every : every raw_is_ident keywords ≡ true
unfolding is_one_of same_text cmp_text
raw-every = refl

longer-every : every longer_is_ident selves ≡ true
unfolding is_one_of same_text cmp_text
longer-every = refl

escaped-every : every is_escaped (reserved ++ not_raw) ≡ true
unfolding is_one_of same_text cmp_text
escaped-every = refl

unused-IsIdent : IsIdent (text "unused")
unfolding is_one_of same_text cmp_text
unused-IsIdent = refl

not-false : (b : Bool) → not b ≡ true → b ≡ false
not-false true e = cc
not-false false e = refl

-- A name other than `crate`, `super` and the five raw words that are no identifiers becomes an identifier:
-- none of Rust's strict and reserved keywords, not `_`, and not the raw form of a word that has none.
pub to_ident-IsIdent :
    (name : Text) → is_one_of name without_ident ≡ false → IsIdent (to_ident name)
unfolding to_ident
to_ident-IsIdent name ok_name = elim (Bool-cases (is_one_of name keywords)) [
  | inl e ↦
      let w = every-holds raw_is_ident keywords name raw-every e in
      rw e (not-false _ (rw ok_name at w))
  | inr e ↦ elim (Bool-cases (is_one_of name selves)) [
    | inl p ↦ rw (e, p) (not-false _ (every-holds longer_is_ident selves name longer-every p))
    | inr p ↦ elim (Bool-cases (same_text name (text "_"))) [
      | inl q ↦ rw (e, p, q) unused-IsIdent
      | inr q ↦ elim (Bool-cases (is_one_of name (reserved ++ not_raw))) [
        | inr free ↦ rw (e, p, q) free
        | inl bad ↦
            let w = every-holds is_escaped (reserved ++ not_raw) name escaped-every bad in
            let w' = rw (ok_name, e, p, q) at w in cc
      ]
    ]
  ]
]
