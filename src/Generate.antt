-- ===== src/Generate.antt =====
-- Code generation: how generated code names things (crates/gen/src/gen.rs and to_ident.rs). Tokens are their text.
pub mod Paths
pub mod Idents
use windows_rs.Base.{
  ℕ, zero, suc, List, [], ◌∷◌, ◌++◌, map, Bool, true, false, if◌then◌else◌, ◌||◌, length,
}
use windows_rs.Base.Text.{Text, text, same_text, split}

abbrev pub keywords : List Text
keywords =
    text "abstract"
    ∷ text "as"
    ∷ text "become"
    ∷ text "box"
    ∷ text "break"
    ∷ text "const"
    ∷ text "continue"
    ∷ text "crate"
    ∷ text "do"
    ∷ text "else"
    ∷ text "enum"
    ∷ text "extern"
    ∷ text "false"
    ∷ text "final"
    ∷ text "fn"
    ∷ text "for"
    ∷ text "if"
    ∷ text "impl"
    ∷ text "in"
    ∷ text "let"
    ∷ text "loop"
    ∷ text "macro"
    ∷ text "match"
    ∷ text "mod"
    ∷ text "move"
    ∷ text "mut"
    ∷ text "override"
    ∷ text "priv"
    ∷ text "pub"
    ∷ text "ref"
    ∷ text "return"
    ∷ text "static"
    ∷ text "struct"
    ∷ text "super"
    ∷ text "trait"
    ∷ text "true"
    ∷ text "type"
    ∷ text "typeof"
    ∷ text "unsafe"
    ∷ text "unsized"
    ∷ text "use"
    ∷ text "virtual"
    ∷ text "where"
    ∷ text "while"
    ∷ text "yield"
    ∷ text "try"
    ∷ text "async"
    ∷ text "await"
    ∷ text "dyn"
    ∷ []

unfoldable pub is_one_of : Text → List Text → Bool
is_one_of s [] = false
is_one_of s (t ∷ rest) = same_text s t || is_one_of s rest

unfoldable pub to_ident : Text → Text
unfolding is_one_of
to_ident name =
    if is_one_of name keywords
    then text "r#" ++ name
    else if is_one_of name (text "Self" ∷ text "self" ∷ [])
    then name ++ text "_"
    else if same_text name (text "_")
    then text "unused"
    else name

unfoldable pub to_abi_ident : Text → Text
to_abi_ident name = name ++ text "_abi"

-- One part of a path, in front of its `::`.
pub data Segment : Type 0 where
  super : Segment
  inside : Text → Segment

pub data Gen : Type 0 where
  absolute : Gen
  relative : Text → Gen

-- The loop that leaves the common start of two namespaces: what is left of both.
unfoldable pub after_common : List Text → List Text → List Text × List Text
after_common [] namespace = ([], namespace)
after_common (r ∷ rs) [] = (r ∷ rs, [])
after_common (r ∷ rs) (n ∷ ns) =
    let later = after_common rs ns in if same_text r n then later else (r ∷ rs, n ∷ ns)

unfoldable pub supers : ℕ → List Segment → List Segment
supers zero rest = rest
supers (suc n) rest = super ∷ supers n rest

abbrev pub pieces_of : Text → List Text
pieces_of n = let p = split 46 n in p.0 ∷ p.1

-- `Gen::namespace`, as the parts of the path
unfoldable pub path : Gen → Text → List Segment
unfolding after_common supers to_ident
path absolute namespace = map (λ n. inside (to_ident n)) (pieces_of namespace)
path (relative from) namespace =
    let left = after_common (pieces_of from) (pieces_of namespace) in
    if same_text namespace from then [] else supers (length left.0) (map inside left.1)

-- The text of a path.
unfoldable pub render : List Segment → Text
render [] = []
render (super ∷ rest) = text "super::" ++ render rest
render (inside n ∷ rest) = n ++ text "::" ++ render rest
