-- ===== src/Tests/Generated.antt =====
-- Names in generated code.
use windows_rs.Base.{◌≡◌, refl, some}
use windows_rs.Base.Text.{text, cmp_text, same_text, split}
use windows_rs.Generate.{is_one_of, to_ident, path, render, relative}
use windows_rs.Generate.Paths.{follow, module_of, path-follow}
use windows_rs.Generate.Idents.{IsIdent, to_ident-IsIdent}

path-follow_example :
    follow
      (module_of (text "Windows.Foundation.Collections"))
      (path (relative (text "Windows.Foundation.Collections")) (text "Windows.Foundation"))
    ≡ some (module_of (text "Windows.Foundation"))
unfolding to_ident same_text split cmp_text
path-follow_example =
    path-follow (text "Windows.Foundation.Collections") (text "Windows.Foundation")
      (refl, (refl, tt))

path_runs :
    render (path (relative (text "Windows.Foundation.Collections")) (text "Windows.Foundation"))
    ≡ text "super::"
unfolding path render same_text split cmp_text
path_runs = refl

to_ident-IsIdent_example : IsIdent (to_ident (text "type"))
unfolding is_one_of same_text cmp_text
to_ident-IsIdent_example = to_ident-IsIdent (text "type") refl
