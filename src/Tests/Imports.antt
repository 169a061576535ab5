-- ===== src/Tests/Imports.antt =====
-- The import of a structure of metadata, from a tree that holds it alone.
use windows_rs.Base.{
  ℕ, ◌≡◌, ◌≢◌, Option, refl, sym, subst, ◌∙◌, ap, List, [], ◌∷◌, none, some, ok, trap, get_elem?,
  arith, Bool-cases, inl, inr,
}
use mathlib.Core.Option.{some-injective}
use windows_rs.Base.Text.{Text, text, same_text, same_text-eq, split, cmp_text}
use windows_rs.Base.Word.{mul_u32, add_u32, sub_u32, sub_at}
use windows_rs.Metadata.Codes.Packing.{split_code, tagged_row}
use windows_rs.Reader.Tree.{TypeTree, TypeRow, TypeEntry, TypeInclude, from_namespace, set_include}
use windows_rs.Reader.Registry.{Item, find_type, insert_items, first_row}
use windows_rs.Reader.Registry.Loads.{find_type-insert_items, kept_or, unmarked}
use windows_rs.Reader.Import.{Dependency, named, import, import_type, dependency}
use windows_rs.Reader.Import.Marking.{Imports, Satisfied}
use windows_rs.Reader.Import.Weight.{weight, budget}
use windows_rs.Reader.Import.Closure.{IsReady, is_there}
use windows_rs.Reader.Import.Program.{IsInner, import_type-Imports}
use windows_rs.Reader.Import.Minimal.{KeepsFull, import-KeepsFull}
use windows_rs.Reader.Dependencies.{row_dependencies}
use windows_rs.Base.Each.{Each}
use windows_rs.Tests.Metadata.{no_types, point}
use windows_rs.Base.Traverse.{traverse}
use windows_rs.Reader.Loading.Gathered.{found, find_type-root}

abbrev point_row : TypeRow
point_row = TypeRow.type_def point

abbrev items : List (Option Item)
items = some (record { namespace = text "A"; entries = (text "P", point_row) ∷ [] }) ∷ []

abbrev tree : TypeTree
tree = insert_items (found items) (set_include (from_namespace []))

abbrev nothing : TypeRow → TypeInclude → List Dependency
nothing def wanted = []

abbrev all_names : List (Text × Text)
all_names = (text "A", text "P") ∷ []

find_type-tree : (n k : Text) → find_type n k tree ≡ kept_or none (first_row n k (found items))
find_type-tree n k =
    find_type-insert_items n k (found items) (set_include (from_namespace []))
    ∙ ap (λ o. kept_or o (first_row n k (found items))) (find_type-root n k)

only_point :
    (n k : Text) (e : TypeEntry)
    → find_type n k tree ≡ some e
    → (n ≡ text "A") × (k ≡ text "P") × (unmarked point_row ≡ e)
only_point n k e h =
    let w = sym (find_type-tree n k) ∙ h in
    elim (Bool-cases (same_text n (text "A"))) [
      | inr p ↦ let w' = rw p at w in cc
      | inl p ↦ elim (Bool-cases (same_text k (text "P"))) [
        | inr q ↦ let w' = rw (p, q) at w in cc
        | inl q ↦
            let w' = rw (p, q) at w in
            (
              same_text-eq n (text "A") p,
              same_text-eq k (text "P") q,
              some-injective (unmarked point_row) e w',
            )
      ]
    ]

abbrev IsPoint : TypeRow → Type 0
IsPoint def = point_row ≡ def

tree-IsReady : IsReady IsPoint all_names tree
tree-IsReady = record {
  covered = λ n k e h. let (p, q, r) = only_point n k e h in (0, rw (p, q) refl);
  known = λ n k e h. let (p, q, r) = only_point n k e h in ap (λ (z : TypeEntry). z.def) r;
}

nothing-IsInner :
    (def : TypeRow) (wanted : TypeInclude) (i : ℕ) (d : Dependency)
    → IsPoint def
    → wanted ≢ TypeInclude.none
    → get_elem? (nothing def wanted) i ≡ some d
    → IsInner IsPoint (λ r. 0) 0 d
nothing-IsInner def wanted i d is_point some_mark h = cc

-- Both fields of the structure are of plain types.
point_reads :
    (wanted : TypeInclude)
    → wanted ≢ TypeInclude.none
    → row_dependencies trap no_types 2 2 point_row wanted ≡ ok []
unfolding row_dependencies mul_u32 add_u32 sub_u32 sub_at same_text split_code tagged_row
point_reads TypeInclude.minimal some_mark = refl
point_reads TypeInclude.full some_mark = refl
point_reads TypeInclude.none some_mark = absurd (some_mark refl)

reads :
    (def : TypeRow) (wanted : TypeInclude)
    → IsPoint def
    → wanted ≢ TypeInclude.none
    → (entries : List TypeEntry) × (row_dependencies trap no_types 2 2 def wanted ≡ ok entries)
      × (traverse (dependency trap) entries ≡ ok (nothing def wanted))
unfolding traverse
reads def wanted is_point some_mark = (
  [],
  subst (λ d. row_dependencies trap no_types 2 2 d wanted ≡ ok []) is_point
      (point_reads wanted some_mark),
  refl,
)

import_type-Imports_example :
    (u : TypeTree) × (import_type trap
        (row_dependencies trap no_types 2 2)
        5
        (text "A")
        (text "P")
        tree
      ≡ ok (u, is_there (find_type (text "A") (text "P") tree)))
    × Imports nothing tree u
    × Satisfied nothing u (named (text "A") (text "P") TypeInclude.full)
unfolding find_type weight budget split insert_items cmp_text
import_type-Imports_example =
    import_type-Imports trap no_types 2 2 nothing IsPoint (λ r. 0) 0 all_names reads nothing-IsInner
      (λ def is_point. omega arith) 5 (text "A") (text "P") tree tree-IsReady refl (omega arith)

import-KeepsFull_example : Each (KeepsFull tree) (
    import trap
      (row_dependencies trap no_types 2 2)
      3
      tree
      (named (text "A") (text "P") TypeInclude.minimal))
import-KeepsFull_example =
    import-KeepsFull trap no_types 2 2 3 tree (named (text "A") (text "P") TypeInclude.minimal) refl
