-- ===== src/Tests/Classes.antt =====
-- The interfaces of a class and their methods, in the file of the structure `A.P`, which stands for an interface here.
use windows_rs.Base.{arith, ℕ, ◌≡◌, refl, List, [], ◌∷◌, Bool, true, false, ok, trap}
use mathlib.Core.List.{Perm}
use windows_rs.Base.Text.{text, same_text}
use windows_rs.Base.Word.{mul_u32, add_u32, sub_u32}
use windows_rs.Metadata.Table.{TableIndex}
use windows_rs.Metadata.Codes.Packing.{shifted_row}
use windows_rs.Metadata.Rows.{methods}
use windows_rs.Metadata.Rows.Flags
use windows_rs.Metadata.Rows.Names.{FullName, full_name}
use windows_rs.Metadata.Rows.Attributes.{is_deprecated}
use windows_rs.Reader.Values.Uses.{rust_name}
use windows_rs.Reader.Classes.{
  InterfaceInfo, InterfaceKind, MethodInfo, Named, sort, infos_of, number_interfaces,
}
use windows_rs.Reader.Classes.Numbered.{Method, number_interfaces-all_infos}
use windows_rs.Reader.Classes.Sorted.{Sorted, sort-Sorted}
use windows_rs.Tests.Metadata.{no_types, point, row_at}

abbrev info : Bool → InterfaceKind → InterfaceInfo
info is_base kind = record { def = point; kind = kind; is_base = is_base; version = (1, 0) }

abbrev runs : List Method
runs =
    (row_at 0 TableIndex.method_def, text "Run", false)
    ∷ (row_at 1 TableIndex.method_def, text "Run", false)
    ∷ []

abbrev numbered : ℕ → ℕ → MethodInfo
numbered slot overload = record {
  name = text "Run";
  vtable_offset = slot;
  overload = overload;
  is_deprecated = false;
}

number_interfaces-all_infos_example :
    number_interfaces trap no_types 2
      (info false InterfaceKind.default ∷ info true InterfaceKind.non_default ∷ [])
      []
    ≡ ok ((numbered 6 1 ∷ numbered 7 2 ∷ []) ∷ (numbered 6 3 ∷ numbered 7 4 ∷ []) ∷ [])
unfolding methods rust_name is_deprecated same_text mul_u32 add_u32 sub_u32 Flags.special
    shifted_row
number_interfaces-all_infos_example =
    number_interfaces-all_infos trap no_types 2
      ((info false InterfaceKind.default, runs) ∷ (info true InterfaceKind.non_default, runs) ∷ [])
      (omega arith)
      ((refl, ((refl, refl), ((refl, refl), tt))), ((refl, ((refl, refl), ((refl, refl), tt))), tt))

abbrev full : FullName
full = (text "A", text "P")

abbrev unsorted : List Named
unsorted =
    (info true InterfaceKind.non_default, full)
    ∷ (info false InterfaceKind.static, full)
    ∷ (info false InterfaceKind.default, full)
    ∷ []

sort-Sorted_example :
    (sorted : List Named) × (sort trap (infos_of unsorted) ≡ ok (infos_of sorted))
    × Sorted sorted
    × Perm sorted unsorted
unfolding full_name mul_u32 add_u32
sort-Sorted_example = sort-Sorted trap unsorted (refl, (refl, (refl, tt)))
