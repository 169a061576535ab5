-- ===== src/Reader/WellKnown.antt =====
-- The types that the reader maps to types of its own, and the names of generic types
-- (crates/gen/src/parser/type_reader.rs).
pub mod Ticks
use windows_rs.Base.{
  List, [], ◌∷◌, Bool, true, false, ◌==◌, ◌&&◌, if◌then◌else◌, Option, none, some, length,
  get_elem?, take, Outcome, ok, ◌>>=◌, Mode, u64_mod,
}
use windows_rs.Base.Text.{Text, text, same_text}
use windows_rs.Base.Word.{sub_at}
use windows_rs.Metadata.Types.{ElementType}
use windows_rs.Metadata.Rows.Names.{FullName, same_name}

abbrev pub well_known_types : List (FullName × ElementType)
well_known_types =
    ((text "System", text "Guid"), ElementType.guid)
    ∷ ((text "Windows.Win32.System.Com", text "IUnknown"), ElementType.i_unknown)
    ∷ ((text "Windows.Foundation", text "HResult"), ElementType.hresult)
    ∷ ((text "Windows.Win32.Foundation", text "HRESULT"), ElementType.hresult)
    ∷ ((text "Windows.Win32.System.WinRT", text "HSTRING"), ElementType.string)
    ∷ ((text "Windows.Win32.System.WinRT", text "IInspectable"), ElementType.i_inspectable)
    ∷ ((text "Windows.Win32.System.SystemServices", text "LARGE_INTEGER"), ElementType.i64)
    ∷ ((text "Windows.Win32.System.SystemServices", text "ULARGE_INTEGER"), ElementType.u64)
    ∷ ((text "Windows.Win32.Graphics.Direct2D", text "D2D_MATRIX_3X2_F"), ElementType.matrix3x2)
    ∷ ((text "System", text "Type"), ElementType.type_name)
    ∷ []

-- The search that `type_from_code` makes: the first entry of that full name.
unfoldable pub well_known : FullName → List (FullName × ElementType) → Option ElementType
well_known name [] = none
well_known name ((key, t) ∷ rest) =
    let later = well_known name rest in if same_name name key then some t else later

unfoldable pub is_well_known_in : FullName → List (FullName × ElementType) → Bool
is_well_known_in (namespace, name) [] = false
is_well_known_in (namespace, name) (((namespace', name'), t) ∷ rest) =
    let later = is_well_known_in (namespace, name) rest in
    if same_text name name' && same_text namespace namespace' then true else later

unfoldable pub is_well_known : FullName → Bool
unfolding is_well_known_in
is_well_known name = is_well_known_in name well_known_types

-- `trim_tick`; usize has 64 bits, and the subtraction overflows on a name of fewer than two bytes.
unfoldable pub trim_tick : Mode → Text → Outcome Text
trim_tick m name = do
  len ← sub_at u64_mod m (length name) 2
  ok (elim (get_elem? name len) [ none ↦ name | some c ↦ if c == 96 then take len name else name ])

abbrev pub is_empty : Text → Bool
is_empty [] = true
is_empty (c ∷ s) = false
