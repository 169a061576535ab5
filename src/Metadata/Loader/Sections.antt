-- ===== src/Metadata/Loader/Sections.antt =====
-- `section_from_rva` and `offset_from_rva` of crates/gen/src/parser/file.rs: where a virtual address stands in
-- the file.
use windows_rs.Base.{
  ℕ, ◌+◌, ◌-◌, ◌<◌, ◌≤◌, ◌≡◌, inl, inr, refl, ltb, leb, if◌then◌else◌, List, [], ◌∷◌, Fault,
  Outcome, ok, panic, ◌>>=◌, Mode, All, u32_mod, arith, Bool-cases,
}
use windows_rs.Base.Word.{add_u32, sub_u32, add_u32_ok, sub_u32_ok}

-- The fields of `ImageSectionHeader` that are read.
pub record ImageSectionHeader : Type 0 where
  pub physical_address_or_virtual_size : ℕ
  pub virtual_address : ℕ
  pub pointer_to_raw_data : ℕ

unfoldable pub section_from_rva : Mode → List ImageSectionHeader → ℕ → Outcome ImageSectionHeader
section_from_rva m [] rva = panic Fault.invalid_file
section_from_rva m (s ∷ rest) rva =
    let later = section_from_rva m rest rva in
    let within = do
      end ← add_u32 m s.virtual_address s.physical_address_or_virtual_size
      if ltb rva end then ok s else later
    in if leb s.virtual_address rva then within else later

unfoldable pub offset_from_rva : Mode → ImageSectionHeader → ℕ → Outcome ℕ
offset_from_rva m s rva = do
  distance ← sub_u32 m rva s.virtual_address
  add_u32 m distance s.pointer_to_raw_data

-- The caller's composition of the two.
unfoldable pub file_offset : Mode → List ImageSectionHeader → ℕ → Outcome ℕ
unfolding section_from_rva offset_from_rva
file_offset m sections rva = do s ← section_from_rva m sections rva; offset_from_rva m s rva

-- The section ends below 2 ^ 32 in memory and in the file.
abbrev pub IsBounded : ImageSectionHeader → Type 0
IsBounded s =
    (s.virtual_address + s.physical_address_or_virtual_size < u32_mod)
    × (s.pointer_to_raw_data + s.physical_address_or_virtual_size < u32_mod)

abbrev pub Holds : ImageSectionHeader → ℕ → Type 0
Holds s rva =
    (s.virtual_address ≤ rva) × (rva < s.virtual_address + s.physical_address_or_virtual_size)

-- `s` is the first of the sections that holds the address, and the offset is as far into its data as the
-- address is into the section; or no section holds the address.
pub data Located (r : Outcome ℕ) (rva : ℕ) : List ImageSectionHeader → Type 0 where
  nowhere : r ≡ panic Fault.invalid_file → Located r rva []
  found :
      (s : ImageSectionHeader) (rest : List ImageSectionHeader)
      → Holds s rva
      → r ≡ ok (rva - s.virtual_address + s.pointer_to_raw_data)
      → Located r rva (s ∷ rest)
  further :
      (s : ImageSectionHeader) (rest : List ImageSectionHeader)
      → ¬ Holds s rva
      → Located r rva rest
      → Located r rva (s ∷ rest)

-- In every build, for sections that end below 2 ^ 32: an address that a section holds is found in the first such
-- section, at the same distance from its data in the file as from its address; for an address that no section
-- holds the reader panics.
pub file_offset-Located :
    (m : Mode) (sections : List ImageSectionHeader) (rva : ℕ)
    → All IsBounded sections
    → Located (file_offset m sections rva) rva sections
unfolding file_offset
file_offset-Located m [] rva b = nowhere refl
file_offset-Located m (s ∷ rest) rva ((b, c), bs) = elim (Bool-cases (leb s.virtual_address rva)) [
  | inl e ↦ elim (Bool-cases (ltb rva (s.virtual_address + s.physical_address_or_virtual_size))) [
    | inl l ↦
        found s rest (ground arith, ground arith)
          (rw
            (
              e,
              add_u32_ok m s.virtual_address s.physical_address_or_virtual_size b,
              l,
              sub_u32_ok m rva s.virtual_address (ground arith),
              add_u32_ok m (rva - s.virtual_address) s.pointer_to_raw_data (ground arith),
            )
            refl)
    | inr g ↦
        further s rest (λ (p, q). ground arith)
          (rw (e, add_u32_ok m s.virtual_address s.physical_address_or_virtual_size b, g)
            (file_offset-Located m rest rva bs))
  ]
  | inr e ↦ further s rest (λ (p, q). ground arith) (rw e (file_offset-Located m rest rva bs))
]
