-- ===== src/Metadata/Codes/ResolutionScope.antt =====
-- `ResolutionScope` of crates/gen/src/parser/codes.rs.
use windows_rs.Base.{
  ℕ, ◌+◌, ◌-◌, ◌*◌, ◌/◌, ◌^◌, ◌<◌, ◌≤◌, ◌≡◌, sym, ap, ◌==◌, if◌then◌else◌, Fault, Outcome, ok,
  panic, ◌>>=◌, Mode, u32_mod, arith,
}
use windows_rs.Metadata.Table.{TableIndex}
use windows_rs.Metadata.File.{File, Row, new_row}
use windows_rs.Metadata.Codes.Packing.{
  split_code, shifted_row, tagged_row, pack, shifted_row-pack, tagged_row-pack, split_code-pack,
  split_code-eq_ok,
}

pub data ResolutionScope : Type 0 where
  module' : Row → ResolutionScope
  module_ref : Row → ResolutionScope
  assembly_ref : Row → ResolutionScope
  type_ref : Row → ResolutionScope

unfoldable pub decode : Mode → File → ℕ → Outcome ResolutionScope
decode m f code = do
  (tag, row) ← split_code m 2 code
  if tag == 0
      then ok (module' (new_row row TableIndex.module' f))
      else if tag == 1
      then ok (module_ref (new_row row TableIndex.module_ref f))
      else if tag == 2
      then ok (assembly_ref (new_row row TableIndex.assembly_ref f))
      else if tag == 3
      then ok (type_ref (new_row row TableIndex.type_ref f))
      else panic Fault.bad_code

unfoldable pub encode : Mode → ResolutionScope → Outcome ℕ
encode m (module' r) = shifted_row m 2 r.row
encode m (module_ref r) = tagged_row m 2 1 r.row
encode m (assembly_ref r) = tagged_row m 2 2 r.row
encode m (type_ref r) = tagged_row m 2 3 r.row

-- A row of its table in `f`, applied to nothing, whose number fits beside the tag.
abbrev pub IsOf : File → ResolutionScope → Type 0
IsOf f (module' r) = (r ≡ new_row r.row TableIndex.module' f) × ((r.row + 1) * 2 ^ 2 < u32_mod)
IsOf f (module_ref r) =
    (r ≡ new_row r.row TableIndex.module_ref f) × ((r.row + 1) * 2 ^ 2 < u32_mod)
IsOf f (assembly_ref r) =
    (r ≡ new_row r.row TableIndex.assembly_ref f) × ((r.row + 1) * 2 ^ 2 < u32_mod)
IsOf f (type_ref r) = (r ≡ new_row r.row TableIndex.type_ref f) × ((r.row + 1) * 2 ^ 2 < u32_mod)

-- In every build, what `encode` makes of such a row is a u32, and `decode` makes that row of it.
pub decode-encode :
    (m : Mode) (f : File) (x : ResolutionScope)
    → IsOf f x
    → (code : ℕ) × (encode m x ≡ ok code) × (code < u32_mod) × (decode m f code ≡ ok x)
unfolding decode encode
decode-encode m f (module' r) (e, h) = (
  pack 2 0 r.row,
  shifted_row-pack m 2 r.row h,
  omega arith,
  rw (split_code-pack m 2 0 r.row (omega arith)) (ap (λ (r : Row). ok (module' r)) (sym e)),
)
decode-encode m f (module_ref r) (e, h) = (
  pack 2 1 r.row,
  tagged_row-pack m 2 1 r.row h (omega arith),
  omega arith,
  rw (split_code-pack m 2 1 r.row (omega arith)) (ap (λ (r : Row). ok (module_ref r)) (sym e)),
)
decode-encode m f (assembly_ref r) (e, h) = (
  pack 2 2 r.row,
  tagged_row-pack m 2 2 r.row h (omega arith),
  omega arith,
  rw (split_code-pack m 2 2 r.row (omega arith)) (ap (λ (r : Row). ok (assembly_ref r)) (sym e)),
)
decode-encode m f (type_ref r) (e, h) = (
  pack 2 3 r.row,
  tagged_row-pack m 2 3 r.row h (omega arith),
  omega arith,
  rw (split_code-pack m 2 3 r.row (omega arith)) (ap (λ (r : Row). ok (type_ref r)) (sym e)),
)

-- `encode` gives back the code, if it has a row part.
pub encode-decode :
    (m : Mode) (f : File) (code : ℕ) (x : ResolutionScope)
    → code < u32_mod
    → 1 ≤ code / 2 ^ 2
    → decode m f code ≡ ok x
    → encode m x ≡ ok code
unfolding decode encode
encode-decode m f code x h k e = ground (
  arith,
  split_code-eq_ok m 2 code k,
  shifted_row-pack m 2 (code / 2 ^ 2 - 1),
  tagged_row-pack m 2 1 (code / 2 ^ 2 - 1),
  tagged_row-pack m 2 2 (code / 2 ^ 2 - 1),
  tagged_row-pack m 2 3 (code / 2 ^ 2 - 1),
)
