-- ===== src/Metadata/Codes/TypeDefOrRef.antt =====
-- `TypeDefOrRef` of crates/gen/src/parser/codes.rs.
use windows_rs.Base.{
  ℕ, ◌+◌, ◌-◌, ◌*◌, ◌/◌, ◌^◌, ◌<◌, ◌≤◌, ◌≡◌, sym, ap, ◌==◌, if◌then◌else◌, Fault, Outcome, ok,
  panic, ◌>>=◌, Mode, u32_mod, arith,
}
use windows_rs.Metadata.Table.{TableIndex}
use windows_rs.Metadata.File.{File, Row, new_row}
use windows_rs.Metadata.Types.{TypeDef, from_row, row_of}
use windows_rs.Metadata.Codes.Packing.{
  split_code, shifted_row, tagged_row, pack, shifted_row-pack, tagged_row-pack, split_code-pack,
  split_code-eq_ok,
}

pub data TypeDefOrRef : Type 0 where
  type_def : TypeDef → TypeDefOrRef
  type_ref : Row → TypeDefOrRef
  type_spec : Row → TypeDefOrRef

unfoldable pub decode : Mode → File → ℕ → Outcome TypeDefOrRef
decode m f code = do
  (tag, row) ← split_code m 2 code
  if tag == 0
      then ok (type_def (from_row (new_row row TableIndex.type_def f)))
      else if tag == 1
      then ok (type_ref (new_row row TableIndex.type_ref f))
      else if tag == 2
      then ok (type_spec (new_row row TableIndex.type_spec f))
      else panic Fault.bad_code

unfoldable pub encode : Mode → TypeDefOrRef → Outcome ℕ
encode m (type_def d) = shifted_row m 2 (row_of d).row
encode m (type_ref r) = tagged_row m 2 1 r.row
encode m (type_spec r) = tagged_row m 2 2 r.row

-- A row of its table in `f`, applied to nothing, whose number fits beside the tag.
abbrev pub IsOf : File → TypeDefOrRef → Type 0
IsOf f (type_def d) =
    (d ≡ from_row (new_row (row_of d).row TableIndex.type_def f))
    × (((row_of d).row + 1) * 2 ^ 2 < u32_mod)
IsOf f (type_ref r) = (r ≡ new_row r.row TableIndex.type_ref f) × ((r.row + 1) * 2 ^ 2 < u32_mod)
IsOf f (type_spec r) = (r ≡ new_row r.row TableIndex.type_spec f) × ((r.row + 1) * 2 ^ 2 < u32_mod)

-- In every build, what `encode` makes of such a row is a u32, and `decode` makes that row of it.
pub decode-encode :
    (m : Mode) (f : File) (x : TypeDefOrRef)
    → IsOf f x
    → (code : ℕ) × (encode m x ≡ ok code) × (code < u32_mod) × (decode m f code ≡ ok x)
unfolding decode encode
decode-encode m f (type_def d) (e, h) = (
  pack 2 0 (row_of d).row,
  shifted_row-pack m 2 (row_of d).row h,
  omega arith,
  rw (split_code-pack m 2 0 (row_of d).row (omega arith))
      (ap (λ (d : TypeDef). ok (type_def d)) (sym e)),
)
decode-encode m f (type_ref r) (e, h) = (
  pack 2 1 r.row,
  tagged_row-pack m 2 1 r.row h (omega arith),
  omega arith,
  rw (split_code-pack m 2 1 r.row (omega arith)) (ap (λ (r : Row). ok (type_ref r)) (sym e)),
)
decode-encode m f (type_spec r) (e, h) = (
  pack 2 2 r.row,
  tagged_row-pack m 2 2 r.row h (omega arith),
  omega arith,
  rw (split_code-pack m 2 2 r.row (omega arith)) (ap (λ (r : Row). ok (type_spec r)) (sym e)),
)

-- `encode` gives back the code, if it has a row part.
pub encode-decode :
    (m : Mode) (f : File) (code : ℕ) (x : TypeDefOrRef)
    → code < u32_mod
    → 1 ≤ code / 2 ^ 2
    → decode m f code ≡ ok x
    → encode m x ≡ ok code
unfolding decode encode
encode-decode m f code x h k e = ground (
  arith,
  split_code-eq_ok m 2 code k,
  shifted_row-pack m 2 (code / 2 ^ 2 - 1),
  tagged_row-pack m 2 1 (code / 2 ^ 2 - 1),
  tagged_row-pack m 2 2 (code / 2 ^ 2 - 1),
)
