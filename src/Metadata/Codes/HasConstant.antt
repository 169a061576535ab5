-- ===== src/Metadata/Codes/HasConstant.antt =====
-- `HasConstant` of crates/gen/src/parser/codes.rs.
use windows_rs.Base.{
  ℕ, ◌+◌, ◌-◌, ◌*◌, ◌/◌, ◌^◌, ◌<◌, ◌≤◌, ◌≡◌, sym, ap, ◌==◌, if◌then◌else◌, Fault, Outcome, ok,
  panic, ◌>>=◌, Mode, u32_mod, arith,
}
use windows_rs.Metadata.Table.{TableIndex}
use windows_rs.Metadata.File.{File, Row, new_row}
use windows_rs.Metadata.Codes.Packing.{
  split_code, shifted_row, tagged_row, pack, shifted_row-pack, tagged_row-pack, split_code-pack,
  split_code-eq_ok,
}

pub data HasConstant : Type 0 where
  field : Row → HasConstant
  param : Row → HasConstant

unfoldable pub decode : Mode → File → ℕ → Outcome HasConstant
decode m f code = do
  (tag, row) ← split_code m 2 code
  if tag == 0
      then ok (field (new_row row TableIndex.field f))
      else if tag == 1
      then ok (param (new_row row TableIndex.param f))
      else panic Fault.bad_code

unfoldable pub encode : Mode → HasConstant → Outcome ℕ
encode m (field r) = shifted_row m 2 r.row
encode m (param r) = tagged_row m 2 1 r.row

-- A row of its table in `f`, applied to nothing, whose number fits beside the tag.
abbrev pub IsOf : File → HasConstant → Type 0
IsOf f (field r) = (r ≡ new_row r.row TableIndex.field f) × ((r.row + 1) * 2 ^ 2 < u32_mod)
IsOf f (param r) = (r ≡ new_row r.row TableIndex.param f) × ((r.row + 1) * 2 ^ 2 < u32_mod)

-- In every build, what `encode` makes of such a row is a u32, and `decode` makes that row of it.
pub decode-encode :
    (m : Mode) (f : File) (x : HasConstant)
    → IsOf f x
    → (code : ℕ) × (encode m x ≡ ok code) × (code < u32_mod) × (decode m f code ≡ ok x)
unfolding decode encode
decode-encode m f (field r) (e, h) = (
  pack 2 0 r.row,
  shifted_row-pack m 2 r.row h,
  omega arith,
  rw (split_code-pack m 2 0 r.row (omega arith)) (ap (λ (r : Row). ok (field r)) (sym e)),
)
decode-encode m f (param r) (e, h) = (
  pack 2 1 r.row,
  tagged_row-pack m 2 1 r.row h (omega arith),
  omega arith,
  rw (split_code-pack m 2 1 r.row (omega arith)) (ap (λ (r : Row). ok (param r)) (sym e)),
)

-- `encode` gives back the code, if it has a row part.
pub encode-decode :
    (m : Mode) (f : File) (code : ℕ) (x : HasConstant)
    → code < u32_mod
    → 1 ≤ code / 2 ^ 2
    → decode m f code ≡ ok x
    → encode m x ≡ ok code
unfolding decode encode
encode-decode m f code x h k e = ground (
  arith,
  split_code-eq_ok m 2 code k,
  shifted_row-pack m 2 (code / 2 ^ 2 - 1),
  tagged_row-pack m 2 1 (code / 2 ^ 2 - 1),
)
