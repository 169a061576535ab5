-- ===== src/Metadata/Codes/TypeOrMethodDef.antt =====
-- `TypeOrMethodDef` of crates/gen/src/parser/codes.rs.
use windows_rs.Base.{
  ℕ, ◌+◌, ◌-◌, ◌*◌, ◌/◌, ◌^◌, ◌<◌, ◌≤◌, ◌≡◌, sym, ap, ◌==◌, if◌then◌else◌, Fault, Outcome, ok,
  panic, ◌>>=◌, Mode, u32_mod, arith,
}
use windows_rs.Metadata.Table.{TableIndex}
use windows_rs.Metadata.File.{File, Row, new_row}
use windows_rs.Metadata.Types.{TypeDef, from_row, row_of}
use windows_rs.Metadata.Codes.Packing.{
  split_code, shifted_row, tagged_row, pack, shifted_row-pack, tagged_row-pack, split_code-pack,
  split_code-eq_ok,
}

pub data TypeOrMethodDef : Type 0 where
  type_def : TypeDef → TypeOrMethodDef
  method_def : Row → TypeOrMethodDef

unfoldable pub decode : Mode → File → ℕ → Outcome TypeOrMethodDef
decode m f code = do
  (tag, row) ← split_code m 1 code
  if tag == 0
      then ok (type_def (from_row (new_row row TableIndex.type_def f)))
      else if tag == 1
      then ok (method_def (new_row row TableIndex.method_def f))
      else panic Fault.bad_code

unfoldable pub encode : Mode → TypeOrMethodDef → Outcome ℕ
encode m (type_def d) = shifted_row m 1 (row_of d).row
encode m (method_def r) = tagged_row m 1 1 r.row

-- A row of its table in `f`, applied to nothing, whose number fits beside the tag.
abbrev pub IsOf : File → TypeOrMethodDef → Type 0
IsOf f (type_def d) =
    (d ≡ from_row (new_row (row_of d).row TableIndex.type_def f))
    × (((row_of d).row + 1) * 2 ^ 1 < u32_mod)
IsOf f (method_def r) =
    (r ≡ new_row r.row TableIndex.method_def f) × ((r.row + 1) * 2 ^ 1 < u32_mod)

-- In every build, what `encode` makes of such a row is a u32, and `decode` makes that row of it.
pub decode-encode :
    (m : Mode) (f : File) (x : TypeOrMethodDef)
    → IsOf f x
    → (code : ℕ) × (encode m x ≡ ok code) × (code < u32_mod) × (decode m f code ≡ ok x)
unfolding decode encode
decode-encode m f (type_def d) (e, h) = (
  pack 1 0 (row_of d).row,
  shifted_row-pack m 1 (row_of d).row h,
  omega arith,
  rw (split_code-pack m 1 0 (row_of d).row (omega arith))
      (ap (λ (d : TypeDef). ok (type_def d)) (sym e)),
)
decode-encode m f (method_def r) (e, h) = (
  pack 1 1 r.row,
  tagged_row-pack m 1 1 r.row h (omega arith),
  omega arith,
  rw (split_code-pack m 1 1 r.row (omega arith)) (ap (λ (r : Row). ok (method_def r)) (sym e)),
)

-- `encode` gives back the code, if it has a row part.
pub encode-decode :
    (m : Mode) (f : File) (code : ℕ) (x : TypeOrMethodDef)
    → code < u32_mod
    → 1 ≤ code / 2 ^ 1
    → decode m f code ≡ ok x
    → encode m x ≡ ok code
unfolding decode encode
encode-decode m f code x h k e = ground (
  arith,
  split_code-eq_ok m 1 code k,
  shifted_row-pack m 1 (code / 2 ^ 1 - 1),
  tagged_row-pack m 1 1 (code / 2 ^ 1 - 1),
)
