-- ===== src/Metadata/Codes/HasAttribute.antt =====
-- `HasAttribute` of crates/gen/src/parser/codes.rs.
use windows_rs.Base.{
  ℕ, ◌+◌, ◌-◌, ◌*◌, ◌/◌, ◌^◌, ◌<◌, ◌≤◌, ◌≡◌, sym, ap, ◌==◌, if◌then◌else◌, Fault, Outcome, ok,
  panic, ◌>>=◌, Mode, u32_mod, arith,
}
use windows_rs.Metadata.Table.{TableIndex}
use windows_rs.Metadata.File.{File, Row, new_row}
use windows_rs.Metadata.Types.{TypeDef, from_row, row_of}
use windows_rs.Metadata.Codes.Packing.{
  split_code, shifted_row, tagged_row, pack, shifted_row-pack, tagged_row-pack, split_code-pack,
  split_code-eq_ok,
}

pub data HasAttribute : Type 0 where
  method_def : Row → HasAttribute
  field : Row → HasAttribute
  type_ref : Row → HasAttribute
  type_def : TypeDef → HasAttribute
  param : Row → HasAttribute
  interface_impl : Row → HasAttribute
  member_ref : Row → HasAttribute
  type_spec : Row → HasAttribute
  generic_param : Row → HasAttribute

unfoldable pub decode : Mode → File → ℕ → Outcome HasAttribute
decode m f code = do
  (tag, row) ← split_code m 5 code
  if tag == 0
      then ok (method_def (new_row row TableIndex.method_def f))
      else if tag == 1
      then ok (field (new_row row TableIndex.field f))
      else if tag == 2
      then ok (type_ref (new_row row TableIndex.type_ref f))
      else if tag == 3
      then ok (type_def (from_row (new_row row TableIndex.type_def f)))
      else if tag == 4
      then ok (param (new_row row TableIndex.param f))
      else if tag == 5
      then ok (interface_impl (new_row row TableIndex.interface_impl f))
      else if tag == 6
      then ok (member_ref (new_row row TableIndex.member_ref f))
      else if tag == 13
      then ok (type_spec (new_row row TableIndex.type_spec f))
      else if tag == 19
      then ok (generic_param (new_row row TableIndex.generic_param f))
      else panic Fault.bad_code

unfoldable pub encode : Mode → HasAttribute → Outcome ℕ
encode m (method_def r) = shifted_row m 5 r.row
encode m (field r) = tagged_row m 5 1 r.row
encode m (type_ref r) = tagged_row m 5 2 r.row
encode m (type_def d) = tagged_row m 5 3 (row_of d).row
encode m (param r) = tagged_row m 5 4 r.row
encode m (interface_impl r) = tagged_row m 5 5 r.row
encode m (member_ref r) = tagged_row m 5 6 r.row
encode m (type_spec r) = tagged_row m 5 13 r.row
encode m (generic_param r) = tagged_row m 5 19 r.row

-- A row of its table in `f`, applied to nothing, whose number fits beside the tag.
abbrev pub IsOf : File → HasAttribute → Type 0
IsOf f (method_def r) =
    (r ≡ new_row r.row TableIndex.method_def f) × ((r.row + 1) * 2 ^ 5 < u32_mod)
IsOf f (field r) = (r ≡ new_row r.row TableIndex.field f) × ((r.row + 1) * 2 ^ 5 < u32_mod)
IsOf f (type_ref r) = (r ≡ new_row r.row TableIndex.type_ref f) × ((r.row + 1) * 2 ^ 5 < u32_mod)
IsOf f (type_def d) =
    (d ≡ from_row (new_row (row_of d).row TableIndex.type_def f))
    × (((row_of d).row + 1) * 2 ^ 5 < u32_mod)
IsOf f (param r) = (r ≡ new_row r.row TableIndex.param f) × ((r.row + 1) * 2 ^ 5 < u32_mod)
IsOf f (interface_impl r) =
    (r ≡ new_row r.row TableIndex.interface_impl f) × ((r.row + 1) * 2 ^ 5 < u32_mod)
IsOf f (member_ref r) =
    (r ≡ new_row r.row TableIndex.member_ref f) × ((r.row + 1) * 2 ^ 5 < u32_mod)
IsOf f (type_spec r) = (r ≡ new_row r.row TableIndex.type_spec f) × ((r.row + 1) * 2 ^ 5 < u32_mod)
IsOf f (generic_param r) =
    (r ≡ new_row r.row TableIndex.generic_param f) × ((r.row + 1) * 2 ^ 5 < u32_mod)

-- In every build, what `encode` makes of such a row is a u32, and `decode` makes that row of it.
pub decode-encode :
    (m : Mode) (f : File) (x : HasAttribute)
    → IsOf f x
    → (code : ℕ) × (encode m x ≡ ok code) × (code < u32_mod) × (decode m f code ≡ ok x)
unfolding decode encode
decode-encode m f (method_def r) (e, h) = (
  pack 5 0 r.row,
  shifted_row-pack m 5 r.row h,
  omega arith,
  rw (split_code-pack m 5 0 r.row (omega arith)) (ap (λ (r : Row). ok (method_def r)) (sym e)),
)
decode-encode m f (field r) (e, h) = (
  pack 5 1 r.row,
  tagged_row-pack m 5 1 r.row h (omega arith),
  omega arith,
  rw (split_code-pack m 5 1 r.row (omega arith)) (ap (λ (r : Row). ok (field r)) (sym e)),
)
decode-encode m f (type_ref r) (e, h) = (
  pack 5 2 r.row,
  tagged_row-pack m 5 2 r.row h (omega arith),
  omega arith,
  rw (split_code-pack m 5 2 r.row (omega arith)) (ap (λ (r : Row). ok (type_ref r)) (sym e)),
)
decode-encode m f (type_def d) (e, h) = (
  pack 5 3 (row_of d).row,
  tagged_row-pack m 5 3 (row_of d).row h (omega arith),
  omega arith,
  rw (split_code-pack m 5 3 (row_of d).row (omega arith))
      (ap (λ (d : TypeDef). ok (type_def d)) (sym e)),
)
decode-encode m f (param r) (e, h) = (
  pack 5 4 r.row,
  tagged_row-pack m 5 4 r.row h (omega arith),
  omega arith,
  rw (split_code-pack m 5 4 r.row (omega arith)) (ap (λ (r : Row). ok (param r)) (sym e)),
)
decode-encode m f (interface_impl r) (e, h) = (
  pack 5 5 r.row,
  tagged_row-pack m 5 5 r.row h (omega arith),
  omega arith,
  rw (split_code-pack m 5 5 r.row (omega arith)) (ap (λ (r : Row). ok (interface_impl r)) (sym e)),
)
decode-encode m f (member_ref r) (e, h) = (
  pack 5 6 r.row,
  tagged_row-pack m 5 6 r.row h (omega arith),
  omega arith,
  rw (split_code-pack m 5 6 r.row (omega arith)) (ap (λ (r : Row). ok (member_ref r)) (sym e)),
)
decode-encode m f (type_spec r) (e, h) = (
  pack 5 13 r.row,
  tagged_row-pack m 5 13 r.row h (omega arith),
  omega arith,
  rw (split_code-pack m 5 13 r.row (omega arith)) (ap (λ (r : Row). ok (type_spec r)) (sym e)),
)
decode-encode m f (generic_param r) (e, h) = (
  pack 5 19 r.row,
  tagged_row-pack m 5 19 r.row h (omega arith),
  omega arith,
  rw (split_code-pack m 5 19 r.row (omega arith)) (ap (λ (r : Row). ok (generic_param r)) (sym e)),
)

-- In every build: where `decode` takes a u32 whose row part is not zero, `encode` gives the code back.
pub encode-decode :
    (m : Mode) (f : File) (code : ℕ) (x : HasAttribute)
    → code < u32_mod
    → 1 ≤ code / 2 ^ 5
    → decode m f code ≡ ok x
    → encode m x ≡ ok code
unfolding decode encode
encode-decode m f code x h k e = ground (
  arith,
  split_code-eq_ok m 5 code k,
  shifted_row-pack m 5 (code / 2 ^ 5 - 1),
  tagged_row-pack m 5 1 (code / 2 ^ 5 - 1),
  tagged_row-pack m 5 2 (code / 2 ^ 5 - 1),
  tagged_row-pack m 5 3 (code / 2 ^ 5 - 1),
  tagged_row-pack m 5 4 (code / 2 ^ 5 - 1),
  tagged_row-pack m 5 5 (code / 2 ^ 5 - 1),
  tagged_row-pack m 5 6 (code / 2 ^ 5 - 1),
  tagged_row-pack m 5 13 (code / 2 ^ 5 - 1),
  tagged_row-pack m 5 19 (code / 2 ^ 5 - 1),
)
