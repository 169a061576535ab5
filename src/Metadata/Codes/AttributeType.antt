-- ===== src/Metadata/Codes/AttributeType.antt =====
-- `AttributeType` of crates/gen/src/parser/codes.rs.
use windows_rs.Base.{
  ℕ, ◌+◌, ◌-◌, ◌*◌, ◌/◌, ◌^◌, ◌<◌, ◌≤◌, ◌≡◌, sym, ap, ◌==◌, if◌then◌else◌, Fault, Outcome, ok,
  panic, ◌>>=◌, Mode, u32_mod, arith,
}
use windows_rs.Metadata.Table.{TableIndex}
use windows_rs.Metadata.File.{File, Row, new_row}
use windows_rs.Metadata.Codes.Packing.{
  split_code, tagged_row, pack, tagged_row-pack, split_code-pack, split_code-eq_ok,
}

pub data AttributeType : Type 0 where
  method_def : Row → AttributeType
  member_ref : Row → AttributeType

unfoldable pub decode : Mode → File → ℕ → Outcome AttributeType
decode m f code = do
  (tag, row) ← split_code m 3 code
  if tag == 2
      then ok (method_def (new_row row TableIndex.method_def f))
      else if tag == 3
      then ok (member_ref (new_row row TableIndex.member_ref f))
      else panic Fault.bad_code

unfoldable pub encode : Mode → AttributeType → Outcome ℕ
encode m (method_def r) = tagged_row m 3 2 r.row
encode m (member_ref r) = tagged_row m 3 3 r.row

-- A row of its table in `f`, applied to nothing, whose number fits beside the tag.
abbrev pub IsOf : File → AttributeType → Type 0
IsOf f (method_def r) =
    (r ≡ new_row r.row TableIndex.method_def f) × ((r.row + 1) * 2 ^ 3 < u32_mod)
IsOf f (member_ref r) =
    (r ≡ new_row r.row TableIndex.member_ref f) × ((r.row + 1) * 2 ^ 3 < u32_mod)

-- In every build, what `encode` makes of such a row is a u32, and `decode` makes that row of it.
pub decode-encode :
    (m : Mode) (f : File) (x : AttributeType)
    → IsOf f x
    → (code : ℕ) × (encode m x ≡ ok code) × (code < u32_mod) × (decode m f code ≡ ok x)
unfolding decode encode
decode-encode m f (method_def r) (e, h) = (
  pack 3 2 r.row,
  tagged_row-pack m 3 2 r.row h (omega arith),
  omega arith,
  rw (split_code-pack m 3 2 r.row (omega arith)) (ap (λ (r : Row). ok (method_def r)) (sym e)),
)
decode-encode m f (member_ref r) (e, h) = (
  pack 3 3 r.row,
  tagged_row-pack m 3 3 r.row h (omega arith),
  omega arith,
  rw (split_code-pack m 3 3 r.row (omega arith)) (ap (λ (r : Row). ok (member_ref r)) (sym e)),
)

-- `encode` gives back the code, if it has a row part.
pub encode-decode :
    (m : Mode) (f : File) (code : ℕ) (x : AttributeType)
    → code < u32_mod
    → 1 ≤ code / 2 ^ 3
    → decode m f code ≡ ok x
    → encode m x ≡ ok code
unfolding decode encode
encode-decode m f code x h k e = ground (
  arith,
  split_code-eq_ok m 3 code k,
  tagged_row-pack m 3 2 (code / 2 ^ 3 - 1),
  tagged_row-pack m 3 3 (code / 2 ^ 3 - 1),
)
