-- ===== src/Tests/Files.antt =====
-- Reads and searches in the sample file, and coded indices.
use windows_rs.Base.{
  ℕ, ◌+◌, ◌<◌, ◌≡◌, ◌≢◌, refl, [], ◌∷◌, Fault, ok, panic, trap, wrap, arith, u32_mod, drop,
}
use windows_rs.Base.Word.{add_u32, mul_u32, sub_u32}
use windows_rs.Metadata.Table.{TableIndex}
use windows_rs.Metadata.File.{Blob, new_row, copy_as, u32, blob, rows_between, rows_from}
use windows_rs.Metadata.File.Cells.{copy_as_safe, u32_cell}
use windows_rs.Metadata.File.Blobs.{blob-compressed}
use windows_rs.Metadata.Search.{upper_bound_of, equal_range}
use windows_rs.Metadata.Search.Bounds.{Parts}
use windows_rs.Metadata.Search.Ranges.{IsRange}
use windows_rs.Metadata.Search.Columns.{stored, upper_bound_of-Parts, equal_range-rows}
use windows_rs.Metadata.Codes.TypeDefOrRef
use windows_rs.Metadata.Codes.HasAttribute
use windows_rs.Metadata.Codes.Packing.{split_code}
use windows_rs.Metadata.Blob.{read_unsigned, advance}
use windows_rs.Metadata.Blob.Numbers.{read_unsigned-compressed}
use windows_rs.Tests.Samples.{sample, sample-IsValid, sample-Ascends}

u32_cell_example : u32 trap sample 3 TableIndex.param 0 ≡ ok 9
u32_cell_example =
    u32_cell trap sample 3 TableIndex.param 0 0 2 sample-IsValid (omega arith) refl (omega arith)

copy_as_safe_example : copy_as wrap sample.bytes 8 4_294_967_290 ≢ panic Fault.undefined
copy_as_safe_example = copy_as_safe wrap sample.bytes 8 4_294_967_290 (omega arith) (omega arith)

upper_bound_of-Parts_example :
    (r : ℕ) × (upper_bound_of trap sample TableIndex.type_def 0 4 0 5 ≡ ok r)
    × Parts (stored sample TableIndex.type_def 0 2) 6 0 4 r
upper_bound_of-Parts_example =
    upper_bound_of-Parts trap sample TableIndex.type_def 0 0 2 5 sample-IsValid (omega arith) refl
      (omega arith) (sample-Ascends TableIndex.type_def) 0 4 (omega arith) (omega arith)

equal_range_run :
    equal_range trap sample TableIndex.param 0 5
    ≡ ok (new_row 1 TableIndex.param sample ∷ new_row 2 TableIndex.param sample ∷ [])
unfolding equal_range add_u32 mul_u32 sub_u32 u32 rows_from
equal_range_run = refl

equal_range-rows_example :
    (a b : ℕ) × (equal_range trap sample TableIndex.param 0 5
      ≡ ok (rows_between a b TableIndex.param sample))
    × IsRange (stored sample TableIndex.param 0 2) 5 0 4 a b
equal_range-rows_example =
    equal_range-rows trap sample TableIndex.param 0 0 2 5 sample-IsValid (omega arith) refl
      (omega arith) (sample-Ascends TableIndex.param)

-- The heap begins at 0, so a cell that holds 9 names the blob at 9.
blob-compressed_example :
    blob trap sample 3 TableIndex.field 0 ≡ ok (record { file = sample; offset = 11; size = 300 })
blob-compressed_example =
    blob-compressed trap sample 3 TableIndex.field 0 9 300 (7 ∷ [])
      (u32_cell trap sample 3 TableIndex.field 0 0 2 sample-IsValid (omega arith) refl
        (omega arith))
      (omega arith) (omega arith) refl

abbrev header : Blob
header = record { file = sample; offset = 9; size = 300 }

read_unsigned-compressed_example :
    (read_unsigned header ≡ ok (300, advance header 2)) × (drop (9 + 2) sample.bytes ≡ 7 ∷ [])
read_unsigned-compressed_example = read_unsigned-compressed header 300 (7 ∷ []) (omega arith) refl

abbrev type_ref_five : TypeDefOrRef.TypeDefOrRef
type_ref_five = TypeDefOrRef.type_ref (new_row 5 TableIndex.type_ref sample)

decode-encode_example :
    (code : ℕ) × (TypeDefOrRef.encode wrap type_ref_five ≡ ok code)
    × (code < u32_mod)
    × (TypeDefOrRef.decode wrap sample code ≡ ok type_ref_five)
decode-encode_example = TypeDefOrRef.decode-encode wrap sample type_ref_five (refl, omega arith)

abbrev generic_param_zero : HasAttribute.HasAttribute
generic_param_zero = HasAttribute.generic_param (new_row 0 TableIndex.generic_param sample)

-- 51 is row 1, counted from 1, under tag 19.
decode_generic_param : HasAttribute.decode trap sample 51 ≡ ok generic_param_zero
unfolding HasAttribute.decode split_code sub_u32
decode_generic_param = refl
