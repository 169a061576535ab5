-- ===== src/Reader/Values.antt =====
-- The values in metadata: `Constant::value` (crates/gen/src/tables/constant.rs), `TypeDef::underlying_type` (type_def.rs) and
-- the arguments of attributes (attribute.rs).
pub mod Uses
pub mod Written
pub mod Encoded
pub mod RoundTrip
use windows_rs.Base.{
  ℕ, zero, suc, List, [], ◌∷◌, ◌++◌, Bool, true, false, ◌==◌, ◌||◌, not, if◌then◌else◌, Option,
  none, some, Fault, Outcome, ok, panic, ◌>>=◌, ◌>>◌, assert, Mode, trap, wrap,
}
use windows_rs.Base.Text.{Text, around_last_dot}
use windows_rs.Metadata.File.{Row, Blob, blob}
use windows_rs.Metadata.Blob.{read_unsigned, read_expected, read_modifiers, read_le}
use windows_rs.Metadata.Blob.Strings.{read_str, read_utf16, read_u8, read_u16, read_u32, read_u64}
use windows_rs.Metadata.Constants.{ConstantValue}
use windows_rs.Metadata.Types.{ElementType, TypeDef, nil}
use windows_rs.Metadata.Codes.AttributeType.{AttributeType}
use windows_rs.Metadata.Rows.{fields}
use windows_rs.Metadata.Rows.Names.{first}
use windows_rs.Metadata.Rows.Members.{field_blob, field_constant, value_type, value_blob}
use windows_rs.Metadata.Rows.Attributes.{constructor}
use windows_rs.Reader.Loading.{TypeReader}
use windows_rs.Reader.Signatures.{resolve_type_def, type_from_blob}

-- A read, as a value of the constant's type.
abbrev pub as_value : (ℕ → ConstantValue) → Outcome (ℕ × Blob) → Outcome (ConstantValue × Blob)
as_value of read = do (value, after) ← read; ok (of value, after)

abbrev pub as_string : Outcome (List ℕ × Blob) → Outcome (ConstantValue × Blob)
as_string read = do (value, after) ← read; ok (ConstantValue.string value, after)

-- `read_enum`
unfoldable pub read_enum : ElementType → Blob → Outcome (ConstantValue × Blob)
unfolding read_le
read_enum ElementType.i8 b = as_value ConstantValue.i8 (read_u8 b)
read_enum ElementType.u8 b = as_value ConstantValue.u8 (read_u8 b)
read_enum ElementType.i16 b = as_value ConstantValue.i16 (read_u16 b)
read_enum ElementType.u16 b = as_value ConstantValue.u16 (read_u16 b)
read_enum ElementType.i32 b = as_value ConstantValue.i32 (read_u32 b)
read_enum ElementType.u32 b = as_value ConstantValue.u32 (read_u32 b)
read_enum ElementType.i64 b = as_value ConstantValue.i64 (read_u64 b)
read_enum ElementType.u64 b = as_value ConstantValue.u64 (read_u64 b)
read_enum _ b = panic Fault.unexpected

-- The `match` of `Constant::value`
unfoldable pub constant_at : ElementType → Blob → Outcome ConstantValue
unfolding read_enum read_le read_utf16
constant_at ElementType.f32 b = do (value, after) ← read_u32 b; ok (ConstantValue.f32 value)
constant_at ElementType.f64 b = do (value, after) ← read_u64 b; ok (ConstantValue.f64 value)
constant_at ElementType.string b = do value ← read_utf16 b; ok (ConstantValue.string value)
constant_at t b = do (value, after) ← read_enum t b; ok value

unfoldable pub constant_value : Mode → Row → Outcome ConstantValue
unfolding value_blob value_type constant_at
constant_value m r = do b ← value_blob m r; t ← value_type m r; constant_at t b

-- `debug_assert!`; its checks are compiled in where those for overflow are.
abbrev pub debug_assert : Mode → Bool → Fault → Outcome (Unit {0})
debug_assert trap test e = assert test e
debug_assert wrap test e = ok tt

module _ (m : Mode) (reader : TypeReader) where
  -- `fuel` bounds the nesting of the types in the signatures that are read.
  unfoldable pub underlying_type : ℕ → TypeDef → Outcome ElementType
  unfolding fields field_constant value_type field_blob read_unsigned read_modifiers read_expected
      type_from_blob
  underlying_type fuel d = do
    fs ← fields m d
    let of_field = λ (f : Row). do
      constant ← field_constant m f
      let by_blob = do
        b ← field_blob m f
        (start, b1) ← read_unsigned b
        (mods, b2) ← read_modifiers m b1
        (is_array, b3) ← read_expected b2 0x1d
        (mods, b4) ← read_modifiers m b3
        (t, b5) ← type_from_blob m reader nil fuel b4
        ok t
      elim constant [ none ↦ by_blob | some c ↦ value_type m c ]
    elim (first fs) [ none ↦ panic Fault.unexpected | some f ↦ of_field f ]

  -- A type by its full name in a blob.
  unfoldable pub read_type : Blob → Outcome (ConstantValue × Blob)
  unfolding read_str around_last_dot resolve_type_def
  read_type b = do
    (name, after) ← read_str b
    elim (around_last_dot name) [
      | none ↦ panic Fault.unwrap_none
      | some (ns, k) ↦ (do d ← resolve_type_def m reader ns k; ok (ConstantValue.type_def d, after))
    ]

  -- An argument by the type of its parameter.
  unfoldable pub fixed_arg : ℕ → ElementType → Blob → Outcome (ConstantValue × Blob)
  unfolding read_str read_type underlying_type read_enum
  fixed_arg fuel ElementType.string values = as_string (read_str values)
  fixed_arg fuel ElementType.type_name values = read_type values
  fixed_arg fuel (ElementType.type_def d) values = do t ← underlying_type fuel d; read_enum t values
  fixed_arg fuel t values = read_enum t values

  -- The loop over the parameters of the constructor, whose signature is `sig`.
  unfoldable pub fixed_args : ℕ → ℕ → Blob → Blob → Outcome (List (Text × ConstantValue) × Blob)
  unfolding type_from_blob fixed_arg
  fixed_args fuel zero sig values = ok ([], values)
  fixed_args fuel (suc count) sig values = do
    (t, sig1) ← type_from_blob m reader nil fuel sig
    (arg, values1) ← fixed_arg fuel t values
    (rest, values2) ← fixed_args fuel count sig1 values1
    ok (([], arg) ∷ rest, values2)

  -- An argument by the code of its type.
  unfoldable pub named_value : ℕ → Blob → Outcome (ConstantValue × Blob)
  unfolding read_le read_str read_type
  named_value code values =
      let as_bool = λ (v : ℕ). ConstantValue.bool (not (v == 0)) in
      if code == 0x02
      then as_value as_bool (read_u8 values)
      else if code == 0x08
      then as_value ConstantValue.i32 (read_u32 values)
      else if code == 0x09
      then as_value ConstantValue.u32 (read_u32 values)
      else if code == 0x0e
      then as_string (read_str values)
      else if code == 0x50
      then read_type values
      else panic Fault.unexpected

  unfoldable pub named_arg : Blob → Outcome ((Text × ConstantValue) × Blob)
  unfolding read_le read_str named_value
  named_arg values = do
    (id, v1) ← read_u8 values
    debug_assert m ((id == 0x53) || (id == 0x54)) Fault.unexpected
    (code, v2) ← read_u8 v1
    (name, v3) ← read_str v2
    (arg, v4) ← named_value code v3
    ok ((name, arg), v4)

  unfoldable pub named_args : ℕ → Blob → Outcome (List (Text × ConstantValue) × Blob)
  unfolding named_arg
  named_args zero values = ok ([], values)
  named_args (suc count) values = do
    (arg, v1) ← named_arg values
    (rest, v2) ← named_args count v1
    ok (arg ∷ rest, v2)

  -- The blobs of the constructor's signature and of the values.
  unfoldable pub attribute_blobs : Row → Outcome (Blob × Blob)
  unfolding constructor blob
  attribute_blobs r = do
    found ← constructor m r
    sig ← elim found [
      | AttributeType.method_def method ↦ blob m method.file method.row method.table 4
      | AttributeType.member_ref method ↦ blob m method.file method.row method.table 2
    ]
    values ← blob m r.file r.row r.table 2
    ok (sig, values)

  -- `Attribute::args`; the vector keeps the order of its reads.
  unfoldable pub args_from : ℕ → Blob → Blob → Outcome (List (Text × ConstantValue))
  unfolding read_le read_unsigned fixed_args named_args
  args_from fuel sig values = do
    (prolog, v1) ← read_u16 values
    debug_assert m (prolog == 1) Fault.unexpected
    (this_and_gen_param_count, s1) ← read_unsigned sig
    (fixed_arg_count, s2) ← read_unsigned s1
    (ret_type, s3) ← read_unsigned s2
    (fixed, v2) ← fixed_args fuel fixed_arg_count s3 v1
    (named_arg_count, v3) ← read_u16 v2
    (named, v4) ← named_args named_arg_count v3
    ok (fixed ++ named)

  unfoldable pub args : ℕ → Row → Outcome (List (Text × ConstantValue))
  unfolding attribute_blobs args_from
  args fuel r = do (sig, values) ← attribute_blobs r; args_from fuel sig values
