-- ===== src/Reader/Values/Encoded.antt =====
-- The arguments of an attribute are read back from its signature and its values, as ECMA-335, II.23.3 writes them.
use windows_rs.Base.{
  ℕ, suc, ◌<◌, ◌^◌, ◌≡◌, refl, List, [], ◌∷◌, ◌++◌, map, Bool, true, false, All, ok, Mode, length,
  arith,
}
use windows_rs.Base.Text.{Text}
use windows_rs.Base.Utf8.{is_utf8}
use windows_rs.Metadata.File.{Blob}
use windows_rs.Metadata.Blob.{advance}
use windows_rs.Metadata.Compressed.{compressed, IsCompressible}
use windows_rs.Metadata.Constants.{ConstantValue}
use windows_rs.Metadata.Types.{ElementType, nil}
use windows_rs.Metadata.Types.FromCode.{from_code, match_code}
use windows_rs.Reader.Loading.{TypeReader}
use windows_rs.Reader.Signatures.{type_from_blob, type_behind}
use windows_rs.Reader.Signatures.Marks.{At, At-advance, read_byte}
use windows_rs.Reader.Values.{read_enum, fixed_arg, fixed_args}
use windows_rs.Reader.Values.Written.{Reads, put_le, read_le-put_le, put_str, read_str-put_str}

-- An argument for a parameter of a type of its own: the type's code, its bytes and its value.
pub data FixedArg : Type 0 where
  i8 u8 i16 u16 i32 u32 i64 u64 : ℕ → FixedArg
  string : Text → FixedArg

abbrev pub type_of : FixedArg → ElementType
type_of (FixedArg.i8 n) = ElementType.i8
type_of (FixedArg.u8 n) = ElementType.u8
type_of (FixedArg.i16 n) = ElementType.i16
type_of (FixedArg.u16 n) = ElementType.u16
type_of (FixedArg.i32 n) = ElementType.i32
type_of (FixedArg.u32 n) = ElementType.u32
type_of (FixedArg.i64 n) = ElementType.i64
type_of (FixedArg.u64 n) = ElementType.u64
type_of (FixedArg.string s) = ElementType.string

abbrev pub type_code : FixedArg → ℕ
type_code (FixedArg.i8 n) = 0x04
type_code (FixedArg.u8 n) = 0x05
type_code (FixedArg.i16 n) = 0x06
type_code (FixedArg.u16 n) = 0x07
type_code (FixedArg.i32 n) = 0x08
type_code (FixedArg.u32 n) = 0x09
type_code (FixedArg.i64 n) = 0x0a
type_code (FixedArg.u64 n) = 0x0b
type_code (FixedArg.string s) = 0x0e

abbrev pub put_fixed : FixedArg → List ℕ → List ℕ
put_fixed (FixedArg.i8 n) = put_le 1 n
put_fixed (FixedArg.u8 n) = put_le 1 n
put_fixed (FixedArg.i16 n) = put_le 2 n
put_fixed (FixedArg.u16 n) = put_le 2 n
put_fixed (FixedArg.i32 n) = put_le 4 n
put_fixed (FixedArg.u32 n) = put_le 4 n
put_fixed (FixedArg.i64 n) = put_le 8 n
put_fixed (FixedArg.u64 n) = put_le 8 n
put_fixed (FixedArg.string s) = put_str s

abbrev pub fixed_value : FixedArg → ConstantValue
fixed_value (FixedArg.i8 n) = ConstantValue.i8 n
fixed_value (FixedArg.u8 n) = ConstantValue.u8 n
fixed_value (FixedArg.i16 n) = ConstantValue.i16 n
fixed_value (FixedArg.u16 n) = ConstantValue.u16 n
fixed_value (FixedArg.i32 n) = ConstantValue.i32 n
fixed_value (FixedArg.u32 n) = ConstantValue.u32 n
fixed_value (FixedArg.i64 n) = ConstantValue.i64 n
fixed_value (FixedArg.u64 n) = ConstantValue.u64 n
fixed_value (FixedArg.string s) = ConstantValue.string s

abbrev pub IsString : Text → Type 0
IsString s = IsCompressible (length s) × (is_utf8 s ≡ true)

abbrev pub Fits : FixedArg → Type 0
Fits (FixedArg.i8 n) = n < 2 ^ 8
Fits (FixedArg.u8 n) = n < 2 ^ 8
Fits (FixedArg.i16 n) = n < 2 ^ 16
Fits (FixedArg.u16 n) = n < 2 ^ 16
Fits (FixedArg.i32 n) = n < 2 ^ 32
Fits (FixedArg.u32 n) = n < 2 ^ 32
Fits (FixedArg.i64 n) = n < 2 ^ 64
Fits (FixedArg.u64 n) = n < 2 ^ 64
Fits (FixedArg.string s) = IsString s

-- A named argument, of a field or of a property.
pub data NamedValue : Type 0 where
  bool : Bool → NamedValue
  i32 u32 : ℕ → NamedValue
  string : Text → NamedValue

pub record NamedArg : Type 0 where
  pub is_field : Bool
  pub name : Text
  pub value : NamedValue

abbrev pub bit : Bool → ℕ
bit true = 1
bit false = 0

abbrev pub id_of : Bool → ℕ
id_of true = 0x53
id_of false = 0x54

abbrev pub named_code : NamedValue → ℕ
named_code (NamedValue.bool b) = 0x02
named_code (NamedValue.i32 n) = 0x08
named_code (NamedValue.u32 n) = 0x09
named_code (NamedValue.string s) = 0x0e

abbrev pub put_value : NamedValue → List ℕ → List ℕ
put_value (NamedValue.bool b) = put_le 1 (bit b)
put_value (NamedValue.i32 n) = put_le 4 n
put_value (NamedValue.u32 n) = put_le 4 n
put_value (NamedValue.string s) = put_str s

abbrev pub constant_of : NamedValue → ConstantValue
constant_of (NamedValue.bool b) = ConstantValue.bool b
constant_of (NamedValue.i32 n) = ConstantValue.i32 n
constant_of (NamedValue.u32 n) = ConstantValue.u32 n
constant_of (NamedValue.string s) = ConstantValue.string s

abbrev pub ValueFits : NamedValue → Type 0
ValueFits (NamedValue.bool b) = Unit
ValueFits (NamedValue.i32 n) = n < 2 ^ 32
ValueFits (NamedValue.u32 n) = n < 2 ^ 32
ValueFits (NamedValue.string s) = IsString s

abbrev pub put_named : NamedArg → List ℕ → List ℕ
put_named a l =
    put_le 1 (id_of a.is_field)
      (put_le 1 (named_code a.value) (put_str a.name (put_value a.value l)))

abbrev pub NamedFits : NamedArg → Type 0
NamedFits a = IsString a.name × ValueFits a.value

abbrev pub put_all {ℓ} : {A : Type ℓ} → (A → List ℕ → List ℕ) → List A → List ℕ → List ℕ
put_all put [] l = l
put_all put (a ∷ rest) l = put a (put_all put rest l)

-- The signature of the constructor, of a method with `this` that returns nothing, and the values.
abbrev pub put_signature : List FixedArg → List ℕ → List ℕ
put_signature fixed l =
    0x20 ∷ (compressed (length fixed) ++ (0x01 ∷ put_all (λ a r. type_code a ∷ r) fixed l))

abbrev pub put_values : List FixedArg → List NamedArg → List ℕ → List ℕ
put_values fixed named l =
    put_le 2 1 (put_all put_fixed fixed (put_le 2 (length named) (put_all put_named named l)))

abbrev pub fixed_pair : FixedArg → Text × ConstantValue
fixed_pair a = ([], fixed_value a)

abbrev pub named_pair : NamedArg → Text × ConstantValue
named_pair a = (a.name, constant_of a.value)

module _ (m : Mode) (reader : TypeReader) (fuel : ℕ) where
  type_from_code_lem :
      (a : FixedArg) (sig : Blob) (l : List ℕ)
      → At sig (type_code a ∷ l)
      → type_from_blob m reader nil (suc fuel) sig ≡ ok (type_of a, advance sig 1)
  unfolding type_from_blob type_behind from_code match_code
  type_from_code_lem (FixedArg.i8 n) sig l at = rw (read_byte sig 0x04 l (omega arith) at) refl
  type_from_code_lem (FixedArg.u8 n) sig l at = rw (read_byte sig 0x05 l (omega arith) at) refl
  type_from_code_lem (FixedArg.i16 n) sig l at = rw (read_byte sig 0x06 l (omega arith) at) refl
  type_from_code_lem (FixedArg.u16 n) sig l at = rw (read_byte sig 0x07 l (omega arith) at) refl
  type_from_code_lem (FixedArg.i32 n) sig l at = rw (read_byte sig 0x08 l (omega arith) at) refl
  type_from_code_lem (FixedArg.u32 n) sig l at = rw (read_byte sig 0x09 l (omega arith) at) refl
  type_from_code_lem (FixedArg.i64 n) sig l at = rw (read_byte sig 0x0a l (omega arith) at) refl
  type_from_code_lem (FixedArg.u64 n) sig l at = rw (read_byte sig 0x0b l (omega arith) at) refl
  type_from_code_lem (FixedArg.string s) sig l at = rw (read_byte sig 0x0e l (omega arith) at) refl

  type_code-lt : (a : FixedArg) → type_code a < 0x80
  type_code-lt (FixedArg.i8 n) = omega arith
  type_code-lt (FixedArg.u8 n) = omega arith
  type_code-lt (FixedArg.i16 n) = omega arith
  type_code-lt (FixedArg.u16 n) = omega arith
  type_code-lt (FixedArg.i32 n) = omega arith
  type_code-lt (FixedArg.u32 n) = omega arith
  type_code-lt (FixedArg.i64 n) = omega arith
  type_code-lt (FixedArg.u64 n) = omega arith
  type_code-lt (FixedArg.string s) = omega arith

  fixed_arg-put_fixed :
      (a : FixedArg)
      → Fits a
      → Reads (fixed_arg m reader (suc fuel) (type_of a)) (put_fixed a) (fixed_value a)
  unfolding fixed_arg read_enum
  fixed_arg-put_fixed (FixedArg.i8 n) h b l at =
      let (b', e, same, at') = read_le-put_le 0 n h b l at in (b', rw e refl, same, at')
  fixed_arg-put_fixed (FixedArg.u8 n) h b l at =
      let (b', e, same, at') = read_le-put_le 0 n h b l at in (b', rw e refl, same, at')
  fixed_arg-put_fixed (FixedArg.i16 n) h b l at =
      let (b', e, same, at') = read_le-put_le 1 n h b l at in (b', rw e refl, same, at')
  fixed_arg-put_fixed (FixedArg.u16 n) h b l at =
      let (b', e, same, at') = read_le-put_le 1 n h b l at in (b', rw e refl, same, at')
  fixed_arg-put_fixed (FixedArg.i32 n) h b l at =
      let (b', e, same, at') = read_le-put_le 3 n h b l at in (b', rw e refl, same, at')
  fixed_arg-put_fixed (FixedArg.u32 n) h b l at =
      let (b', e, same, at') = read_le-put_le 3 n h b l at in (b', rw e refl, same, at')
  fixed_arg-put_fixed (FixedArg.i64 n) h b l at =
      let (b', e, same, at') = read_le-put_le 7 n h b l at in (b', rw e refl, same, at')
  fixed_arg-put_fixed (FixedArg.u64 n) h b l at =
      let (b', e, same, at') = read_le-put_le 7 n h b l at in (b', rw e refl, same, at')
  fixed_arg-put_fixed (FixedArg.string s) h b l at =
      let (b', e, same, at') = read_str-put_str s h.0 h.1 b l at in (b', rw e refl, same, at')

  pub fixed_args-put_all :
      (fixed : List FixedArg) (sig : Blob) (sig_rest : List ℕ) (values : Blob) (l : List ℕ)
      → All Fits fixed
      → At sig (put_all (λ a r. type_code a ∷ r) fixed sig_rest)
      → At values (put_all put_fixed fixed l)
      → (values' : Blob) × (fixed_args m reader (suc fuel) (length fixed) sig values
          ≡ ok (map fixed_pair fixed, values'))
        × At values' l
  unfolding fixed_args
  fixed_args-put_all [] sig sig_rest values l fits at_sig at = (values, refl, at)
  fixed_args-put_all (a ∷ fixed) sig sig_rest values l fits at_sig at =
      let codes = put_all (λ a r. type_code a ∷ r) fixed sig_rest in
      let (v1, e, same, at1) = fixed_arg-put_fixed a fits.0 values (put_all put_fixed fixed l) at in
      let (v2, es, at2) =
        fixed_args-put_all fixed (advance sig 1) sig_rest v1 l fits.1
          (At-advance sig (type_code a) codes at_sig) at1 in
      (v2, rw (type_from_code_lem a sig codes at_sig, e, es) refl, at2)
