-- ===== src/Reader/Values/RoundTrip.antt =====
-- The named arguments of an attribute, and all its arguments together (crates/gen/src/tables/attribute.rs).
use windows_rs.Base.{
  ℕ, suc, ◌==◌, ◌||◌, ◌∙◌, Fault, ◌<◌, ◌^◌, ◌≡◌, refl, List, [], ◌∷◌, ◌++◌, map, Bool, true, false,
  All, ok, Mode, trap, wrap, length, arith,
}
use windows_rs.Metadata.File.{Blob}
use windows_rs.Metadata.Blob.{advance}
use windows_rs.Metadata.Blob.Numbers.{read_unsigned-compressed}
use windows_rs.Metadata.Compressed.{compressed, IsCompressible}
use windows_rs.Reader.Loading.{TypeReader}
use windows_rs.Reader.Signatures.Marks.{At, At-advance, read_byte}
use windows_rs.Reader.Values.{debug_assert, named_value, named_arg, named_args, args_from}
use windows_rs.Reader.Values.Written.{Reads, put_le, read_le-put_le, put_str, read_str-put_str}
use windows_rs.Reader.Values.Encoded.{
  FixedArg, NamedArg, NamedValue, id_of, type_code, put_fixed, put_named, put_value, put_all,
  put_signature, put_values, named_code, constant_of, ValueFits, NamedFits, Fits, fixed_pair,
  named_pair, fixed_args-put_all,
}

passed : (m : Mode) (e : Fault) → debug_assert m true e ≡ ok tt
passed trap e = refl
passed wrap e = refl

id_of_passed :
    (m : Mode) (f : Bool)
    → debug_assert m ((id_of f == 0x53) || (id_of f == 0x54)) Fault.unexpected ≡ ok tt
id_of_passed m true = passed m Fault.unexpected
id_of_passed m false = passed m Fault.unexpected

module _ (m : Mode) (reader : TypeReader) where
  named_value-put_value :
      (v : NamedValue)
      → ValueFits v
      → Reads (named_value m reader (named_code v)) (put_value v) (constant_of v)
  unfolding named_value
  named_value-put_value (NamedValue.bool true) h b l at =
      let (b', e, same, at') = read_le-put_le 0 1 (omega arith) b l at in (b', rw e refl, same, at')
  named_value-put_value (NamedValue.bool false) h b l at =
      let (b', e, same, at') = read_le-put_le 0 0 (omega arith) b l at in (b', rw e refl, same, at')
  named_value-put_value (NamedValue.i32 n) h b l at =
      let (b', e, same, at') = read_le-put_le 3 n h b l at in (b', rw e refl, same, at')
  named_value-put_value (NamedValue.u32 n) h b l at =
      let (b', e, same, at') = read_le-put_le 3 n h b l at in (b', rw e refl, same, at')
  named_value-put_value (NamedValue.string s) h b l at =
      let (b', e, same, at') = read_str-put_str s h.0 h.1 b l at in (b', rw e refl, same, at')

  named_code-lt : (v : NamedValue) → named_code v < 256 ^ 1
  named_code-lt (NamedValue.bool b) = omega arith
  named_code-lt (NamedValue.i32 n) = omega arith
  named_code-lt (NamedValue.u32 n) = omega arith
  named_code-lt (NamedValue.string s) = omega arith

  id_of-lt : (f : Bool) → id_of f < 256 ^ 1
  id_of-lt true = omega arith
  id_of-lt false = omega arith

  named_arg-put_named :
      (a : NamedArg) → NamedFits a → Reads (named_arg m reader) (put_named a) (named_pair a)
  unfolding named_arg
  named_arg-put_named a fits b l at =
      let body = put_str a.name (put_value a.value l) in
      let (b1, e1, s1, at1) =
        read_le-put_le 0 (id_of a.is_field) (id_of-lt a.is_field) b
          (put_le 1 (named_code a.value) body) at in
      let (b2, e2, s2, at2) =
        read_le-put_le 0 (named_code a.value) (named_code-lt a.value) b1 body at1 in
      let (b3, e3, s3, at3) =
        read_str-put_str a.name fits.0.0 fits.0.1 b2 (put_value a.value l) at2 in
      let (b4, e4, s4, at4) = named_value-put_value a.value fits.1 b3 l at3 in
      (b4, rw (e1, id_of_passed m a.is_field, e2, e3, e4) refl, s4 ∙ s3 ∙ s2 ∙ s1, at4)

  named_args-put_all :
      (named : List NamedArg) (b : Blob) (l : List ℕ)
      → All NamedFits named
      → At b (put_all put_named named l)
      → (b' : Blob) × (named_args m reader (length named) b ≡ ok (map named_pair named, b'))
        × At b' l
  unfolding named_args
  named_args-put_all [] b l fits at = (b, refl, at)
  named_args-put_all (a ∷ named) b l fits at =
      let (b1, e, same, at1) = named_arg-put_named a fits.0 b (put_all put_named named l) at in
      let (b2, es, at2) = named_args-put_all named b1 l fits.1 at1 in (b2, rw (e, es) refl, at2)

-- For an attribute whose constructor takes numbers and strings, with named arguments that are Booleans, numbers of 32
-- bits or strings: where the two cursors stand at the signature and the values as they are written, all arguments are
-- read back, the fixed ones, which have no name, in front of the named ones. Every number fits its type, and every string is UTF-8 of
-- a length that can be compressed.
pub args_from-put_values :
    (m : Mode) (reader : TypeReader) (fuel : ℕ) (sig values : Blob) (fixed : List FixedArg)
    (named : List NamedArg) (sig_rest rest : List ℕ)
    → All Fits fixed
    → All NamedFits named
    → IsCompressible (length fixed)
    → length named < 2 ^ 16
    → At sig (put_signature fixed sig_rest)
    → At values (put_values fixed named rest)
    → args_from m reader (suc fuel) sig values ≡ ok (map fixed_pair fixed ++ map named_pair named)
unfolding args_from
args_from-put_values m reader fuel sig values fixed named sig_rest rest fits named_fits few
      few_named at_sig at =
    let codes = put_all (λ a r. type_code a ∷ r) fixed sig_rest in
    let named_bytes = put_le 2 (length named) (put_all put_named named rest) in
    let (v1, e1, same1, at1) =
      read_le-put_le 1 1 (omega arith) values (put_all put_fixed fixed named_bytes) at in
    let counted = compressed (length fixed) ++ (0x01 ∷ codes) in
    let r1 = read_byte sig 0x20 counted (omega arith) at_sig in
    let s1 = At-advance sig 0x20 counted at_sig in
    let (r2, s2) = read_unsigned-compressed (advance sig 1) (length fixed) (0x01 ∷ codes) few s1 in
    let sig2 = advance (advance sig 1) (length (compressed (length fixed))) in
    let r3 = read_byte sig2 0x01 codes (omega arith) s2 in
    let s3 = At-advance sig2 0x01 codes s2 in
    let (v2, e2, at2) =
      fixed_args-put_all m reader fuel fixed (advance sig2 1) sig_rest v1 named_bytes fits s3 at1 in
    let (v3, e3, same3, at3) =
      read_le-put_le 1 (length named) few_named v2 (put_all put_named named rest) at2 in
    let (v4, e4, at4) = named_args-put_all m reader named v3 rest named_fits at3 in
    rw (e1, passed m Fault.unexpected, r1, r2, r3, e2, e3, e4) refl
