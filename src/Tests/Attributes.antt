-- ===== src/Tests/Attributes.antt =====
-- The arguments of an attribute and the signature of a method, in the file of the structure `A.P`.
use windows_rs.Base.{◌≡◌, ◌≢◌, refl, [], ◌∷◌, List, none, some, ok, true, false, trap, arith}
use windows_rs.Base.Text.{text}
use windows_rs.Base.Utf8.{is_utf8}
use windows_rs.Base.Word.{mul_u32, add_u32}
use windows_rs.Metadata.Table.{TableIndex}
use windows_rs.Metadata.Constants.{ConstantValue}
use windows_rs.Metadata.Types.{ElementType, signature, nil}
use windows_rs.Metadata.Types.FromCode.{from_code}
use windows_rs.Metadata.Rows.Members.{sequence}
use windows_rs.Reader.Values.{args_from}
use windows_rs.Reader.Values.Encoded.{FixedArg, NamedArg, NamedValue}
use windows_rs.Reader.Values.RoundTrip.{args_from-put_values}
use windows_rs.Reader.Methods.{
  MethodSignature, signature_behind, has_query_interface, has_retval, queries, param_is_const,
}
use windows_rs.Reader.Methods.Returns.{has_query_interface-has_retval}
use windows_rs.Reader.Methods.Encoded.{Entry, signature_behind-put_method}
use windows_rs.Tests.Metadata.{no_types, row_at, cursor}

abbrev fixed : List FixedArg
fixed = FixedArg.i32 7 ∷ FixedArg.string (text "Hi") ∷ []

abbrev named : List NamedArg
named = record { is_field = false; name = text "x"; value = NamedValue.bool true } ∷ []

args_from-put_values_example :
    args_from trap no_types 1 (cursor 76) (cursor 81)
    ≡ ok (
        ([], ConstantValue.i32 7)
        ∷ ([], ConstantValue.string (text "Hi"))
        ∷ (text "x", ConstantValue.bool true)
        ∷ [])
unfolding is_utf8
args_from-put_values_example =
    args_from-put_values trap no_types 0 (cursor 76) (cursor 81) fixed named
      (1 ∷ 0 ∷ 7 ∷ 0 ∷ 0 ∷ 0 ∷ 2 ∷ 72 ∷ 105 ∷ 1 ∷ 0 ∷ 84 ∷ 2 ∷ 1 ∷ 120 ∷ 1 ∷ 32 ∷ 1 ∷ 14 ∷ 8 ∷ [])
      (32 ∷ 1 ∷ 14 ∷ 8 ∷ []) (omega arith, ((omega arith, refl), tt))
      (((omega arith, refl), tt), tt) (omega arith) (omega arith) refl refl

abbrev entries : List Entry
entries =
    (row_at 0 TableIndex.param, none)
    ∷ (
      row_at 1 TableIndex.param,
      some (record {
        by_ref = false;
        is_array = false;
        pointers = 0;
        code = 0x08;
        type = ElementType.i32;
      }),
    )
    ∷ []

signature_behind-put_method_example :
    signature_behind trap no_types nil 1
      (row_at 0 TableIndex.param ∷ row_at 1 TableIndex.param ∷ [])
      (cursor 97)
    ≡ ok (record {
      params =
          record {
            param = row_at 1 TableIndex.param;
            signature = signature ElementType.i32 0 false false false;
          }
          ∷ [];
      return_type = some (signature ElementType.string 0 false false false);
    })
unfolding sequence from_code mul_u32 add_u32
signature_behind-put_method_example =
    signature_behind-put_method trap no_types nil 0 0x20 1
      (some (record {
        by_ref = false;
        is_array = false;
        pointers = 0;
        code = 0x0e;
        type = ElementType.string;
      }))
      entries [] (cursor 97) (omega arith) (omega arith) (refl, λ e. absurd (omega arith))
      (refl, ((((refl, λ e. absurd (omega arith)), (1, refl, λ e. absurd (omega arith)))), tt)) refl

-- HRESULT QueryInterface(const GUID*, void**)
abbrev query_interface : MethodSignature
query_interface = record {
  params =
      record {
        param = row_at 0 TableIndex.param;
        signature = signature ElementType.guid 1 false true false;
      }
      ∷ record {
        param = row_at 1 TableIndex.param;
        signature = signature ElementType.void 2 false false false;
      }
      ∷ [];
  return_type = some (signature ElementType.hresult 0 false false false);
}

has_query_interface-has_retval_example : has_retval trap query_interface ≢ ok true
unfolding has_query_interface queries param_is_const
has_query_interface-has_retval_example = has_query_interface-has_retval trap query_interface refl
