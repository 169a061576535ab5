-- ===== src/Reader/Methods.antt =====
-- The signatures of methods: `MethodDef::signature` (crates/gen/src/tables/method_def.rs), `MethodSignature` and `MethodParam`
-- (parser/method_signature.rs), as far as they classify methods.
pub mod Encoded
pub mod Returns
use windows_rs.Base.{
  ℕ, zero, suc, ◌-◌, List, [], ◌∷◌, ◌++◌, Bool, true, false, ◌==◌, leb, not, ◌&&◌, ◌||◌,
  if◌then◌else◌, Option, none, some, Fault, Outcome, ok, panic, ◌>>=◌, Mode, length, take,
}
use windows_rs.Metadata.File.{Row, Blob, blob}
use windows_rs.Metadata.Blob.{read_unsigned}
use windows_rs.Metadata.Types.{ElementType, Signature, signature, TypeDef, ElementTypes, nil}
use windows_rs.Metadata.Rows.Flags
use windows_rs.Metadata.Rows.Attributes.{is_const}
use windows_rs.Metadata.Rows.Members.{params, sequence, param_flags, is_input}
use windows_rs.Metadata.Rows.TypeDefs.{TypeKind, kind}
use windows_rs.Reader.Loading.{TypeReader}
use windows_rs.Reader.Signatures.{signature_from_blob}
use windows_rs.Reader.Shapes.{expect, convertible_element, udt_signature}

pub record MethodParam : Type 0 where
  pub param : Row
  pub signature : Signature

pub record MethodSignature : Type 0 where
  pub params : List MethodParam
  pub return_type : Option Signature

-- The fields of a signature.
abbrev pub kind_of : Signature → ElementType
kind_of (signature kind pointers by_ref is_const is_array) = kind

abbrev pub pointers_of : Signature → ℕ
pointers_of (signature kind pointers by_ref is_const is_array) = pointers

abbrev pub is_const_of : Signature → Bool
is_const_of (signature kind pointers by_ref is_const is_array) = is_const

abbrev pub is_array_of : Signature → Bool
is_array_of (signature kind pointers by_ref is_const is_array) = is_array

-- `== ElementType::HRESULT` and its kin
abbrev pub is_hresult : ElementType → Bool
is_hresult ElementType.hresult = true
is_hresult _ = false

abbrev pub is_guid : ElementType → Bool
is_guid ElementType.guid = true
is_guid _ = false

abbrev pub is_void : ElementType → Bool
is_void ElementType.void = true
is_void _ = false

-- The last entry, and the entries in front of it.
abbrev pub last {ℓ} : {A : Type ℓ} → List A → Option A
last [] = none
last (a ∷ []) = some a
last (a ∷ b ∷ rest) = last (b ∷ rest)

abbrev pub all_but_last {ℓ} : {A : Type ℓ} → List A → List A
all_but_last xs = take (length xs - 1) xs

-- The second to last entry and the last one.
abbrev pub last_two {ℓ} : {A : Type ℓ} → List A → Option (A × A)
last_two [] = none
last_two (a ∷ []) = none
last_two (a ∷ b ∷ []) = some (a, b)
last_two (a ∷ b ∷ c ∷ rest) = last_two (b ∷ c ∷ rest)

module _ (m : Mode) (reader : TypeReader) where
  -- The row that stands for the return value has the sequence number 0, and no signature of its own.
  unfoldable pub read_params :
      ElementTypes → ℕ → List Row → Blob → Outcome (List MethodParam × Blob)
  unfolding sequence signature_from_blob
  read_params generics fuel [] b = ok ([], b)
  read_params generics fuel (r ∷ rest) b = do
    number ← sequence m r
    let skipped = read_params generics fuel rest b
    let taken = do
      (found, b1) ← signature_from_blob m reader generics fuel b
      s ← expect found
      (more, b2) ← read_params generics fuel rest b1
      ok (record { param = r; signature = s } ∷ more, b2)
    if number == 0 then skipped else taken

  -- The marks of the calling convention and the count of the parameters are passed over.
  unfoldable pub signature_behind : ElementTypes → ℕ → List Row → Blob → Outcome MethodSignature
  unfolding read_unsigned signature_from_blob read_params
  signature_behind generics fuel rows b = do
    (convention, b1) ← read_unsigned b
    (count, b2) ← read_unsigned b1
    (return_type, b3) ← signature_from_blob m reader generics fuel b2
    (found, b4) ← read_params generics fuel rows b3
    ok (record { params = found; return_type = return_type })

  unfoldable pub method_signature : ElementTypes → ℕ → Row → Outcome MethodSignature
  unfolding params blob signature_behind
  method_signature generics fuel r = do
    rows ← params m r
    b ← blob m r.file r.row r.table 4
    signature_behind generics fuel rows b

-- `MethodParam::is_const` and `is_convertible`
unfoldable pub param_is_const : Mode → MethodParam → Outcome Bool
unfolding is_const
param_is_const m p = if is_const_of p.signature then ok true else is_const m p.param

unfoldable pub param_is_convertible : Mode → MethodParam → Outcome Bool
unfolding is_input convertible_element
param_is_convertible m p = do
  input ← is_input m p.param
  if input && not (is_array_of p.signature) && (pointers_of p.signature == 0)
      then convertible_element m (kind_of p.signature)
      else ok false

-- Whether the last two parameters are the constant guid of an interface and the place for the object.
unfoldable pub queries : Mode → MethodParam → MethodParam → Outcome Bool
unfolding param_is_const
queries m guid object =
    let place = is_void (kind_of object.signature) && (pointers_of object.signature == 2) in
    let checked = (do constant ← param_is_const m guid; ok (constant && place)) in
    if is_guid (kind_of guid.signature) then checked else ok false

abbrev pub last_queries : Mode → Option (MethodParam × MethodParam) → Outcome Bool
last_queries m none = ok false
last_queries m (some (guid, object)) = queries m guid object

-- Whether the function returns an HRESULT, and its parameters are such.
abbrev pub returns_hresult : Option Signature → Outcome Bool → Outcome Bool
returns_hresult none by_params = ok false
returns_hresult (some r) by_params = if is_hresult (kind_of r) then by_params else ok false

unfoldable pub has_query_interface : Mode → MethodSignature → Outcome Bool
unfolding queries
has_query_interface m s = returns_hresult s.return_type (last_queries m (last_two s.params))

-- Whether what a pointer leads to can be the result of a method.
unfoldable pub is_result_kind : Mode → ElementType → Outcome Bool
unfolding kind
is_result_kind m ElementType.void = ok false
is_result_kind m (ElementType.type_def d) = do
  k ← kind m d
  ok (elim k [ TypeKind.delegate ↦ false | _ ↦ true ])
is_result_kind m _ = ok true

unfoldable pub is_retval : Mode → MethodParam → Outcome Bool
unfolding param_flags Flags.input Flags.output is_result_kind
is_retval m p = do
  word ← param_flags m p.param
  if Flags.input word || not (Flags.output word) || not (pointers_of p.signature == 1)
      then ok false
      else is_result_kind m (kind_of p.signature)

-- Whether a parameter only goes in.
unfoldable pub only_input : Mode → MethodParam → Outcome Bool
unfolding param_flags Flags.input Flags.output
only_input m p = do word ← param_flags m p.param; ok (Flags.input word && not (Flags.output word))

unfoldable pub all_params : (MethodParam → Outcome Bool) → List MethodParam → Outcome Bool
all_params test [] = ok true
all_params test (p ∷ rest) = do
  found ← test p
  let later = all_params test rest
  if found then later else ok false

unfoldable pub last_returns : Mode → List MethodParam → Option MethodParam → Outcome Bool
unfolding is_retval only_input all_params
last_returns m front none = ok false
last_returns m front (some p) = do
  result ← is_retval m p
  let others = all_params (only_input m) front
  if result then others else ok false

unfoldable pub has_retval : Mode → MethodSignature → Outcome Bool
unfolding last_returns
has_retval m s =
    returns_hresult s.return_type (last_returns m (all_but_last s.params) (last s.params))

unfoldable pub has_udt_return : Mode → MethodSignature → Outcome Bool
unfolding udt_signature
has_udt_return m s = elim s.return_type [ none ↦ ok false | some r ↦ udt_signature m r ]
