-- ===== src/Runtime/HResult.antt =====
-- `HRESULT` and `Error` (src/result/hresult.rs and src/result/error.rs): a u32 whose top bit says failure,
-- and a code with the details that the system keeps for it. What the system answers is a record.
pub mod Laws
use Prim.Native.Nat.{bit_and, bit_or}
use windows_rs.Base.{
  ℕ, ◌*◌, ◌/◌, ◌^◌, Bool, not, leb, ◌==◌, ◌||◌, if◌then◌else◌, Option, none, some, Fault, Outcome,
  assert, [],
}
use windows_rs.Base.Text.{Text}

-- `Result<T>`
pub data Answer {ℓ κ} (E : Type ℓ) (T : Type κ) : Type (ℓ ⊔ κ) where
  good : T → Answer E T
  err : E → Answer E T

unfoldable pub is_ok : ℕ → Bool
is_ok code = bit_and code 0x8000_0000 == 0

unfoldable pub is_err : ℕ → Bool
is_err code = not (is_ok code)

unfoldable pub unwrap : ℕ → Outcome (Unit {0})
unwrap code = assert (is_ok code) Fault.unexpected

-- `error as i32 <= 0`
abbrev not_positive : ℕ → Bool
not_positive error = (error == 0) || leb (2 ^ 31) error

unfoldable pub from_win32 : ℕ → ℕ
from_win32 error =
    if not_positive error
    then error
    else bit_or (bit_or (bit_and error 0xffff) (7 * 2 ^ 16)) 0x8000_0000

-- `E_POINTER`
abbrev e_pointer : ℕ
e_pointer = 0x8000_4003

-- `Info` is `IRestrictedErrorInfo`.
pub record Error {ℓ} (Info : Type ℓ) : Type ℓ where
  pub code : ℕ
  pub info : Option Info

-- `win32_code`
unfoldable pub win32_code : ℕ → Option ℕ
win32_code hresult =
    if bit_and (hresult / 2 ^ 16) 0x7ff == 7 then some (bit_and hresult 0xffff) else none

-- `Error::fast_error`
unfoldable pub fast_error {ℓ} : {Info : Type ℓ} → ℕ → Error Info
fast_error code = record { code = code; info = none }

-- `From<Error> for HRESULT`; that the details are left with the thread is not modelled.
unfoldable pub code_of {ℓ} : {Info : Type ℓ} → Error Info → ℕ
code_of error = error.code

-- `From<Result<T>> for HRESULT`
unfoldable pub from_result {ℓ κ} : {Info : Type ℓ} {T : Type κ} → Answer (Error Info) T → ℕ
unfolding code_of
from_result (good _) = 0
from_result (err error) = code_of error

-- What the thread has of an error: the information that `GetErrorInfo` returns and that can be cast, if there is some; else the
-- description of what it returns, if that is anything; and the information that it returns after `RoOriginateError`.
pub record Thread {ℓ} (Info : Type ℓ) : Type ℓ where
  pub restricted : Option Info
  pub description : Option Text
  pub originated : ℕ → Text → Option Info

module _ {ℓ} {Info : Type ℓ} (thread : Thread Info) where
  -- `Error::new`
  unfoldable pub new : ℕ → Text → Error Info
  new code message = record { code = code; info = thread.originated code message }

  -- `From<HRESULT> for Error`; the breadcrumb that it adds to the information is not modelled.
  unfoldable pub from_code : ℕ → Error Info
  unfolding new
  from_code code = elim thread.restricted [
    | some info ↦ record { code = code; info = some info }
    | none ↦ elim thread.description [ some message ↦ new code message | none ↦ new code [] ]
  ]

  -- `HRESULT::ok`
  unfoldable pub to_result : ℕ → Answer (Error Info) (Unit {0})
  to_result code = if is_ok code then good tt else err (from_code code)

  unfoldable pub and_some {κ} : {T : Type κ} → ℕ → Option T → Answer (Error Info) T
  and_some code none = if is_ok code then err (fast_error e_pointer) else err (from_code code)
  and_some code (some result) = if is_ok code then good result else err (from_code code)

  unfoldable pub and_then {κ} : {T : Type κ} → ℕ → (Unit {0} → T) → Answer (Error Info) T
  and_then code op = elim (to_result code) [ good _ ↦ good (op tt) | err e ↦ err e ]

  -- `T::from_abi`, the conversion of the type, may fail too.
  unfoldable pub from_abi {κ μ} :
      {A : Type μ} {T : Type κ} → (A → Answer (Error Info) T) → ℕ → A → Answer (Error Info) T
  from_abi convert code abi = if is_ok code then convert abi else err (from_code code)
