-- ===== src/Tests/Values.antt =====
-- Guids and result codes.
use windows_rs.Base.{
  ℕ, ◌%◌, ◌^◌, ◌<◌, ◌≤◌, ◌≡◌, ◌⊎◌, List, [], ◌∷◌, true, false, ok, none, some, arith, ◌++◌,
}
use windows_rs.Base.Text.{text}
use windows_rs.Runtime.Guid.{Guid, Array, from_str, fmt, from_signature, namespace}
use windows_rs.Runtime.Guid.Text.{IsGuid, from_str-fmt}
use windows_rs.Runtime.Guid.Signed.{IsNameBased, from_signature-IsNameBased}
use windows_rs.Runtime.HResult.{Thread, is_ok, from_win32, win32_code, from_result, to_result}
use windows_rs.Runtime.HResult.Laws.{from_win32-win32_code, from_result-to_result}

abbrev unknown : Guid
unknown = record {
  data1 = 0xdead_beef;
  data2 = 12;
  data3 = 65535;
  data4 = (0xc0, 0, 0, 0, 0, 0, 0, 0x46);
}

from_str-fmt_example : from_str (fmt unknown) ≡ ok unknown
from_str-fmt_example = from_str-fmt unknown (
  omega arith,
  omega arith,
  omega arith,
  (
    omega arith,
    omega arith,
    omega arith,
    omega arith,
    omega arith,
    omega arith,
    omega arith,
    omega arith,
  ),
)

-- Not a hash, but it returns bytes.
abbrev constant : List ℕ → Array
constant input i = 255

from_signature-IsNameBased_example :
    IsGuid (from_signature constant (103 ∷ 49 ∷ 54 ∷ []))
    × IsNameBased
        (constant (namespace ++ (103 ∷ 49 ∷ 54 ∷ [])))
        (from_signature constant (103 ∷ 49 ∷ 54 ∷ []))
from_signature-IsNameBased_example =
    from_signature-IsNameBased constant (103 ∷ 49 ∷ 54 ∷ []) (λ input i. omega arith)

abbrev no_more_files : ℕ
no_more_files = 18

from_win32-win32_code_example :
    ((no_more_files ≡ 0)
      × (from_win32 no_more_files ≡ 0)
      × (is_ok (from_win32 no_more_files) ≡ true))
    ⊎ ((2 ^ 31 ≤ no_more_files)
        × (from_win32 no_more_files ≡ no_more_files)
        × (is_ok (from_win32 no_more_files) ≡ false))
    ⊎ ((1 ≤ no_more_files)
        × (no_more_files < 2 ^ 31)
        × (is_ok (from_win32 no_more_files) ≡ false)
        × (win32_code (from_win32 no_more_files) ≡ some (no_more_files % 2 ^ 16)))
from_win32-win32_code_example = from_win32-win32_code no_more_files (omega arith)

-- A thread that has a description of an error alone.
abbrev described : Thread ℕ
described = record {
  restricted = none;
  description = some (text "No such interface");
  originated = λ code message. some code;
}

from_result-to_result_example :
    ((0x8000_4002 < 2 ^ 31) × (from_result (to_result described 0x8000_4002) ≡ 0))
    ⊎ ((2 ^ 31 ≤ 0x8000_4002) × (from_result (to_result described 0x8000_4002) ≡ 0x8000_4002))
from_result-to_result_example = from_result-to_result described 0x8000_4002 (omega arith)
