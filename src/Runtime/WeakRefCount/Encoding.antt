-- ===== src/Runtime/WeakRefCount/Encoding.antt =====
-- A tear-off's address in the word of the counter.
use windows_rs.Base.{ℕ, ◌+◌, ◌/◌, ◌%◌, ◌<◌, ◌≡◌, true, u64_mod, arith}
use windows_rs.Base.Bits.{bit_or-shifted}
use windows_rs.Base.Tests.{le→leb}
use windows_rs.Runtime.WeakRefCount.{encode, decode, is_weak_ref, isize_limit}

-- An aligned pointer.
abbrev pub IsAddress : ℕ → Type 0
IsAddress p = (p < u64_mod) × (p % 2 ≡ 0)

pub encode-eq-add : (p : ℕ) → IsAddress p → encode p ≡ isize_limit + p / 2
unfolding encode
encode-eq-add p (h, even) = bit_or-shifted 63 1 (p / 2) (omega arith)

-- An encoded address is told from a count, and is decoded to itself.
pub decode-encode_address :
    (p : ℕ) → IsAddress p → (is_weak_ref (encode p) ≡ true) × (decode (encode p) ≡ p)
decode-encode_address p (h, even) =
    let e = encode-eq-add p (h, even) in
    (rw e (le→leb isize_limit (isize_limit + p / 2) (omega arith)), rw e (omega arith))
