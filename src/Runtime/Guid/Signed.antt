-- ===== src/Runtime/Guid/Signed.antt =====
-- The guids of generic types are name-based ones: version 5, variant 2.
use Prim.Native.Nat.{bit_and, bit_or}
use windows_rs.Base.{ℕ, ◌+◌, ◌*◌, ◌%◌, ◌^◌, ◌≡◌, refl, List, ◌++◌, IsByte, arith}
use windows_rs.Base.Bits.{bit_or-masked}
use windows_rs.Runtime.Guid.{Guid, Array, from_digest, from_signature, namespace}
use windows_rs.Runtime.Guid.Text.{IsGuid}

-- The digest's bits at every place but the version, 5, and the variant, 2.
abbrev pub IsNameBased : Array → Guid → Type 0
IsNameBased digest g =
    (g.data1 ≡ ((digest 0 * 256 + digest 1) * 256 + digest 2) * 256 + digest 3)
    × (g.data2 ≡ digest 4 * 256 + digest 5)
    × (g.data3 ≡ 5 * 4096 + digest 6 % 16 * 256 + digest 7)
    × (g.data4 ≡ (
      2 * 64 + digest 8 % 64,
      digest 9,
      digest 10,
      digest 11,
      digest 12,
      digest 13,
      digest 14,
      digest 15,
    ))

third :
    (a b : ℕ)
    → IsByte b
    → bit_or (bit_and (a * 2 ^ 8 + b) 0xfff) (5 * 2 ^ 12) ≡ 5 * 4096 + a % 16 * 256 + b
third a b h = rw (bit_or-masked 12 5 (a * 2 ^ 8 + b)) (omega arith)

fourth : (a : ℕ) → bit_or (bit_and a 0x3f) 0x80 ≡ 2 * 64 + a % 64
fourth a = bit_or-masked 6 2 a

from_digest-IsNameBased :
    (d : Array) → ((i : ℕ) → IsByte (d i)) → IsGuid (from_digest d) × IsNameBased d (from_digest d)
unfolding from_digest
from_digest-IsNameBased d b =
    rw (third (d 6) (d 7) (b 7), fourth (d 8))
      (
        (
          omega (arith, b 0, b 1, b 2, b 3),
          omega (arith, b 4, b 5),
          omega (arith, b 7),
          (omega arith, b 9, b 10, b 11, b 12, b 13, b 14, b 15),
        ),
        (omega arith, refl, refl, refl),
      )

-- For a hash function that returns bytes, the guid made of a signature fits the widths of its fields and is the
-- name-based one of the digest of the fixed namespace followed by the signature.
pub from_signature-IsNameBased :
    (sha1 : List ℕ → Array) (signature : List ℕ)
    → ((input : List ℕ) (i : ℕ) → IsByte (sha1 input i))
    → IsGuid (from_signature sha1 signature)
      × IsNameBased (sha1 (namespace ++ signature)) (from_signature sha1 signature)
unfolding from_signature
from_signature-IsNameBased sha1 signature h =
    from_digest-IsNameBased (sha1 (namespace ++ signature)) (h (namespace ++ signature))
