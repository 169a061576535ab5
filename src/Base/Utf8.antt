-- ===== src/Base/Utf8.antt =====
-- UTF-8 as `std::str::from_utf8` checks it.
use Prim.Native.Nat.{ℕ}
use mathlib.Core.Bool.{Bool, true, false, ◌&&◌}
use mathlib.Core.List.{List, [], ◌∷◌}
use mathlib.Core.Option.{Option, none, some}
use windows_rs.Base.Tests.{leb, ltb, ◌==◌, if◌then◌else◌}

-- The lowest and the highest value of a byte.
abbrev pub Range : Type 0
Range = ℕ × ℕ

abbrev pub in_range : ℕ → Range → Bool
in_range byte (low, high) = leb low byte && leb byte high

abbrev pub any_tail : Range
any_tail = (0x80, 0xbf)

-- The bytes that must follow a first byte, without surrogates and overlong forms.
unfoldable pub tails : ℕ → Option (List Range)
tails byte =
    if ltb byte 0x80
    then some []
    else if in_range byte (0xc2, 0xdf)
    then some (any_tail ∷ [])
    else if byte == 0xe0
    then some ((0xa0, 0xbf) ∷ any_tail ∷ [])
    else if byte == 0xed
    then some ((0x80, 0x9f) ∷ any_tail ∷ [])
    else if in_range byte (0xe1, 0xef)
    then some (any_tail ∷ any_tail ∷ [])
    else if byte == 0xf0
    then some ((0x90, 0xbf) ∷ any_tail ∷ any_tail ∷ [])
    else if in_range byte (0xf1, 0xf3)
    then some (any_tail ∷ any_tail ∷ any_tail ∷ [])
    else if byte == 0xf4
    then some ((0x80, 0x8f) ∷ any_tail ∷ any_tail ∷ [])
    else none

-- Whether bytes are well formed where the ranges are still to be met.
unfoldable pub continues : List Range → List ℕ → Bool
unfolding tails
continues [] [] = true
continues (r ∷ pending) [] = false
continues (r ∷ pending) (byte ∷ rest) = in_range byte r && continues pending rest
continues [] (byte ∷ rest) = elim (tails byte) [
  | none ↦ false
  | some pending ↦ continues pending rest
]

unfoldable pub is_utf8 : List ℕ → Bool
unfolding continues
is_utf8 = continues []
