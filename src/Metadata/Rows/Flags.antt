-- ===== src/Metadata/Rows/Flags.antt =====
-- The flag words of rows: type_flags.rs, method_flags.rs, field_flags.rs and param_flags.rs of
-- crates/gen/src/parser. Each record around a word is the word.
use Prim.Native.Nat.{bit_and}
use windows_rs.Base.{ℕ, Bool, ◌==◌, not}

-- `self.0 & mask != 0`
abbrev has : ℕ → ℕ → Bool
has mask flags = not (bit_and flags mask == 0)

unfoldable pub windows_runtime : ℕ → Bool
windows_runtime flags = has 0x4000 flags

unfoldable pub interface : ℕ → Bool
interface flags = has 0x20 flags

unfoldable pub explicit : ℕ → Bool
explicit flags = has 0x10 flags

unfoldable pub special : ℕ → Bool
special flags = has 0x800 flags

unfoldable pub literal : ℕ → Bool
literal flags = has 0x40 flags

unfoldable pub is_static : ℕ → Bool
is_static flags = has 0x10 flags

unfoldable pub input : ℕ → Bool
input flags = has 0x1 flags

unfoldable pub output : ℕ → Bool
output flags = has 0x2 flags

unfoldable pub optional : ℕ → Bool
optional flags = has 0x10 flags
