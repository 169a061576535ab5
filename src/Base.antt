-- ===== src/Base.antt =====
-- The names that the other modules share: the libraries', passed on, and those of the children.
pub mod Tests
pub mod Lists
pub mod Faults
pub mod Word
pub mod Power
pub mod Bits
pub mod Bytes
pub mod Text
pub mod Utf8
pub mod OrderedMap
pub mod Traverse
pub mod Each
pub use Tests.{ltb, leb, ◌==◌, if◌then◌else◌, Bool-cases, by_order}
pub use Lists.{
  length, get_elem?, drop, take, set, All, length-append, length-drop, drop-append, take-append,
  get_elem?-drop, drop-next, drop-drop, drop_add, length-of_drop,
}
pub use Faults.{Fault, Outcome, ok, panic, ◌>>=◌, ◌>>◌, assert}
pub use Word.{Mode, trap, wrap, u32_mod, u64_mod, IsU32, IsByte}
pub use Prim.Native.Nat.{ℕ, zero, suc, ◌+◌, ◌-◌, ◌*◌, ◌/◌, ◌%◌, ◌^◌, ◌≤◌, ◌<◌}
pub use mathlib.Core.Path.{◌≡◌, refl, sym, ap, subst, ◌∙◌}
pub use mathlib.Core.Logic.{◌≢◌, ◌↔◌, ◌⊎◌, inl, inr}
pub use mathlib.Core.Bool.{Bool, true, false, ◌&&◌, ◌||◌, not}
pub use mathlib.Core.Option.{Option, none, some}
pub use mathlib.Core.List.{List, [], ◌∷◌, ◌++◌, map}
pub use native.Mathlib.Omega.{arith}
