-- ===== src/Metadata/Constants.antt =====
-- `ConstantValue` of crates/gen/src/parser/constant_value.rs. Signed and floating numbers are held as their bit patterns, and
-- a string as the list of its bytes, or of its units where it was read as UTF-16.
use windows_rs.Base.{
  ℕ, ◌+◌, ◌-◌, ◌%◌, ◌^◌, Bool, List, ◌==◌, if◌then◌else◌, Fault, Outcome, ok, panic, ◌>>=◌, Mode,
  trap, wrap, u32_mod,
}
use windows_rs.Base.Word.{add_u32}
use windows_rs.Metadata.Types.{TypeDef}

pub data ConstantValue : Type 0 where
  bool : Bool → ConstantValue
  u8 i8 u16 i16 u32 i32 u64 i64 f32 f64 : ℕ → ConstantValue
  string : List ℕ → ConstantValue
  type_def : TypeDef → ConstantValue

unfoldable pub unwrap_u32 : ConstantValue → Outcome ℕ
unwrap_u32 (ConstantValue.u32 value) = ok value
unwrap_u32 _ = panic Fault.unexpected

unfoldable pub unwrap_u16 : ConstantValue → Outcome ℕ
unwrap_u16 (ConstantValue.u16 value) = ok value
unwrap_u16 _ = panic Fault.unexpected

unfoldable pub unwrap_u8 : ConstantValue → Outcome ℕ
unwrap_u8 (ConstantValue.u8 value) = ok value
unwrap_u8 _ = panic Fault.unexpected

unfoldable pub unwrap_string : ConstantValue → Outcome (List ℕ)
unwrap_string (ConstantValue.string value) = ok value
unwrap_string _ = panic Fault.unexpected

-- `value + 1` on an i32
unfoldable pub inc_i32 : Mode → ℕ → Outcome ℕ
inc_i32 trap value =
    if value == 2 ^ 31 - 1 then panic Fault.overflow else ok ((value + 1) % u32_mod)
inc_i32 wrap value = ok ((value + 1) % u32_mod)

unfoldable pub next : Mode → ConstantValue → Outcome ConstantValue
unfolding inc_i32 add_u32
next m (ConstantValue.u32 value) = do v ← add_u32 m value 1; ok (ConstantValue.u32 v)
next m (ConstantValue.i32 value) = do v ← inc_i32 m value; ok (ConstantValue.i32 v)
next m _ = panic Fault.unexpected
