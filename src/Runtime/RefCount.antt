-- ===== src/Runtime/RefCount.antt =====
-- `RefCount` of src/runtime/ref_count.rs. The counter is an i32, held as its bit pattern. An atomic
-- operation is one step; memory orderings and the fence are not modelled.
use windows_rs.Base.{
  ℕ, ◌+◌, ◌-◌, ◌%◌, ◌^◌, ◌<◌, ◌≤◌, ◌≡◌, leb, ◌==◌, if◌then◌else◌, Fault, Outcome, ok, panic, ◌>>=◌,
  Mode, trap, wrap, u32_mod, arith,
}

abbrev pub i32_limit : ℕ
i32_limit = 2 ^ 31

-- `x + 1` and `x - 1` on i32, at the largest and at the least value an overflow.
unfoldable pub inc_i32 : Mode → ℕ → Outcome ℕ
inc_i32 trap x = if x == i32_limit - 1 then panic Fault.overflow else ok ((x + 1) % u32_mod)
inc_i32 wrap x = ok ((x + 1) % u32_mod)

unfoldable pub dec_i32 : Mode → ℕ → Outcome ℕ
dec_i32 trap x = if x == i32_limit then panic Fault.overflow else ok ((x + u32_mod - 1) % u32_mod)
dec_i32 wrap x = ok ((x + u32_mod - 1) % u32_mod)

-- `RefCount::new(count)`
abbrev pub new : ℕ → ℕ
new count = count % u32_mod

-- `fetch_add` itself wraps, and the sum that is returned is taken again. Returns it and the counter.
unfoldable pub add_ref : Mode → ℕ → Outcome (ℕ × ℕ)
unfolding inc_i32
add_ref m count = do value ← inc_i32 m count; ok (value, (count + 1) % u32_mod)

unfoldable pub release : Mode → ℕ → Outcome (ℕ × ℕ)
unfolding dec_i32
release m count = do
  remaining ← dec_i32 m count
  if leb i32_limit remaining
      then panic Fault.over_released
      else ok (remaining, (count + u32_mod - 1) % u32_mod)

pub add_ref_ok : (m : Mode) (n : ℕ) → n + 1 < i32_limit → add_ref m n ≡ ok (n + 1, n + 1)
unfolding add_ref
add_ref_ok trap n h = ground arith
add_ref_ok wrap n h = ground arith

pub release_ok : (m : Mode) (n : ℕ) → n < i32_limit → 1 ≤ n → release m n ≡ ok (n - 1, n - 1)
unfolding release
release_ok trap n h k = ground arith
release_ok wrap n h k = ground arith

-- In every build a reference that is not held cannot be released.
pub release_zero : (m : Mode) → release m 0 ≡ panic Fault.over_released
unfolding release
release_zero trap = ground arith
release_zero wrap = ground arith
