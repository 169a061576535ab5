-- ===== src/Runtime/WeakRefCount.antt =====
-- `WeakRefCount` and its `TearOff` (src/runtime/weak_ref_count.rs). The word of the counter is an
-- isize, held as its 64-bit pattern: a count, or a negative number that encodes the address of the
-- tear-off, which then has the counts. Here each method runs with no other thread between its load and
-- its exchange; the child `Spin` has the loop as it runs among others.
pub mod Encoding
pub mod Methods
pub mod References
pub mod Calls
pub mod Traces
pub mod Spin
use Prim.Native.Nat.{bit_or}
use windows_rs.Base.{
  ℕ, ◌+◌, ◌-◌, ◌*◌, ◌/◌, ◌%◌, ◌^◌, Bool, true, false, leb, ◌==◌, not, if◌then◌else◌, Option, none,
  some, Fault, Outcome, ok, panic, ◌>>=◌, ◌>>◌, Mode, trap, wrap, u32_mod, u64_mod,
}
use windows_rs.Base.Word.{add_u32, sub_u32}
use windows_rs.Runtime.RefCount

-- `at` is the address of the allocation.
pub record TearOff : Type 0 where
  pub at : ℕ
  pub strong_count : ℕ
  pub weak_count : ℕ

-- The word, and the tear-off while it is allocated.
pub record Shared : Type 0 where
  pub word : ℕ
  pub tear_off : Option TearOff

abbrev pub isize_limit : ℕ
isize_limit = 2 ^ 63

-- `value < 0`
abbrev pub is_weak_ref : ℕ → Bool
is_weak_ref value = leb isize_limit value

-- `(address >> 1) | (1 << 63)`, and `value << 1`
unfoldable pub encode : ℕ → ℕ
encode address = bit_or (isize_limit) (address / 2)

abbrev pub decode : ℕ → ℕ
decode value = value * 2 % u64_mod

-- The tear-off at an address; any other access is one to freed memory.
unfoldable pub tear_off_at : Shared → ℕ → Outcome TearOff
tear_off_at s address = elim s.tear_off [
  | none ↦ panic Fault.undefined
  | some t ↦ if t.at == address then ok t else panic Fault.undefined
]

abbrev put : Shared → TearOff → Shared
put s t = record s { tear_off = some t }

-- `WeakRefCount::new`
abbrev pub new : Shared
new = record { word = 1; tear_off = none }

-- `c + 1` and `c - 1` on isize
unfoldable pub inc_isize : Mode → ℕ → Outcome ℕ
inc_isize trap c = if c == isize_limit - 1 then panic Fault.overflow else ok ((c + 1) % u64_mod)
inc_isize wrap c = ok ((c + 1) % u64_mod)

unfoldable pub dec_isize : Mode → ℕ → Outcome ℕ
dec_isize trap c =
    if c == isize_limit then panic Fault.overflow else ok ((c + u64_mod - 1) % u64_mod)
dec_isize wrap c = ok ((c + u64_mod - 1) % u64_mod)

unfoldable pub add_ref : Mode → Shared → Outcome (ℕ × Shared)
add_ref m s =
    let torn = do
      t ← tear_off_at s (decode s.word)
      (value, strong) ← RefCount.add_ref m t.strong_count
      ok (value, put s (record t { strong_count = strong }))
    in let plain = do
      next ← inc_isize m s.word
      value ← add_u32 m (s.word % u32_mod) 1
      ok (value, record s { word = next })
      in if is_weak_ref s.word then torn else plain

-- `WeakRelease` frees the tear-off with its last weak reference.
unfoldable pub weak_release : Mode → Shared → ℕ → Outcome (ℕ × Shared)
weak_release m s address = do
  t ← tear_off_at s address
  (remaining, weak) ← RefCount.release m t.weak_count
  ok (
    remaining,
    if remaining == 0 then record s { tear_off = none } else put s (record t { weak_count = weak }),
  )

-- The last strong reference lets go of the weak reference that all strong ones share.
unfoldable pub release : Mode → Shared → Outcome (ℕ × Shared)
release m s =
    let torn = do
      t ← tear_off_at s (decode s.word)
      (remaining, strong) ← RefCount.release m t.strong_count
      let s' = put s (record t { strong_count = strong })
      if remaining == 0
          then (do (_, s'') ← weak_release m s' t.at; ok (remaining, s''))
          else ok (remaining, s')
    in let plain = do
      next ← dec_isize m s.word
      value ← sub_u32 m (s.word % u32_mod) 1
      ok (value, record s { word = next })
      in if is_weak_ref s.word then torn else plain

-- `query`: `is_source` is the test of the interface id, `fresh` the address that the allocator gives.
-- Returns the tear-off's address, with a strong reference to it.
unfoldable pub query : Mode → Shared → Bool → ℕ → Outcome (Option ℕ × Shared)
query m s is_source fresh =
    let from_encoding = do
      t ← tear_off_at s (decode s.word)
      (_, strong) ← RefCount.add_ref m t.strong_count
      ok (some t.at, put s (record t { strong_count = strong }))
    in let tear = do
      (_, strong) ← RefCount.add_ref m (RefCount.new (s.word % u32_mod))
      ok (
        some fresh,
        record {
          word = encode fresh;
          tear_off =
              some (record { at = fresh; strong_count = strong; weak_count = RefCount.new 1 });
        },
      )
      in if not is_source then ok (none, s) else if is_weak_ref s.word then from_encoding else tear

-- `StrongDowngrade`, and `WeakAddRef`: one more weak reference.
unfoldable pub downgrade : Mode → Shared → ℕ → Outcome Shared
downgrade m s address = do
  t ← tear_off_at s address
  (_, weak) ← RefCount.add_ref m t.weak_count
  ok (put s (record t { weak_count = weak }))

-- `WeakUpgrade`. `supports` says whether the object's `QueryInterface` knows the interface: it is code of
-- the object, and when it answers it takes a strong reference by `add_ref`.
unfoldable pub upgrade : Mode → Shared → ℕ → Bool → Outcome (Bool × Shared)
upgrade m s address supports = do
  t ← tear_off_at s address
  let attempt = do
    stable ← RefCount.inc_i32 m t.strong_count
    let held = put s (record t { strong_count = stable })
    (found, after) ←
        if supports then (do (_, s') ← add_ref m held; ok (true, s')) else ok (false, held)
    t' ← tear_off_at after address
    ok (found, put after (record t' { strong_count = (t'.strong_count + u32_mod - 1) % u32_mod }))
  if t.strong_count == 0 then ok (false, s) else attempt
