-- ===== src/Runtime/WeakRefCount/References.antt =====
-- What the counters stand for: the strong and the weak references that clients hold.
use windows_rs.Base.{
  ℕ, zero, suc, ◌+◌, ◌<◌, ◌≡◌, Bool, true, false, if◌then◌else◌, Option, none, some, Outcome, ok,
  ◌>>=◌, Mode,
}
use windows_rs.Runtime.RefCount.{i32_limit}
use windows_rs.Runtime.WeakRefCount.{
  Shared, decode, add_ref, release, weak_release, query, downgrade, upgrade,
}
use windows_rs.Runtime.WeakRefCount.Encoding.{IsAddress}
use windows_rs.Runtime.WeakRefCount.Methods.{torn_state, count_state, after_weak}

-- All strong references share one weak reference.
abbrev pub shared_weak : ℕ → ℕ
shared_weak zero = 0
shared_weak (suc n) = 1

-- `n` strong and `w` weak references are held; the flag says whether there has been a tear-off.
pub data Represents : Shared → Bool → ℕ → ℕ → Type 0 where
  counting : (n : ℕ) → Represents (count_state n) false n 0
  torn :
      (p n w k : ℕ)
      → IsAddress p
      → w + shared_weak n ≡ suc k
      → Represents (torn_state p n (suc k)) true n w
  freed : (p : ℕ) → IsAddress p → Represents (after_weak p 0 0) true 0 0

-- What a client may do with the references that it holds. A query asks for the weak reference source
-- and comes with the address that the allocator would give.
pub data Op : Type 0 where
  take_strong drop_strong take_weak drop_weak : Op
  ask_source : ℕ → Op
  ask_upgrade : Bool → Op

-- The references held afterwards; `none` where the client does not hold what the method wants.
abbrev pub held : Op → Bool → ℕ → ℕ → Option (Bool × ℕ × ℕ)
held take_strong b (suc n) w = some (b, suc (suc n), w)
held drop_strong b (suc n) w = some (b, n, w)
held (ask_source p) b (suc n) w = some (true, suc (suc n), w)
held take_weak true (suc n) w = some (true, suc n, suc w)
held take_weak true zero (suc w) = some (true, zero, suc (suc w))
held drop_weak true n (suc w) = some (true, n, w)
held (ask_upgrade supported) true zero (suc w) = some (true, zero, suc w)
held (ask_upgrade supported) true (suc n) (suc w) =
    some (true, (if supported then suc (suc n) else suc n), suc w)
held _ _ _ _ = none

-- The method that the client calls. The weak methods stand at the tear-off's address.
unfoldable pub run : Mode → Op → Shared → Outcome Shared
run m take_strong s = do (_, s') ← add_ref m s; ok s'
run m drop_strong s = do (_, s') ← release m s; ok s'
run m (ask_source p) s = do (_, s') ← query m s true p; ok s'
run m take_weak s = downgrade m s (decode s.word)
run m drop_weak s = do (_, s') ← weak_release m s (decode s.word); ok s'
run m (ask_upgrade supported) s = do (_, s') ← upgrade m s (decode s.word) supported; ok s'

-- Counters are 32 bits wide.
abbrev pub HasRoom : ℕ → ℕ → Type 0
HasRoom n w = (n + 3 < i32_limit) × (w + 3 < i32_limit)

abbrev pub IsAllocated : Op → Type 0
IsAllocated (ask_source p) = IsAddress p
IsAllocated _ = Unit
