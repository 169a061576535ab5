-- ===== src/Runtime/WeakRefCount/Methods.antt =====
-- Each method on the two states of the counter: a plain count, and a tear-off with its counts.
use windows_rs.Base.{
  ℕ, zero, suc, ◌+◌, ◌-◌, ◌%◌, ◌<◌, ◌≤◌, ◌≡◌, refl, Bool, true, false, ◌==◌, if◌then◌else◌, none,
  some, ok, Mode, trap, wrap, u32_mod, arith,
}
use windows_rs.Base.Tests.{eq→==, gt→leb}
use windows_rs.Base.Word.{add_u32_ok, sub_u32_ok}
use windows_rs.Runtime.RefCount
use windows_rs.Runtime.RefCount.{i32_limit, add_ref_ok, release_ok}
use windows_rs.Runtime.WeakRefCount.{
  Shared, isize_limit, encode, tear_off_at, inc_isize, dec_isize, add_ref, release, weak_release,
  query, downgrade, upgrade,
}
use windows_rs.Runtime.WeakRefCount.Encoding.{IsAddress, decode-encode_address}

abbrev pub torn_state : ℕ → ℕ → ℕ → Shared
torn_state p n w = record {
  word = encode p;
  tear_off = some (record { at = p; strong_count = n; weak_count = w });
}

abbrev pub count_state : ℕ → Shared
count_state n = record { word = n; tear_off = none }

found :
    (p n w : ℕ)
    → tear_off_at (torn_state p n w) p ≡ ok (record { at = p; strong_count = n; weak_count = w })
unfolding tear_off_at
found p n w = rw (eq→== p p refl)

pub add_ref-torn :
    (m : Mode) (p n w : ℕ)
    → IsAddress p
    → n + 1 < i32_limit
    → add_ref m (torn_state p n w) ≡ ok (n + 1, torn_state p (n + 1) w)
unfolding add_ref
add_ref-torn m p n w a h =
    let (neg, same) = decode-encode_address p a in rw (neg, same, found p n w, add_ref_ok m n h)

pub inc_isize_ok : (m : Mode) (c : ℕ) → c + 1 < isize_limit → inc_isize m c ≡ ok (c + 1)
unfolding inc_isize
inc_isize_ok trap c h = ground arith
inc_isize_ok wrap c h = ground arith

dec_isize_ok : (m : Mode) (c : ℕ) → 1 ≤ c → c < isize_limit → dec_isize m c ≡ ok (c - 1)
unfolding dec_isize
dec_isize_ok trap c h k = ground arith
dec_isize_ok wrap c h k = ground arith

pub add_ref-counting :
    (m : Mode) (n : ℕ)
    → n + 1 < i32_limit
    → add_ref m (count_state n) ≡ ok (n + 1, count_state (n + 1))
unfolding add_ref
add_ref-counting m n h =
    let low : n % u32_mod ≡ n = omega arith in
    rw (
      gt→leb isize_limit n (omega arith),
      inc_isize_ok m n (omega arith),
      low,
      add_u32_ok m n 1 (omega arith),
    )

pub release-counting :
    (m : Mode) (n : ℕ)
    → 1 ≤ n
    → n < i32_limit
    → release m (count_state n) ≡ ok (n - 1, count_state (n - 1))
unfolding release
release-counting m n k h =
    let low : n % u32_mod ≡ n = omega arith in
    rw (
      gt→leb isize_limit n (omega arith),
      dec_isize_ok m n k (omega arith),
      low,
      sub_u32_ok m n 1 k,
    )

suc_not_zero : (n : ℕ) → (suc n == 0) ≡ false
suc_not_zero n = ground arith

-- The weak references that are left keep the tear-off.
abbrev pub after_weak : ℕ → ℕ → ℕ → Shared
after_weak p n zero = record { word = encode p; tear_off = none }
after_weak p n (suc w) = torn_state p n (suc w)

pub weak_release-torn :
    (m : Mode) (p n w : ℕ)
    → suc w < i32_limit
    → weak_release m (torn_state p n (suc w)) p ≡ ok (w, after_weak p n w)
unfolding weak_release
weak_release-torn m p n zero h = rw (found p n 1, release_ok m 1 (omega arith) (omega arith))
weak_release-torn m p n (suc w) h =
    let less : suc (suc w) - 1 ≡ suc w = omega arith in
    rw (found p n (suc (suc w)), release_ok m (suc (suc w)) h (omega arith), less, suc_not_zero w)

pub release-torn :
    (m : Mode) (p n w : ℕ)
    → IsAddress p
    → suc (suc n) < i32_limit
    → release m (torn_state p (suc (suc n)) w) ≡ ok (suc n, torn_state p (suc n) w)
unfolding release
release-torn m p n w a h =
    let (neg, same) = decode-encode_address p a in
    let less : suc (suc n) - 1 ≡ suc n = omega arith in
    rw (
      neg,
      same,
      found p (suc (suc n)) w,
      release_ok m (suc (suc n)) h (omega arith),
      less,
      suc_not_zero n,
    )

pub release-torn_last :
    (m : Mode) (p w : ℕ)
    → IsAddress p
    → suc w < i32_limit
    → release m (torn_state p 1 (suc w)) ≡ ok (0, after_weak p 0 w)
unfolding release
release-torn_last m p w a h =
    let (neg, same) = decode-encode_address p a in
    rw (
      neg,
      same,
      found p 1 (suc w),
      release_ok m 1 (omega arith) (omega arith),
      weak_release-torn m p 0 w h,
    )

pub query-counting :
    (m : Mode) (n fresh : ℕ)
    → n + 1 < i32_limit
    → query m (count_state n) true fresh ≡ ok (some fresh, torn_state fresh (n + 1) 1)
unfolding query
query-counting m n fresh h =
    let low : RefCount.new (n % u32_mod) ≡ n = omega arith in
    rw (gt→leb isize_limit n (omega arith), low, add_ref_ok m n h)

pub query-torn :
    (m : Mode) (p n w fresh : ℕ)
    → IsAddress p
    → n + 1 < i32_limit
    → query m (torn_state p n w) true fresh ≡ ok (some p, torn_state p (n + 1) w)
unfolding query
query-torn m p n w fresh a h =
    let (neg, same) = decode-encode_address p a in rw (neg, same, found p n w, add_ref_ok m n h)

pub downgrade-torn :
    (m : Mode) (p n w : ℕ)
    → w + 1 < i32_limit
    → downgrade m (torn_state p n w) p ≡ ok (torn_state p n (w + 1))
unfolding downgrade
downgrade-torn m p n w h = rw (found p n w, add_ref_ok m w h)

pub upgrade-torn_gone :
    (m : Mode) (p w : ℕ) (b : Bool)
    → upgrade m (torn_state p 0 w) p b ≡ ok (false, torn_state p 0 w)
unfolding upgrade
upgrade-torn_gone m p w b = rw (found p 0 w)

inc_i32_ok : (m : Mode) (n : ℕ) → n + 1 < i32_limit → RefCount.inc_i32 m n ≡ ok (n + 1)
unfolding RefCount.inc_i32
inc_i32_ok trap n h = ground arith
inc_i32_ok wrap n h = ground arith

pub upgrade-torn :
    (m : Mode) (p n w : ℕ) (b : Bool)
    → IsAddress p
    → suc n + 2 < i32_limit
    → upgrade m (torn_state p (suc n) w) p b
      ≡ ok (b, torn_state p (if b then suc (suc n) else suc n) w)
unfolding upgrade
upgrade-torn m p n w true a h =
    let two : (suc n + 1 + 1 + u32_mod - 1) % u32_mod ≡ suc (suc n) = omega arith in
    rw (
      found p (suc n) w,
      suc_not_zero n,
      inc_i32_ok m (suc n) (omega arith),
      add_ref-torn m p (suc n + 1) w a (omega arith),
      found p (suc n + 1 + 1) w,
      two,
    )
upgrade-torn m p n w false a h =
    let one : (suc n + 1 + u32_mod - 1) % u32_mod ≡ suc n = omega arith in
    rw (
      found p (suc n) w,
      suc_not_zero n,
      inc_i32_ok m (suc n) (omega arith),
      found p (suc n + 1) w,
      one,
    )
