-- ===== src/Runtime/WeakRefCount/Spin.antt =====
-- The loop of `WeakRefCount::add_ref` (src/runtime/weak_ref_count.rs) as it runs among other threads. The
-- word is loaded once, before the loop; each round of the loop is one weak exchange, which sees the word
-- that the other threads have left by then and may also fail for no reason.
use windows_rs.Base.{
  ℕ, ◌≡◌, ◌↔◌, refl, Bool, true, false, not, ◌&&◌, ◌==◌, if◌then◌else◌, List, [], ◌∷◌, All, Outcome,
  ok, ◌>>=◌, inl, inr, Mode, u32_mod, arith, Bool-cases, ◌<◌, ◌+◌, ◌%◌,
}
use windows_rs.Base.Tests.{gt→leb}
use windows_rs.Base.Word.{add_u32, add_u32_ok}
use windows_rs.Runtime.RefCount.{i32_limit}
use windows_rs.Runtime.WeakRefCount.{is_weak_ref, inc_isize, isize_limit}
use windows_rs.Runtime.WeakRefCount.Methods.{inc_isize_ok}

-- What the exchange of one round finds: the word, and whether it fails although the words are equal.
pub record Round : Type 0 where
  pub word : ℕ
  pub spurious : Bool

-- After the rounds: still in the loop, gone to the tear-off, or done, with the word stored and the count
-- returned.
pub data Spinning : Type 0 where
  still_spinning : Spinning
  through_tear_off : Spinning
  exchanged : ℕ → ℕ → Spinning

abbrev succeeds : ℕ → Round → Bool
succeeds loaded r = (r.word == loaded) && not r.spurious

abbrev store : Mode → ℕ → Outcome Spinning
store m loaded = do
  next ← inc_isize m loaded
  value ← add_u32 m (loaded % u32_mod) 1
  ok (exchanged next value)

unfoldable pub add_ref_loop : Mode → ℕ → List Round → Outcome Spinning
add_ref_loop m loaded [] = ok still_spinning
add_ref_loop m loaded (r ∷ rs) =
    let later = add_ref_loop m loaded rs in
    if is_weak_ref loaded
    then ok through_tear_off
    else if succeeds loaded r
    then store m loaded
    else later

-- A round that the loop goes on from.
abbrev pub Fails : ℕ → Round → Type 0
Fails loaded r = r.word ≡ loaded → r.spurious ≡ true

store_ok :
    (m : Mode) (loaded : ℕ)
    → loaded + 1 < i32_limit
    → store m loaded ≡ ok (exchanged (loaded + 1) (loaded + 1))
store_ok m loaded h =
    let low : loaded % u32_mod ≡ loaded = omega arith in
    rw (inc_isize_ok m loaded (omega arith), low, add_u32_ok m loaded 1 (omega arith))

succeeds-Fails : (loaded : ℕ) (r : Round) → succeeds loaded r ≡ true → ¬ Fails loaded r
succeeds-Fails loaded r e f = ground arith

failing_round : (loaded : ℕ) (r : Round) → succeeds loaded r ≡ false → Fails loaded r
failing_round loaded r e same = ground arith

-- `add_ref` loads the word once and no round reloads it: as long as the count it loaded is a plain one, it is
-- still in its loop after these rounds exactly when each of them saw another word than the one loaded at
-- first or failed spuriously, however the word changed meanwhile.
pub still_spinning-Fails :
    (m : Mode) (loaded : ℕ) (rs : List Round)
    → loaded + 1 < i32_limit
    → (add_ref_loop m loaded rs ≡ ok still_spinning) ↔ All (Fails loaded) rs
unfolding add_ref_loop
still_spinning-Fails m loaded [] h = (λ e. tt, λ a. refl)
still_spinning-Fails m loaded (r ∷ rs) h =
    let (to, from) = still_spinning-Fails m loaded rs h in
    elim (Bool-cases (succeeds loaded r)) [
      | inl e ↦
          rw (gt→leb isize_limit loaded (omega arith), e, store_ok m loaded h)
            (λ q. absurd cc, λ (f, rest). absurd (succeeds-Fails loaded r e f))
      | inr e ↦
          rw (gt→leb isize_limit loaded (omega arith), e)
            (λ q. (failing_round loaded r e, to q), λ (f, rest). from rest)
    ]
