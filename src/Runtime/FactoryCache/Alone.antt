-- ===== src/Runtime/FactoryCache/Alone.antt =====
-- A thread that runs alone (src/runtime/factory_cache.rs).
use windows_rs.Base.{
  Option, ℕ, zero, suc, ◌+◌, ◌-◌, ◌≡◌, refl, List, [], ◌∷◌, true, false, none, some, ok, arith,
}
use windows_rs.Runtime.FactoryCache.{
  Phase, Cache, Choice, exchange, exchange_at, update, drop_factory, call_factory, step, step_at,
  run,
}

abbrev pub good : Choice
good = record { fails = false; is_agile = true; is_spurious = false }

abbrev pub spurious : Choice
spurious = record { fails = false; is_agile = true; is_spurious = true }

-- The first thread takes four steps to an exchange that fails for no reason, so often, and then six.
abbrev pub turns : ℕ → List (ℕ × Choice)
turns zero = (0, good) ∷ (0, good) ∷ (0, good) ∷ (0, good) ∷ (0, good) ∷ (0, good) ∷ []
turns (suc k) = (0, spurious) ∷ (0, spurious) ∷ (0, spurious) ∷ (0, spurious) ∷ turns k

once : (refs : ℕ → ℕ) (f : ℕ) → update refs f 1 f ≡ 1
once refs f = ground arith

abbrev pub nothing_shared : (ℕ → ℕ) → ℕ → Cache
nothing_shared refs made = record { shared = none; refs = refs; made = made }

call_made :
    (refs : ℕ → ℕ) (f made : ℕ) (o : Option ℕ)
    → call_factory f (record { shared = o; refs = update refs f 1; made = made }) ≡ ok tt
unfolding call_factory
call_made refs f made o = ground (arith, once refs f)

drop_made :
    (refs : ℕ → ℕ) (f made : ℕ)
    → drop_factory f (record { shared = none; refs = update refs f 1; made = made })
      ≡ ok (nothing_shared (update (update refs f 1) f (update refs f 1 f - 1)) made)
unfolding drop_factory
drop_made refs f made = ground (arith, once refs f)

-- With nothing shared, where the system always makes a factory and all factories are agile: a thread that runs alone returns
-- after four steps for each of the first `k` exchanges, which fail for no reason, and six more, with the last factory that was
-- made; that is then shared, and has one reference.
pub run-turns :
    (k : ℕ) (refs : ℕ → ℕ) (made : ℕ)
    → (c : Cache) × (run (turns k) (Phase.loading ∷ []) (nothing_shared refs made)
        ≡ ok (Phase.returned (made + k) ∷ [], c))
      × (c.shared ≡ some (made + k))
      × (c.refs (made + k) ≡ 1)
unfolding run step_at step exchange exchange_at
run-turns zero refs made =
    let last : made + 0 ≡ made = omega arith in
    (
      record { shared = some made; refs = update refs made 1; made = suc made },
      rw (call_made refs made (suc made) (some made), last) refl,
      rw last refl,
      rw last (once refs made),
    )
run-turns (suc k) refs made =
    let last : made + suc k ≡ suc made + k = omega arith in
    let (c, e, s, r) =
      run-turns k (update (update refs made 1) made (update refs made 1 made - 1)) (suc made) in
    (c, rw (drop_made refs made (suc made), last) e, rw last s, rw last r)
