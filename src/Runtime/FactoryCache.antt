-- ===== src/Runtime/FactoryCache.antt =====
-- `FactoryCache::call` (src/runtime/factory_cache.rs), as threads run it side by side: a step is what a thread does between two
-- looks at what it shares. What the system answers is a choice that comes with each step.
pub mod References
pub mod Counts
pub mod Alone
use windows_rs.Base.{
  ℕ, zero, suc, ◌+◌, ◌-◌, List, [], ◌∷◌, Bool, true, false, ◌==◌, ◌||◌, if◌then◌else◌, Option, none,
  some, Fault, Outcome, ok, panic, ◌>>=◌, ◌>>◌,
}

-- Where a thread is, with the factory that it holds or uses.
pub data Phase : Type 0 where
  loading creating : Phase
  casting exchanging : ℕ → Phase
  calling_shared calling_own : ℕ → Phase
  returned : ℕ → Phase
  failed : Phase

-- The pointer that is shared, the references that are held to each factory, and the factories made so far.
pub record Cache : Type 0 where
  pub shared : Option ℕ
  pub refs : ℕ → ℕ
  pub made : ℕ

-- `FactoryCache::new`
abbrev pub new : Cache
new = record { shared = none; refs = λ f. 0; made = 0 }

-- Whether `factory` fails, whether the factory is agile, and whether the weak exchange fails for no reason.
pub record Choice : Type 0 where
  pub fails : Bool
  pub is_agile : Bool
  pub is_spurious : Bool

abbrev pub update : (ℕ → ℕ) → ℕ → ℕ → ℕ → ℕ
update refs f n g = if g == f then n else refs g

-- The factory goes out of scope.
unfoldable pub drop_factory : ℕ → Cache → Outcome Cache
drop_factory f c =
    if c.refs f == 0
    then panic Fault.over_released
    else ok (record c { refs = update c.refs f (c.refs f - 1) })

-- A factory without references is gone, and must not be called.
unfoldable pub call_factory : ℕ → Cache → Outcome (Unit {0})
call_factory f c = if c.refs f == 0 then panic Fault.undefined else ok tt

-- The strong exchange, which may fail for no reason; on success the reference is forgotten, and stays with the cache.
unfoldable pub exchange_at : Option ℕ → Choice → ℕ → Cache → Outcome Cache
unfolding drop_factory
exchange_at (some p) choice f c = drop_factory f c
exchange_at none choice f c =
    if choice.is_spurious then drop_factory f c else ok (record c { shared = some f })

unfoldable pub exchange : Choice → ℕ → Cache → Outcome Cache
unfolding exchange_at
exchange choice f c = exchange_at c.shared choice f c

unfoldable pub step : Choice → Phase → Cache → Outcome (Phase × Cache)
unfolding exchange call_factory drop_factory
step choice Phase.loading c = elim c.shared [
  | some p ↦ ok (Phase.calling_shared p, c)
  | none ↦ ok (Phase.creating, c)
]
step choice Phase.creating c =
    if choice.fails
    then ok (Phase.failed, c)
    else ok (Phase.casting c.made, record c { refs = update c.refs c.made 1; made = suc c.made })
step choice (Phase.casting f) c =
    ok (if choice.is_agile then Phase.exchanging f else Phase.calling_own f, c)
step choice (Phase.exchanging f) c = do next ← exchange choice f c; ok (Phase.loading, next)
step choice (Phase.calling_shared p) c = do call_factory p c; ok (Phase.returned p, c)
step choice (Phase.calling_own f) c = do
  call_factory f c
  next ← drop_factory f c
  ok (Phase.returned f, next)
step choice (Phase.returned f) c = ok (Phase.returned f, c)
step choice Phase.failed c = ok (Phase.failed, c)

-- A step of one of the threads.
unfoldable pub step_at : Choice → ℕ → List Phase → Cache → Outcome (List Phase × Cache)
unfolding step
step_at choice i [] c = ok ([], c)
step_at choice zero (p ∷ threads) c = do (next, c') ← step choice p c; ok (next ∷ threads, c')
step_at choice (suc i) (p ∷ threads) c = do
  (next, c') ← step_at choice i threads c
  ok (p ∷ next, c')

-- The threads by a schedule, which says whose turn it is and what the system answers.
unfoldable pub run : List (ℕ × Choice) → List Phase → Cache → Outcome (List Phase × Cache)
unfolding step_at
run [] threads c = ok (threads, c)
run ((i, choice) ∷ rest) threads c = do
  (threads', c') ← step_at choice i threads c
  run rest threads' c'
