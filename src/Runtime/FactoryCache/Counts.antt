-- ===== src/Runtime/FactoryCache/Counts.antt =====
-- The references to factories while any number of threads call (src/runtime/factory_cache.rs).
use windows_rs.Base.{
  ℕ, zero, suc, ◌+◌, ◌≤◌, ◌≡◌, refl, List, [], ◌∷◌, All, Option, none, some, ok, arith,
}
use windows_rs.Runtime.FactoryCache.{Phase, Cache, Choice, new, step_at, run}
use windows_rs.Runtime.FactoryCache.References.{held, cached, Knows, Keeps, step-IsSound}

abbrev pub all_held : ℕ → List Phase → ℕ
all_held g [] = 0
all_held g (p ∷ threads) = held g p + all_held g threads

-- Every reference is held by a thread, by the cache or elsewhere, and factories that are to come have none.
pub record AreSound (others : ℕ → ℕ) (threads : List Phase) (c : Cache) : Type 0 where
  pub counted : (g : ℕ) → c.refs g ≡ all_held g threads + others g + cached g c.shared
  pub fresh : (g : ℕ) → c.made ≤ g → c.refs g ≡ 0
  pub known : All (Knows c.shared) threads

Knows-Keeps : (o o' : Option ℕ) (p : Phase) → Keeps o o' → Knows o p → Knows o' p
Knows-Keeps o o' (Phase.calling_shared f) k h = let k' = rw h at k in k'
Knows-Keeps o o' Phase.loading k h = tt
Knows-Keeps o o' Phase.creating k h = tt
Knows-Keeps o o' (Phase.casting f) k h = tt
Knows-Keeps o o' (Phase.exchanging f) k h = tt
Knows-Keeps o o' (Phase.calling_own f) k h = tt
Knows-Keeps o o' (Phase.returned f) k h = tt
Knows-Keeps o o' Phase.failed k h = tt

All-Knows :
    (o o' : Option ℕ) (threads : List Phase)
    → Keeps o o'
    → All (Knows o) threads
    → All (Knows o') threads
All-Knows o o' [] k h = tt
All-Knows o o' (p ∷ threads) k h = (Knows-Keeps o o' p k h.0, All-Knows o o' threads k h.1)

Keeps-refl : (o : Option ℕ) → Keeps o o
Keeps-refl none = tt
Keeps-refl (some f) = refl

Keeps-trans : (o o' o'' : Option ℕ) → Keeps o o' → Keeps o' o'' → Keeps o o''
Keeps-trans none o' o'' h k = tt
Keeps-trans (some f) o' o'' h k = let k' = rw h at k in k'

step_at-AreSound :
    (others : ℕ → ℕ) (choice : Choice) (i : ℕ) (threads : List Phase) (c : Cache)
    → AreSound others threads c
    → (threads' : List Phase) × (c' : Cache) × (step_at choice i threads c ≡ ok (threads', c'))
      × AreSound others threads' c'
      × Keeps c.shared c'.shared
unfolding step_at
step_at-AreSound others choice i [] c s = ([], c, refl, s, Keeps-refl c.shared)
step_at-AreSound others choice zero (p ∷ threads) c s =
    let (p', c', e, s', k) =
      step-IsSound (λ g. all_held g threads + others g) choice c p
        (record {
          counted = λ g. omega (arith, s.counted g);
          fresh = s.fresh;
          known = s.known.0;
        }) in
    (
      p' ∷ threads,
      c',
      rw e refl,
      record {
        counted = λ g. omega (arith, s'.counted g);
        fresh = s'.fresh;
        known = (s'.known, All-Knows c.shared c'.shared threads k s.known.1);
      },
      k,
    )
step_at-AreSound others choice (suc i) (p ∷ threads) c s =
    let (threads', c', e, s', k) =
      step_at-AreSound (λ g. held g p + others g) choice i threads c
        (record {
          counted = λ g. omega (arith, s.counted g);
          fresh = s.fresh;
          known = s.known.1;
        }) in
    (
      p ∷ threads',
      c',
      rw e refl,
      record {
        counted = λ g. omega (arith, s'.counted g);
        fresh = s'.fresh;
        known = (Knows-Keeps c.shared c'.shared p k s.known.0, s'.known);
      },
      k,
    )

-- While every reference is held by a thread, by the cache or elsewhere: no schedule of any threads, whatever the system answers, calls a
-- factory that is gone or releases one too often. Every reference is then held so again, and a factory that was shared is shared still.
pub run-AreSound :
    (others : ℕ → ℕ) (schedule : List (ℕ × Choice)) (threads : List Phase) (c : Cache)
    → AreSound others threads c
    → (threads' : List Phase) × (c' : Cache) × (run schedule threads c ≡ ok (threads', c'))
      × AreSound others threads' c'
      × Keeps c.shared c'.shared
unfolding run
run-AreSound others [] threads c s = (threads, c, refl, s, Keeps-refl c.shared)
run-AreSound others ((i, choice) ∷ rest) threads c s =
    let (t1, c1, e1, s1, k1) = step_at-AreSound others choice i threads c s in
    let (t2, c2, e2, s2, k2) = run-AreSound others rest t1 c1 s1 in
    (t2, c2, rw (e1, e2) refl, s2, Keeps-trans c.shared c1.shared c2.shared k1 k2)

-- A thread that is done with its call.
abbrev pub IsDone : Phase → Type 0
IsDone (Phase.returned f) = Unit
IsDone Phase.failed = Unit
IsDone _ = ⊥

done_held : (g : ℕ) (threads : List Phase) → All IsDone threads → all_held g threads ≡ 0
done_held g [] h = refl
done_held g (Phase.returned f ∷ threads) h = omega (arith, done_held g threads h.1)
done_held g (Phase.failed ∷ threads) h = omega (arith, done_held g threads h.1)
done_held g (Phase.loading ∷ threads) h = elim h.0 [ ]
done_held g (Phase.creating ∷ threads) h = elim h.0 [ ]
done_held g (Phase.casting f ∷ threads) h = elim h.0 [ ]
done_held g (Phase.exchanging f ∷ threads) h = elim h.0 [ ]
done_held g (Phase.calling_shared f ∷ threads) h = elim h.0 [ ]
done_held g (Phase.calling_own f ∷ threads) h = elim h.0 [ ]

abbrev pub starting : ℕ → List Phase
starting zero = []
starting (suc n) = Phase.loading ∷ starting n

starting_held : (g n : ℕ) → all_held g (starting n) ≡ 0
starting_held g zero = refl
starting_held g (suc n) = omega (arith, starting_held g n)

starting_known : (o : Option ℕ) (n : ℕ) → All (Knows o) (starting n)
starting_known o zero = tt
starting_known o (suc n) = (tt, starting_known o n)

-- From a new cache, any number of threads that call run by any schedule, whatever the system answers, without a fault; and where
-- all of them are done at its end, only the shared factory has a reference left, and that only one.
pub run-released :
    (n : ℕ) (schedule : List (ℕ × Choice))
    → (threads : List Phase) × (c : Cache) × (run schedule (starting n) new ≡ ok (threads, c))
      × (All IsDone threads → (g : ℕ) → c.refs g ≡ cached g c.shared)
run-released n schedule =
    let (threads, c, e, s, k) =
      run-AreSound (λ g. 0) schedule (starting n) new
        (record {
          counted = λ g. omega (arith, starting_held g n);
          fresh = λ g h. refl;
          known = starting_known none n;
        }) in
    (threads, c, e, λ done g. omega (arith, s.counted g, done_held g threads done))
