-- ===== src/Runtime/FactoryCache/References.antt =====
-- Who holds the references to factories, through every step of a thread (src/runtime/factory_cache.rs).
use windows_rs.Base.{
  ℕ, suc, ◌+◌, ◌-◌, ◌≤◌, ◌≡◌, refl, Bool, true, false, ◌==◌, Option, none, some, ok, arith,
  Bool-cases, inl, inr, ap, sym, ◌∙◌,
}
use windows_rs.Base.Tests.{==→eq}
use windows_rs.Runtime.FactoryCache.{
  Phase, Cache, Choice, update, drop_factory, call_factory, exchange_at, exchange, step,
}

abbrev pub one_if : Bool → ℕ
one_if true = 1
one_if false = 0

-- Whether a thread, or the cache, holds a reference of its own.
abbrev pub held : ℕ → Phase → ℕ
held g (Phase.casting f) = one_if (g == f)
held g (Phase.exchanging f) = one_if (g == f)
held g (Phase.calling_own f) = one_if (g == f)
held g _ = 0

abbrev pub cached : ℕ → Option ℕ → ℕ
cached g none = 0
cached g (some f) = one_if (g == f)

-- A thread that is about to call the shared factory knows which one it is.
abbrev pub Knows : Option ℕ → Phase → Type 0
Knows shared (Phase.calling_shared p) = shared ≡ some p
Knows shared _ = Unit

-- The factory that is shared stays so.
abbrev pub Keeps : Option ℕ → Option ℕ → Type 0
Keeps none after = Unit
Keeps (some f) after = after ≡ some f

-- With `others g` references to each factory that are held elsewhere.
pub record IsSound (others : ℕ → ℕ) (p : Phase) (c : Cache) : Type 0 where
  pub counted : (g : ℕ) → c.refs g ≡ held g p + others g + cached g c.shared
  pub fresh : (g : ℕ) → c.made ≤ g → c.refs g ≡ 0
  pub known : Knows c.shared p

abbrev pub Stepped : (ℕ → ℕ) → Choice → Phase → Cache → Type 0
Stepped others choice p c =
    (p' : Phase) × (c' : Cache) × (step choice p c ≡ ok (p', c'))
    × IsSound others p' c'
    × Keeps c.shared c'.shared

same_one : (f : ℕ) → one_if (f == f) ≡ 1
same_one f = ground arith

-- A factory that somebody holds is dropped.
drop_lem :
    (f : ℕ) (c : Cache)
    → 1 ≤ c.refs f
    → drop_factory f c ≡ ok (record c { refs = update c.refs f (c.refs f - 1) })
unfolding drop_factory
drop_lem f c h = ground arith

exchange_shared :
    (f p : ℕ) (c : Cache)
    → c.shared ≡ some p
    → (choice : Choice) → exchange choice f c ≡ drop_factory f c
unfolding exchange exchange_at
exchange_shared f p c e choice = ap (λ o. exchange_at o choice f c) e

exchange_spurious :
    (f : ℕ) (c : Cache)
    → c.shared ≡ none
    → (choice : Choice) → choice.is_spurious ≡ true
    → exchange choice f c ≡ drop_factory f c
unfolding exchange exchange_at
exchange_spurious f c e choice q = ap (λ o. exchange_at o choice f c) e ∙ rw q refl

exchange_taken :
    (f : ℕ) (c : Cache)
    → c.shared ≡ none
    → (choice : Choice) → choice.is_spurious ≡ false
    → exchange choice f c ≡ ok (record c { shared = some f })
unfolding exchange exchange_at
exchange_taken f c e choice q = ap (λ o. exchange_at o choice f c) e ∙ rw q refl

call_lem : (f : ℕ) (c : Cache) → 1 ≤ c.refs f → call_factory f c ≡ ok tt
unfolding call_factory
call_lem f c h = ground arith

dropped_count :
    (refs : ℕ → ℕ) (f g rest : ℕ)
    → refs g ≡ one_if (g == f) + rest
    → update refs f (refs f - 1) g ≡ rest
dropped_count refs f g rest h = elim (Bool-cases (g == f)) [
  | inl e ↦
      let h' = rw e at h in let same = ap refs (sym (==→eq g f e)) in rw e (omega (arith, h', same))
  | inr e ↦ let h' = rw e at h in rw e (omega (arith, h'))
]

dropped_fresh :
    (refs : ℕ → ℕ) (f g : ℕ) → refs g ≡ 0 → 1 ≤ refs f → update refs f (refs f - 1) g ≡ 0
dropped_fresh refs f g h k = elim (Bool-cases (g == f)) [
  | inl e ↦ let same = ap refs (==→eq g f e) in absurd (omega arith)
  | inr e ↦ rw e h
]

Keeps-refl : (o : Option ℕ) → Keeps o o
Keeps-refl none = tt
Keeps-refl (some f) = refl

module _ (others : ℕ → ℕ) (choice : Choice) (c : Cache) where
  -- A thread that lets its factory go.
  dropped-IsSound :
      (f : ℕ) (p' : Phase)
      → Knows c.shared p'
      → ((g : ℕ) → held g p' ≡ 0)
      → ((g : ℕ) → c.refs g ≡ one_if (g == f) + others g + cached g c.shared)
      → ((g : ℕ) → c.made ≤ g → c.refs g ≡ 0)
      → (drop_factory f c ≡ ok (record c { refs = update c.refs f (c.refs f - 1) }))
        × IsSound others p' (record c { refs = update c.refs f (c.refs f - 1) })
  dropped-IsSound f p' k free counted fresh =
      let here : 1 ≤ c.refs f = omega (arith, counted f, same_one f) in
      (
        drop_lem f c here,
        record {
          counted = λ g.
              dropped_count c.refs f g (held g p' + others g + cached g c.shared)
                (omega (arith, counted g, free g));
          fresh = λ g m. dropped_fresh c.refs f g (fresh g m) here;
          known = k;
        },
      )

  step_loading :
      (o : Option ℕ)
      → c.shared ≡ o
      → IsSound others Phase.loading c
      → Stepped others choice Phase.loading c
  unfolding step
  step_loading none e s = (
    Phase.creating,
    c,
    rw e refl,
    record { counted = s.counted; fresh = s.fresh; known = tt },
    Keeps-refl c.shared,
  )
  step_loading (some p) e s = (
    Phase.calling_shared p,
    c,
    rw e refl,
    record { counted = s.counted; fresh = s.fresh; known = e },
    Keeps-refl c.shared,
  )

  made_count :
      IsSound others Phase.creating c
      → (g : ℕ) → update c.refs c.made 1 g ≡ one_if (g == c.made) + others g + cached g c.shared
  made_count s g = elim (Bool-cases (g == c.made)) [
    | inl e ↦ let none_yet = s.fresh g (ground arith) in let n = s.counted g in rw e (omega arith)
    | inr e ↦ let n = s.counted g in rw e (omega arith)
  ]

  made_fresh : (g : ℕ) → suc c.made ≤ g → c.refs g ≡ 0 → update c.refs c.made 1 g ≡ 0
  made_fresh g h e = ground arith

  step_creating :
      (b : Bool)
      → choice.fails ≡ b
      → IsSound others Phase.creating c
      → Stepped others choice Phase.creating c
  unfolding step
  step_creating true e s = (
    Phase.failed,
    c,
    rw e refl,
    record { counted = s.counted; fresh = s.fresh; known = tt },
    Keeps-refl c.shared,
  )
  step_creating false e s = (
    Phase.casting c.made,
    record c { refs = update c.refs c.made 1; made = suc c.made },
    rw e refl,
    record {
      counted = made_count s;
      fresh = λ g m. made_fresh g m (s.fresh g (omega arith));
      known = tt;
    },
    Keeps-refl c.shared,
  )

  step_casting :
      (f : ℕ) (b : Bool)
      → choice.is_agile ≡ b
      → IsSound others (Phase.casting f) c
      → Stepped others choice (Phase.casting f) c
  unfolding step
  step_casting f true e s = (
    Phase.exchanging f,
    c,
    rw e refl,
    record { counted = s.counted; fresh = s.fresh; known = tt },
    Keeps-refl c.shared,
  )
  step_casting f false e s = (
    Phase.calling_own f,
    c,
    rw e refl,
    record { counted = s.counted; fresh = s.fresh; known = tt },
    Keeps-refl c.shared,
  )

  step_exchanging :
      (f : ℕ) (o : Option ℕ) (b : Bool)
      → c.shared ≡ o
      → choice.is_spurious ≡ b
      → IsSound others (Phase.exchanging f) c
      → Stepped others choice (Phase.exchanging f) c
  unfolding step
  step_exchanging f (some p) b e q s =
      let (d, sound) = dropped-IsSound f Phase.loading tt (λ g. refl) s.counted s.fresh in
      (Phase.loading, _, rw (exchange_shared f p c e choice, d) refl, sound, Keeps-refl c.shared)
  step_exchanging f none true e q s =
      let (d, sound) = dropped-IsSound f Phase.loading tt (λ g. refl) s.counted s.fresh in
      (Phase.loading, _, rw (exchange_spurious f c e choice q, d) refl, sound, Keeps-refl c.shared)
  step_exchanging f none false e q s = (
    Phase.loading,
    record c { shared = some f },
    rw (exchange_taken f c e choice q) refl,
    record {
      counted = λ g. let n = rw e at (s.counted g) in omega (arith, n);
      fresh = s.fresh;
      known = tt;
    },
    rw e tt,
  )

  step_calling_shared :
      (p : ℕ)
      → IsSound others (Phase.calling_shared p) c
      → Stepped others choice (Phase.calling_shared p) c
  unfolding step
  step_calling_shared p s =
      let here : 1 ≤ c.refs p = omega (arith, s.counted p, ap (cached p) s.known, same_one p) in
      (
        Phase.returned p,
        c,
        rw (call_lem p c here) refl,
        record { counted = s.counted; fresh = s.fresh; known = tt },
        Keeps-refl c.shared,
      )

  step_calling_own :
      (f : ℕ)
      → IsSound others (Phase.calling_own f) c
      → Stepped others choice (Phase.calling_own f) c
  unfolding step
  step_calling_own f s =
      let here : 1 ≤ c.refs f = omega (arith, s.counted f, same_one f) in
      let (d, sound) = dropped-IsSound f (Phase.returned f) tt (λ g. refl) s.counted s.fresh in
      (Phase.returned f, _, rw (call_lem f c here, d) refl, sound, Keeps-refl c.shared)

  -- Every step of a thread is sound.
  pub step-IsSound : (p : Phase) → IsSound others p c → Stepped others choice p c
  unfolding step
  step-IsSound Phase.loading s = step_loading c.shared refl s
  step-IsSound Phase.creating s = step_creating choice.fails refl s
  step-IsSound (Phase.casting f) s = step_casting f choice.is_agile refl s
  step-IsSound (Phase.exchanging f) s = step_exchanging f c.shared choice.is_spurious refl refl s
  step-IsSound (Phase.calling_shared f) s = step_calling_shared f s
  step-IsSound (Phase.calling_own f) s = step_calling_own f s
  step-IsSound (Phase.returned f) s = (Phase.returned f, c, refl, s, Keeps-refl c.shared)
  step-IsSound Phase.failed s = (Phase.failed, c, refl, s, Keeps-refl c.shared)
