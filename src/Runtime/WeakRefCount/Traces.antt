-- ===== src/Runtime/WeakRefCount/Traces.antt =====
-- Histories of one object, from its creation on.
use windows_rs.Base.{
  ℕ, zero, suc, ◌+◌, ◌≡◌, ◌↔◌, refl, subst, Bool, true, false, Option, none, some, List, [], ◌∷◌,
  All, Outcome, ok, ◌>>=◌, Mode, arith,
}
use mathlib.Core.Option.{some-injective}
use windows_rs.Runtime.WeakRefCount.{Shared, new}
use windows_rs.Runtime.WeakRefCount.References.{
  Represents, counting, torn, freed, Op, held, run, HasRoom, IsAllocated,
}
use windows_rs.Runtime.WeakRefCount.Calls.{run-Represents}

unfoldable pub run_all : Mode → List Op → Shared → Outcome Shared
unfolding run
run_all m [] s = ok s
run_all m (op ∷ ops) s = do s' ← run m op s; run_all m ops s'

abbrev and_then :
    Option (Bool × ℕ × ℕ) → (Bool → ℕ → ℕ → Option (Bool × ℕ × ℕ)) → Option (Bool × ℕ × ℕ)
and_then none f = none
and_then (some (b, n, w)) f = f b n w

-- The references that a client holds after these calls, if it may make them.
abbrev pub held_all : List Op → Bool → ℕ → ℕ → Option (Bool × ℕ × ℕ)
held_all [] b n w = some (b, n, w)
held_all (op ∷ ops) b n w = and_then (held op b n w) (λ b' n' w'. held_all ops b' n' w')

-- Before each call, the references held of either kind leave room below the limit of the counters.
abbrev pub HasRoomAlong : List Op → Bool → ℕ → ℕ → Type 0
HasRoomAlong [] b n w = Unit
HasRoomAlong (op ∷ ops) b n w =
    HasRoom n w
    × (elim (held op b n w) [ none ↦ Unit | some (b', n', w') ↦ HasRoomAlong ops b' n' w' ])

run_all-Represents :
    (m : Mode) (ops : List Op) (s : Shared) (b b' : Bool) (n w n' w' : ℕ)
    → Represents s b n w
    → held_all ops b n w ≡ some (b', n', w')
    → All IsAllocated ops
    → HasRoomAlong ops b n w
    → (s' : Shared) × (run_all m ops s ≡ ok s') × Represents s' b' n' w'
unfolding run_all
run_all-Represents m [] s b b' n w n' w' r e a h =
    (s, refl, subst (λ (t : Bool × ℕ × ℕ). Represents s t.0 t.1 t.2) (some-injective _ _ e) r)
run_all-Represents m (op ∷ ops) s b b' n w n' w' r e (a, rest) h =
    (elim (held op b n w)
        as (λ o.
          held op b n w ≡ o
          → and_then o (held_all ops) ≡ some (b', n', w')
          → (s' : Shared) × (run_all m (op ∷ ops) s ≡ ok s') × Represents s' b' n' w') [
            | none ↦ λ q e'. cc
            | some (b1, n1, w1) ↦ λ q e'.
                let (s1, done, r1) = run-Represents m op s b b1 n w n1 w1 r q h.0 a in
                rw done (
                  run_all-Represents m ops s1 b1 b' n1 w1 n' w' r1 e' rest
                    (let later = rw q at h.1 in later))
          ])
      refl e

-- The tear-off is gone exactly when no reference is left.
Represents-freed :
    {s : Shared} {n w : ℕ} → Represents s true n w → (s.tear_off ≡ none) ↔ (n + w ≡ 0)
Represents-freed (torn p zero w k a e) = (λ h. cc, λ h. absurd (omega arith))
Represents-freed (torn p (suc n) w k a e) = (λ h. cc, λ h. absurd (omega arith))
Represents-freed (freed p a) = (λ h. omega arith, λ h. refl)

-- An object is made with one reference. After any number of calls that its clients may make, where the addresses of
-- allocations are as `IsAllocated` says and before each call fewer than 2 ^ 31 - 3 strong and as many weak references are
-- held, in every build: no method has faulted, and the counters stand for the references held; if there has been a tear-off,
-- it is freed exactly when neither strong nor weak references are left.
pub trace-Represents :
    (m : Mode) (ops : List Op) (b : Bool) (n w : ℕ)
    → held_all ops false 1 0 ≡ some (b, n, w)
    → All IsAllocated ops
    → HasRoomAlong ops false 1 0
    → (s : Shared) × (run_all m ops new ≡ ok s)
      × Represents s b n w
      × (b ≡ true → (s.tear_off ≡ none) ↔ (n + w ≡ 0))
trace-Represents m ops b n w e a h =
    let (s, done, r) = run_all-Represents m ops new false b 1 0 n w (counting 1) e a h in
    (s, done, r, λ torn'. Represents-freed (subst (λ (t : Bool). Represents s t n w) torn' r))
