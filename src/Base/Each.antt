-- ===== src/Base/Each.antt =====
-- A property of what a function returns, where it returns.
use mathlib.Core.Bool.{Bool, true, false}
use windows_rs.Base.Tests.{if◌then◌else◌}
use windows_rs.Base.Faults.{Outcome, ok, panic, ◌>>=◌}

-- What a function that returns gives has the property.
abbrev pub Each {ℓ κ} : {A : Type ℓ} → (A → Type κ) → Outcome A → Type κ
Each P (ok a) = P a
Each P (panic f) = Unit

pub Each-bind {ℓ κ μ} :
    {A : Type ℓ} {B : Type κ} (P : B → Type μ) (o : Outcome A) (f : A → Outcome B)
    → ((a : A) → Each P (f a))
    → Each P (o >>= f)
Each-bind P (ok a) f h = h a
Each-bind P (panic e) f h = tt

pub Each-step {ℓ κ μ ν} :
    {A : Type ℓ} {B : Type κ} (P : A → Type μ) (Q : B → Type ν) (o : Outcome A) (f : A → Outcome B)
    → Each P o
    → ((a : A) → P a → Each Q (f a))
    → Each Q (o >>= f)
Each-step P Q (ok a) f h k = k a h
Each-step P Q (panic e) f h k = tt

pub Each-if {ℓ κ} :
    {A : Type ℓ} (P : A → Type κ) (b : Bool) (x y : Outcome A)
    → Each P x
    → Each P y
    → Each P (if b then x else y)
Each-if P true x y h k = h
Each-if P false x y h k = k

pub Each-map {ℓ κ μ} :
    {A : Type ℓ} (P : A → Type κ) (Q : A → Type μ) (o : Outcome A)
    → ((a : A) → P a → Q a)
    → Each P o
    → Each Q o
Each-map P Q (ok a) h k = h a k
Each-map P Q (panic f) h k = tt
