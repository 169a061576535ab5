-- ===== src/Base/Faults.antt =====
-- What a Rust function does: it returns, or it panics. `undefined` is no panic: it marks a read that
-- unsafe code makes outside its buffer, and `out_of_fuel` a loop that the model cut off.
use mathlib.Core.Bool.{Bool, true, false}

pub data Fault : Type 0 where
  overflow out_of_memory out_of_bounds bad_code invalid_file unexpected unwrap_none over_released
        undefined out_of_fuel :
      Fault

pub data Outcome {ℓ} (A : Type ℓ) : Type ℓ where
  ok : A → Outcome A
  panic : Fault → Outcome A

infixl 5 ◌>>=◌ ◌>>◌
abbrev pub ◌>>=◌ {ℓ κ} : {A : Type ℓ} {B : Type κ} → Outcome A → (A → Outcome B) → Outcome B
ok a >>= f = f a
panic e >>= f = panic e

abbrev pub ◌>>◌ {ℓ κ} : {A : Type ℓ} {B : Type κ} → Outcome A → Outcome B → Outcome B
m >> k = m >>= λ _. k

-- `assert!(test)`, with the fault that its failure stands for.
abbrev pub assert : Bool → Fault → Outcome (Unit {0})
assert true e = ok tt
assert false e = panic e
