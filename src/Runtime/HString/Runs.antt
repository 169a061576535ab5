-- ===== src/Runtime/HString/Runs.antt =====
-- Sequences of operations on strings: a list of handles, against the list of the strings that they stand for.
use windows_rs.Base.{
  ℕ, zero, suc, ◌+◌, ◌<◌, List, [], ◌∷◌, ◌≡◌, refl, sym, ◌∙◌, Option, none, some, inl, inr, length,
  get_elem?, set, Outcome, ok, panic, ◌>>=◌, Mode, Fault, u32_mod, arith, All, false,
}
use mathlib.Core.Option.{some-injective}
use windows_rs.Base.OrderedMap.{Option-cases, map_some}
use windows_rs.Runtime.RefCount.{i32_limit}
use windows_rs.Runtime.HString.{Heap, from_wide, clear, clone}
use windows_rs.Runtime.HString.Strings.{Represents}
use windows_rs.Runtime.HString.Sharing.{from_wide-Represents, clone-Represents}
use windows_rs.Runtime.HString.Clearing.{clear-Represents}

-- A new string, a clone of a handle, and the clearing of one.
pub data Operation : Type 0 where
  make : List ℕ → Operation
  copy : ℕ → Operation
  wipe : ℕ → Operation

-- On the heap and the handles, the newest first.
unfoldable pub exec : Mode → Operation → Heap × List ℕ → Outcome (Heap × List ℕ)
unfolding from_wide clone clear
exec m (make v) (heap, hs) = do (at, heap') ← from_wide m false v heap; ok (heap', at ∷ hs)
exec m (copy i) (heap, hs) = elim (get_elem? hs i) [
  | none ↦ panic Fault.out_of_bounds
  | some at ↦ (do (to, heap') ← clone m false heap at; ok (heap', to ∷ hs))
]
exec m (wipe i) (heap, hs) = elim (get_elem? hs i) [
  | none ↦ panic Fault.out_of_bounds
  | some at ↦ (do (left, heap') ← clear m heap at; ok (heap', set hs i left))
]

unfoldable pub run : Mode → List Operation → Heap × List ℕ → Outcome (Heap × List ℕ)
unfolding exec
run m [] state = ok state
run m (op ∷ ops) state = do next ← exec m op state; run m ops next

-- On the strings themselves; none where no handle has that place.
abbrev pub apply : Operation → List (List ℕ) → Option (List (List ℕ))
apply (make v) vs = some (v ∷ vs)
apply (copy i) vs = map_some (λ v. v ∷ vs) (get_elem? vs i)
apply (wipe i) vs = map_some (λ v. set vs i []) (get_elem? vs i)

abbrev pub apply_all : List Operation → List (List ℕ) → Option (List (List ℕ))
apply_all [] vs = some vs
apply_all (op ∷ ops) vs = elim (apply op vs) [ none ↦ none | some next ↦ apply_all ops next ]

-- There are fewer than 2 ^ 31 - 1 handles before each operation.
abbrev pub AreFew : List Operation → List (List ℕ) → Type 0
AreFew [] vs = Unit
AreFew (op ∷ ops) vs =
    (length vs + 1 < i32_limit) × (elim (apply op vs) [ none ↦ Unit | some next ↦ AreFew ops next ])

-- A new string is shorter than 2 ^ 32.
abbrev pub IsShort : Operation → Type 0
IsShort (make v) = length v < u32_mod
IsShort _ = Unit

length-set_any : {A : Type 0} (l : List A) (i : ℕ) (v : A) → length (set l i v) ≡ length l
length-set_any [] i v = refl
length-set_any (x ∷ l) zero v = refl
length-set_any (x ∷ l) (suc i) v = omega (arith, length-set_any l i v)

-- Lists of the same length have the same places.
get_elem?-other :
    {A B : Type 0} (l : List A) (l' : List B) (i : ℕ) (a : A)
    → length l ≡ length l'
    → get_elem? l i ≡ some a
    → (b : B) × (get_elem? l' i ≡ some b)
get_elem?-other [] l' i a e g = cc
get_elem?-other (x ∷ l) [] i a e g = absurd (omega arith)
get_elem?-other (x ∷ l) (y ∷ l') zero a e g = (y, refl)
get_elem?-other (x ∷ l) (y ∷ l') (suc i) a e g = get_elem?-other l l' i a (omega arith) g

-- A state of handles that stand for these strings.
abbrev pub StandsFor : Outcome (Heap × List ℕ) → List (List ℕ) → Type 0
StandsFor o vs =
    (heap : Heap) × (hs : List ℕ) × (o ≡ ok (heap, hs))
    × (length vs ≡ length hs)
    × Represents heap hs vs

map_some_cases :
    {A B : Type 0} (f : A → B) (o : Option A) (b : B)
    → map_some f o ≡ some b
    → (a : A) × (o ≡ some a) × (f a ≡ b)
map_some_cases f none b e = cc
map_some_cases f (some a) b e = (a, refl, some-injective (f a) b e)

exec-copy :
    (m : Mode) (i : ℕ) (heap heap' : Heap) (hs : List ℕ) (at to : ℕ)
    → get_elem? hs i ≡ some at
    → clone m false heap at ≡ ok (to, heap')
    → exec m (copy i) (heap, hs) ≡ ok (heap', to ∷ hs)
unfolding exec
exec-copy m i heap heap' hs at to g o = rw (exec, g, o) refl

exec-wipe :
    (m : Mode) (i : ℕ) (heap heap' : Heap) (hs : List ℕ) (at : ℕ)
    → get_elem? hs i ≡ some at
    → clear m heap at ≡ ok (0, heap')
    → exec m (wipe i) (heap, hs) ≡ ok (heap', set hs i 0)
unfolding exec
exec-wipe m i heap heap' hs at g o = rw (exec, g, o) refl

exec-StandsFor :
    (m : Mode) (op : Operation) (heap : Heap) (hs : List ℕ) (vs next : List (List ℕ))
    → Represents heap hs vs
    → length vs ≡ length hs
    → IsShort op
    → length hs + 1 < i32_limit
    → apply op vs ≡ some next
    → StandsFor (exec m op (heap, hs)) next
unfolding exec
exec-StandsFor m (make v) heap hs vs next r l short few e =
    let (at, heap', o, r') = from_wide-Represents m v heap hs vs r short in
    let q = some-injective (v ∷ vs) next e in
    rw (sym q) (heap', at ∷ hs, rw o refl, omega arith, r')
exec-StandsFor m (copy i) heap hs vs next r l short few e =
    let (v, g, q) = map_some_cases (λ v. v ∷ vs) (get_elem? vs i) next e in
    let (at, g') = get_elem?-other vs hs i v l g in
    let (to, heap', v', w, o, r') = clone-Represents m heap hs vs i at r g' few in
    let same : v' ≡ v = some-injective v' v (sym w ∙ g) in
    rw (sym q)
      (heap', to ∷ hs, exec-copy m i heap heap' hs at to g' o, omega arith, rw (sym same) r')
exec-StandsFor m (wipe i) heap hs vs next r l short few e =
    let (v, g, q) = map_some_cases (λ v. set vs i []) (get_elem? vs i) next e in
    let (at, g') = get_elem?-other vs hs i v l g in
    let (heap', o, r') = clear-Represents m heap hs vs i at r g' (omega arith) in
    let a = length-set_any vs i [] in
    let b = length-set_any hs i 0 in
    rw (sym q) (heap', set hs i 0, exec-wipe m i heap heap' hs at g' o, a ∙ l ∙ sym b, r')

-- Where each operation is at a place that is there, new strings are shorter than 2 ^ 32 units, allocations succeed, and
-- there are fewer than 2 ^ 31 - 1 handles before each operation, in any build: a sequence of operations on handles returns, and
-- its handles then stand for the strings that the same operations on plain strings give, each block counted as often as
-- a handle names it.
pub run-StandsFor :
    (m : Mode) (ops : List Operation) (heap : Heap) (hs : List ℕ) (vs last : List (List ℕ))
    → Represents heap hs vs
    → length vs ≡ length hs
    → All IsShort ops
    → AreFew ops vs
    → apply_all ops vs ≡ some last
    → StandsFor (run m ops (heap, hs)) last
unfolding run
run-StandsFor m [] heap hs vs last r l short few e =
    let same = some-injective vs last e in rw (sym same) (heap, hs, refl, l, r)
run-StandsFor m (op ∷ ops) heap hs vs last r l (short, shorts) few e =
    elim (Option-cases (apply op vs)) [
      | inl q ↦ let e' = rw (apply_all, q) at e in cc
      | inr (next, q) ↦
          let e' = rw (apply_all, q) at e in
          let (heap', hs', o, l', r') =
            exec-StandsFor m op heap hs vs next r l short (omega (arith, few.0)) q in
          rw o (
            run-StandsFor m ops heap' hs' next last r' l' shorts
              (let later = rw q at few.1 in later) e')
    ]
