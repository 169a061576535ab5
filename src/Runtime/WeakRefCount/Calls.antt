-- ===== src/Runtime/WeakRefCount/Calls.antt =====
-- Each call of a client keeps what the counters stand for.
use windows_rs.Base.{
  ℕ, zero, suc, ◌+◌, ◌-◌, ◌<◌, ◌≡◌, subst, Bool, true, false, if◌then◌else◌, Option, none, some, ok,
  Mode, arith,
}
use windows_rs.Runtime.RefCount.{i32_limit}
use windows_rs.Runtime.WeakRefCount.{Shared}
use windows_rs.Runtime.WeakRefCount.Encoding.{IsAddress, decode-encode_address}
use windows_rs.Runtime.WeakRefCount.Methods.{
  torn_state, count_state, after_weak, add_ref-torn, add_ref-counting, release-counting,
  release-torn, release-torn_last, weak_release-torn, query-counting, query-torn, downgrade-torn,
  upgrade-torn_gone, upgrade-torn,
}
use windows_rs.Runtime.WeakRefCount.References.{
  shared_weak, Represents, counting, torn, freed, Op, take_strong, drop_strong, take_weak,
  drop_weak, ask_source, ask_upgrade, held, run, HasRoom, IsAllocated,
}

-- What is left of the tear-off when no strong reference is.
left : (p k w : ℕ) → IsAddress p → k ≡ w → Represents (after_weak p 0 k) true 0 w
left p zero zero a e = freed p a
left p zero (suc w) a e = absurd (omega arith)
left p (suc k) zero a e = absurd (omega arith)
left p (suc k) (suc w) a e = torn p 0 (suc w) k a (omega arith)

abbrev Steps : Mode → Op → Shared → Bool → ℕ → ℕ → Type 0
Steps m op s b n w = (s' : Shared) × (run m op s ≡ ok s') × Represents s' b n w

run_take_strong :
    (m : Mode) (s : Shared) (b : Bool) (n w : ℕ)
    → Represents s b (suc n) w
    → HasRoom (suc n) w
    → Steps m take_strong s b (suc (suc n)) w
unfolding run
run_take_strong m _ b n w (counting _) (h, h') =
    let more : suc n + 1 ≡ suc (suc n) = omega arith in
    (
      count_state (suc (suc n)),
      rw (add_ref-counting m (suc n) (omega arith), more),
      counting (suc (suc n)),
    )
run_take_strong m _ b n w (torn p _ _ k a e) (h, h') =
    let more : suc n + 1 ≡ suc (suc n) = omega arith in
    (
      torn_state p (suc (suc n)) (suc k),
      rw (add_ref-torn m p (suc n) (suc k) a (omega arith), more),
      torn p (suc (suc n)) w k a e,
    )

run_drop_strong :
    (m : Mode) (s : Shared) (b : Bool) (n w : ℕ)
    → Represents s b (suc n) w
    → HasRoom (suc n) w
    → Steps m drop_strong s b n w
unfolding run
run_drop_strong m _ b n w (counting _) (h, h') =
    let less : suc n - 1 ≡ n = omega arith in
    (count_state n, rw (release-counting m (suc n) (omega arith) (omega arith), less), counting n)
run_drop_strong m _ b (suc n) w (torn p _ _ k a e) (h, h') = (
  torn_state p (suc n) (suc k),
  rw (release-torn m p n (suc k) a (omega arith)),
  torn p (suc n) w k a e,
)
run_drop_strong m _ b zero w (torn p _ _ k a e) (h, h') =
    (after_weak p 0 k, rw (release-torn_last m p k a (omega arith)), left p k w a (omega arith))

run_ask_source :
    (m : Mode) (s : Shared) (b : Bool) (n w p : ℕ)
    → IsAddress p
    → Represents s b (suc n) w
    → HasRoom (suc n) w
    → Steps m (ask_source p) s true (suc (suc n)) w
unfolding run
run_ask_source m _ b n w p a (counting _) (h, h') =
    let more : suc n + 1 ≡ suc (suc n) = omega arith in
    (
      torn_state p (suc (suc n)) 1,
      rw (query-counting m (suc n) p (omega arith), more),
      torn p (suc (suc n)) 0 0 a (omega arith),
    )
run_ask_source m _ b n w p a (torn q _ _ k a' e) (h, h') =
    let more : suc n + 1 ≡ suc (suc n) = omega arith in
    (
      torn_state q (suc (suc n)) (suc k),
      rw (query-torn m q (suc n) (suc k) p a' (omega arith), more),
      torn q (suc (suc n)) w k a' e,
    )

-- The weak count holds the references of clients and the shared one.
weak_room : (n w k : ℕ) → w + shared_weak n ≡ suc k → HasRoom n w → suc k + 1 < i32_limit
weak_room zero w k e (h, h') = omega arith
weak_room (suc n) w k e (h, h') = omega arith

run_take_weak :
    (m : Mode) (p n w k : ℕ)
    → IsAddress p
    → w + shared_weak n ≡ suc k
    → HasRoom n w
    → Steps m take_weak (torn_state p n (suc k)) true n (suc w)
unfolding run
run_take_weak m p n w k a e room =
    let more : suc k + 1 ≡ suc (suc k) = omega arith in
    (
      torn_state p n (suc (suc k)),
      rw (
        (decode-encode_address p a).1,
        downgrade-torn m p n (suc k) (weak_room n w k e room),
        more,
      ),
      torn p n (suc w) (suc k) a (omega arith),
    )

run_drop_weak :
    (m : Mode) (p n w k : ℕ)
    → IsAddress p
    → suc w + shared_weak n ≡ suc k
    → HasRoom n (suc w)
    → Steps m drop_weak (torn_state p n (suc k)) true n w
unfolding run
run_drop_weak m p zero w k a e room = (
  after_weak p 0 k,
  rw (
    (decode-encode_address p a).1,
    weak_release-torn m p 0 k (omega (arith, weak_room zero (suc w) k e room)),
  ),
  left p k w a (omega arith),
)
run_drop_weak m p (suc n) w zero a e room = absurd (omega arith)
run_drop_weak m p (suc n) w (suc k) a e room = (
  torn_state p (suc n) (suc k),
  rw (
    (decode-encode_address p a).1,
    weak_release-torn m p (suc n) (suc k) (omega (arith, weak_room (suc n) (suc w) (suc k) e room)),
  ),
  torn p (suc n) w k a (omega arith),
)

run_ask_upgrade :
    (m : Mode) (p n w k : ℕ) (supported : Bool)
    → IsAddress p
    → w + shared_weak (suc n) ≡ suc k
    → HasRoom (suc n) w
    → Steps m
        (ask_upgrade supported)
        (torn_state p (suc n) (suc k))
        true
        (if supported then suc (suc n) else suc n)
        w
unfolding run
run_ask_upgrade m p n w k true a e (h, h') = (
  torn_state p (suc (suc n)) (suc k),
  rw ((decode-encode_address p a).1, upgrade-torn m p n (suc k) true a (omega arith)),
  torn p (suc (suc n)) w k a e,
)
run_ask_upgrade m p n w k false a e (h, h') = (
  torn_state p (suc n) (suc k),
  rw ((decode-encode_address p a).1, upgrade-torn m p n (suc k) false a (omega arith)),
  torn p (suc n) w k a e,
)

run_ask_upgrade_gone :
    (m : Mode) (p w k : ℕ) (supported : Bool)
    → IsAddress p
    → w + 0 ≡ suc k
    → Steps m (ask_upgrade supported) (torn_state p 0 (suc k)) true 0 w
unfolding run
run_ask_upgrade_gone m p w k supported a e = (
  torn_state p 0 (suc k),
  rw ((decode-encode_address p a).1, upgrade-torn_gone m p (suc k) supported),
  torn p 0 w k a e,
)

abbrev Allowed : Mode → Op → Shared → Option (Bool × ℕ × ℕ) → Type 0
Allowed m op s none = Unit
Allowed m op s (some (b, n, w)) = Steps m op s b n w

run-Allowed :
    (m : Mode) (op : Op) (s : Shared) (b : Bool) (n w : ℕ)
    → Represents s b n w
    → HasRoom n w
    → IsAllocated op
    → Allowed m op s (held op b n w)
run-Allowed m take_strong s b zero w r room a = tt
run-Allowed m take_strong s b (suc n) w r room a = run_take_strong m s b n w r room
run-Allowed m drop_strong s b zero w r room a = tt
run-Allowed m drop_strong s b (suc n) w r room a = run_drop_strong m s b n w r room
run-Allowed m (ask_source p) s b zero w r room a = tt
run-Allowed m (ask_source p) s b (suc n) w r room a = run_ask_source m s b n w p a r room
run-Allowed m take_weak s false n w r room a = tt
run-Allowed m take_weak s true zero zero r room a = tt
run-Allowed m take_weak _ true zero (suc w) (torn p _ _ k a e) room _ =
    run_take_weak m p zero (suc w) k a e room
run-Allowed m take_weak _ true (suc n) w (torn p _ _ k a e) room _ =
    run_take_weak m p (suc n) w k a e room
run-Allowed m drop_weak s false n w r room a = tt
run-Allowed m drop_weak s true n zero r room a = tt
run-Allowed m drop_weak _ true n (suc w) (torn p _ _ k a e) room _ =
    run_drop_weak m p n w k a e room
run-Allowed m (ask_upgrade supported) s false n w r room a = tt
run-Allowed m (ask_upgrade supported) s true zero zero r room a = tt
run-Allowed m (ask_upgrade supported) s true (suc n) zero r room a = tt
run-Allowed m (ask_upgrade supported) _ true zero (suc w) (torn p _ _ k a e) room _ =
    run_ask_upgrade_gone m p (suc w) k supported a e
run-Allowed m (ask_upgrade supported) _ true (suc n) (suc w) (torn p _ _ k a e) room _ =
    run_ask_upgrade m p n (suc w) k supported a e room

-- What a client may do with the references that it holds, each method does without a fault, and the
-- counters stand for the references that are held afterwards.
pub run-Represents :
    (m : Mode) (op : Op) (s : Shared) (b b' : Bool) (n w n' w' : ℕ)
    → Represents s b n w
    → held op b n w ≡ some (b', n', w')
    → HasRoom n w
    → IsAllocated op
    → (s' : Shared) × (run m op s ≡ ok s') × Represents s' b' n' w'
run-Represents m op s b b' n w n' w' r e room a =
    subst (Allowed m op s) e (run-Allowed m op s b n w r room a)
