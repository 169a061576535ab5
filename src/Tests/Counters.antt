-- ===== src/Tests/Counters.antt =====
-- Histories of one object whose tear-off stands at 4096, and a spin of `add_ref`.
use windows_rs.Base.{
  ◌≡◌, ◌↔◌, ◌+◌, refl, true, false, none, [], ◌∷◌, List, ok, All, trap, wrap, arith,
}
use windows_rs.Runtime.WeakRefCount.{Shared, is_weak_ref, encode, decode, new}
use windows_rs.Runtime.WeakRefCount.Encoding.{decode-encode_address}
use windows_rs.Runtime.WeakRefCount.References.{
  Represents, Op, drop_strong, take_weak, drop_weak, ask_source, ask_upgrade,
}
use windows_rs.Runtime.WeakRefCount.Traces.{run_all, trace-Represents}
use windows_rs.Runtime.WeakRefCount.Spin.{
  Round, Fails, add_ref_loop, still_spinning, still_spinning-Fails,
}

decode-encode_address_example : (is_weak_ref (encode 4096) ≡ true) × (decode (encode 4096) ≡ 4096)
decode-encode_address_example = decode-encode_address 4096 (omega arith, refl)

-- The object is asked for its source, hands out a weak reference and is let go of; the tear-off
-- outlives it until the weak reference is dropped.
abbrev history : List Op
history =
    ask_source 4096 ∷ take_weak ∷ drop_strong ∷ drop_strong ∷ ask_upgrade true ∷ drop_weak ∷ []

trace-Represents_example :
    (s : Shared) × (run_all trap history new ≡ ok s)
    × Represents s true 0 0
    × (true ≡ true → (s.tear_off ≡ none) ↔ (0 + 0 ≡ 0))
trace-Represents_example =
    trace-Represents trap history true 0 0 refl
      ((omega arith, refl), (tt, (tt, (tt, (tt, (tt, tt))))))
      (
        (omega arith, omega arith),
        (
          (omega arith, omega arith),
          (
            (omega arith, omega arith),
            (
              (omega arith, omega arith),
              ((omega arith, omega arith), ((omega arith, omega arith), tt)),
            ),
          ),
        ),
      )

-- Another thread has replaced the count that was loaded.
abbrev replaced : List Round
replaced = record { word = 2; spurious = false } ∷ record { word = 3; spurious = false } ∷ []

still_spinning-Fails_example :
    (add_ref_loop wrap 1 replaced ≡ ok still_spinning) ↔ All (Fails 1) replaced
still_spinning-Fails_example = still_spinning-Fails wrap 1 replaced (omega arith)
