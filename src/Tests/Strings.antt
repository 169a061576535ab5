-- ===== src/Tests/Strings.antt =====
-- Two handles to one string, in a new heap.
use windows_rs.Base.{refl, List, [], ◌∷◌, none, trap, arith}
use windows_rs.Runtime.HString.{Heap}
use windows_rs.Runtime.HString.Strings.{Represents}
use windows_rs.Runtime.HString.Runs.{Operation, make, copy, wipe, run, StandsFor, run-StandsFor}

abbrev new_heap : Heap
new_heap = record { next = 1; junk = 7; block = λ a. none }

new_heap-Represents : Represents new_heap [] []
new_heap-Represents = record {
  held = λ i a g. cc;
  counted = λ a h b. cc;
  fresh = λ a l. refl;
  positive = omega arith;
}

-- A string, its clone, and the clearing of the first.
abbrev three_operations : List Operation
three_operations = make (72 ∷ 105 ∷ []) ∷ copy 0 ∷ wipe 1 ∷ []

run-StandsFor_example :
    StandsFor (run trap three_operations (new_heap, [])) ((72 ∷ 105 ∷ []) ∷ [] ∷ [])
run-StandsFor_example =
    run-StandsFor trap three_operations new_heap [] [] ((72 ∷ 105 ∷ []) ∷ [] ∷ [])
      new_heap-Represents refl (omega arith, (tt, (tt, tt)))
      (omega arith, (omega arith, (omega arith, tt))) refl
