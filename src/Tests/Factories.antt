-- ===== src/Tests/Factories.antt =====
-- Threads that share a factory, and the search for one in libraries.
use windows_rs.Base.{ℕ, ◌≡◌, refl, List, [], ◌∷◌, All, none, some, if◌then◌else◌, ok}
use windows_rs.Base.Text.{text, same_text}
use windows_rs.Runtime.HResult.{good, is_ok, and_some, from_code}
use windows_rs.Runtime.FactoryCache.{Phase, Cache, Choice, new, run}
use windows_rs.Runtime.FactoryCache.References.{cached, Keeps}
use windows_rs.Runtime.FactoryCache.Counts.{AreSound, IsDone, starting, run-AreSound, run-released}
use windows_rs.Runtime.FactoryCache.Alone as Alone
use windows_rs.Runtime.FactoryCache.Alone.{turns, nothing_shared, run-turns}
use windows_rs.Runtime.Factory.{System, activation, factory}
use windows_rs.Runtime.Factory.Search.{prefixes, first_library, factory-prefixes}

-- Two threads make a factory each; the first one's is shared, and the second one's dropped.
abbrev both : List (ℕ × Choice)
both =
    (0, Alone.good)
    ∷ (1, Alone.good)
    ∷ (0, Alone.good)
    ∷ (1, Alone.good)
    ∷ (0, Alone.good)
    ∷ (1, Alone.good)
    ∷ (0, Alone.good)
    ∷ (1, Alone.good)
    ∷ (0, Alone.good)
    ∷ (0, Alone.good)
    ∷ (1, Alone.good)
    ∷ (1, Alone.good)
    ∷ []

abbrev two : List Phase
two = starting 2

run-AreSound_example :
    (threads : List Phase) × (c : Cache) × (run both two new ≡ ok (threads, c))
    × AreSound (λ g. 0) threads c
    × Keeps none c.shared
run-AreSound_example =
    run-AreSound (λ g. 0) both two new
      (record { counted = λ g. refl; fresh = λ g h. refl; known = (tt, (tt, tt)) })

run-released_example :
    (threads : List Phase) × (c : Cache) × (run both (starting 2) new ≡ ok (threads, c))
    × (All IsDone threads → (g : ℕ) → c.refs g ≡ cached g c.shared)
run-released_example = run-released 2 both

run-turns_example :
    (c : Cache) × (run (turns 2) (Phase.loading ∷ []) (nothing_shared (λ g. 0) 0)
      ≡ ok (Phase.returned 2 ∷ [], c))
    × (c.shared ≡ some 2)
    × (c.refs 2 ≡ 1)
run-turns_example = run-turns 2 (λ g. 0) 0

-- Nothing is registered; of the libraries `A.B.dll` and `A.dll`, the first is missing.
abbrev offline : System ℕ ℕ ℕ
offline = record {
  activate = (0x8004_0154, none);
  activate_again = (0x8004_0154, none);
  load = λ path. if same_text path (text "A.dll") then some 7 else none;
  address = λ library. some 1;
  last_error = 126;
  export = λ address. some 5;
  cast = λ g. good g;
  thread = record { restricted = none; description = none; originated = λ code message. none };
}

factory-prefixes_example :
    factory offline (text "A.B.C") []
    ≡ ok (
        if is_ok (activation offline).0
        then (and_some offline.thread (activation offline).0 (activation offline).1, [])
        else first_library offline
            (from_code offline.thread (activation offline).0)
            (prefixes (text "A.B.C"))
            [])
factory-prefixes_example = factory-prefixes offline (text "A.B.C") []
