-- ===== src/Tests/Kinds.antt =====
-- Names with a tick, and the kind of a type in the file of two definitions.
use windows_rs.Base.{◌≡◌, [], ◌∷◌, ◌++◌, ok, trap, arith}
use windows_rs.Base.Text.{text}
use windows_rs.Reader.WellKnown.{trim_tick}
use windows_rs.Reader.WellKnown.Ticks.{too_short, trim_tick-branches}

-- The names IMap`2, IMapA2 and A.
trim_tick-branches_example :
    (trim_tick trap (text "IMap" ++ (96 ∷ 50 ∷ [])) ≡ ok (text "IMap"))
    × (trim_tick trap (text "IMap" ++ (65 ∷ 50 ∷ [])) ≡ ok (text "IMap" ++ (65 ∷ 50 ∷ [])))
    × (trim_tick trap (text "A") ≡ too_short trap (text "A"))
trim_tick-branches_example =
    trim_tick-branches trap (text "IMap") (text "A") 65 50 (λ e. absurd (omega arith)) (omega arith)
