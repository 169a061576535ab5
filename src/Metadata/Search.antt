-- ===== src/Metadata/Search.antt =====
-- The binary searches of crates/gen/src/parser/file.rs over a column of a metadata table:
-- `lower_bound_of`, `upper_bound_of`, `equal_range_of` and `equal_range`.
pub mod Bounds
pub mod Ranges
pub mod Columns
use Prim.Native.Nat.{compare}
use windows_rs.Base.{
  ℕ, zero, suc, ◌+◌, ◌-◌, ◌/◌, List, Bool, ltb, ◌==◌, if◌then◌else◌, by_order, Fault, Outcome, ok,
  panic, ◌>>=◌, Mode,
}
use windows_rs.Base.Word.{add_u32, sub_u32}
use windows_rs.Metadata.Table.{TableIndex}
use windows_rs.Metadata.File.{File, Row, u32, rows_between}

-- The loops over their variables, with the cell of a row given by `cell`. Each round takes one from
-- `count` at least, so fuel above `count` is enough.
module _ (m : Mode) (cell : ℕ → Outcome ℕ) (value : ℕ) where
  unfoldable pub lower_loop : ℕ → ℕ → ℕ → Outcome ℕ
  lower_loop zero first count = panic Fault.out_of_fuel
  lower_loop (suc fuel) first count =
      let probe = do
        let count2 = count / 2
        middle ← add_u32 m first count2
        found ← cell middle
        let upper = do
          next ← add_u32 m middle 1
          step ← add_u32 m count2 1
          rest ← sub_u32 m count step
          lower_loop fuel next rest
        let lower = lower_loop fuel first count2
        if ltb found value then upper else lower
      in if count == 0 then ok first else probe

  unfoldable pub upper_loop : ℕ → ℕ → ℕ → Outcome ℕ
  upper_loop zero first count = panic Fault.out_of_fuel
  upper_loop (suc fuel) first count =
      let probe = do
        let count2 = count / 2
        middle ← add_u32 m first count2
        found ← cell middle
        let upper = do
          next ← add_u32 m middle 1
          step ← add_u32 m count2 1
          rest ← sub_u32 m count step
          upper_loop fuel next rest
        let lower = upper_loop fuel first count2
        if ltb value found then lower else upper
      in if count == 0 then ok first else probe

  unfoldable pub lower_bound : ℕ → ℕ → Outcome ℕ
  lower_bound first last = do count ← sub_u32 m last first; lower_loop (suc count) first count

  unfoldable pub upper_bound : ℕ → ℕ → Outcome ℕ
  upper_bound first last = do count ← sub_u32 m last first; upper_loop (suc count) first count

  -- The `Equal` case of the loop: both ends of the run of equal cells around `middle`.
  unfoldable pub both_bounds : ℕ → ℕ → ℕ → Outcome (ℕ × ℕ)
  both_bounds first count middle = do
    first2 ← lower_bound first middle
    end ← add_u32 m first count
    next ← add_u32 m middle 1
    last ← upper_bound next end
    ok (first2, last)

  unfoldable pub range_loop : ℕ → ℕ → ℕ → Outcome (ℕ × ℕ)
  range_loop zero first count = panic Fault.out_of_fuel
  range_loop (suc fuel) first count =
      let probe = do
        let count2 = count / 2
        middle ← add_u32 m first count2
        found ← cell middle
        let less = do
          next ← add_u32 m middle 1
          step ← add_u32 m count2 1
          rest ← sub_u32 m count step
          range_loop fuel next rest
        let greater = range_loop fuel first count2
        let equal = both_bounds first count middle
        by_order (compare found value) less equal greater
      in if count == 0 then ok (first, first) else probe

module _ (m : Mode) (f : File) (table : TableIndex) (first last column value : ℕ) where
  unfoldable pub lower_bound_of : Outcome ℕ
  unfolding lower_bound lower_loop
  lower_bound_of = lower_bound m (λ row. u32 m f row table column) value first last

  unfoldable pub upper_bound_of : Outcome ℕ
  unfolding upper_bound upper_loop
  upper_bound_of = upper_bound m (λ row. u32 m f row table column) value first last

  unfoldable pub equal_range_of : Outcome (ℕ × ℕ)
  unfolding range_loop both_bounds lower_bound upper_bound lower_loop upper_loop
  equal_range_of = do
    count ← sub_u32 m last first
    range_loop m (λ row. u32 m f row table column) value (suc count) first count

unfoldable pub equal_range : Mode → File → TableIndex → ℕ → ℕ → Outcome (List Row)
unfolding equal_range_of
equal_range m f table column value = do
  ends ← equal_range_of m f table 0 (f.tables table).row_count column value
  ok (rows_between ends.0 ends.1 table f)
