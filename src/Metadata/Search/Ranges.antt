-- ===== src/Metadata/Search/Ranges.antt =====
-- `equal_range_of` on ascending cells.
use Prim.Native.Nat.{compare, Ordering}
use windows_rs.Base.{
  ℕ, zero, suc, ◌+◌, ◌-◌, ◌/◌, ◌<◌, ◌≤◌, ◌≡◌, refl, ◌==◌, Bool-cases, inl, inr, Outcome, ok, Mode,
  u32_mod, arith,
}
use windows_rs.Base.Word.{add_u32_ok, sub_u32_ok}
use windows_rs.Metadata.Search.{both_bounds, range_loop}
use windows_rs.Metadata.Search.Bounds.{lower_bound-Parts, upper_bound-Parts}

-- a..b are the rows of first..last whose cell is `value`.
pub record IsRange (g : ℕ → ℕ) (value first last a b : ℕ) : Type 0 where
  pub low : first ≤ a
  pub ordered : a ≤ b
  pub high : b ≤ last
  pub below : (i : ℕ) → first ≤ i → i < a → g i < value
  pub within : (i : ℕ) → a ≤ i → i < b → g i ≡ value
  pub above : (i : ℕ) → b ≤ i → i < last → value < g i

-- How `found.cmp(&value)` comes out.
data Compared (a b : ℕ) : Type 0 where
  less : (compare a b ≡ Ordering.lt) × (a < b) → Compared a b
  equal : (compare a b ≡ Ordering.eq) × (a ≡ b) → Compared a b
  greater : (compare a b ≡ Ordering.gt) × (b < a) → Compared a b

compare-cases : (a b : ℕ) → Compared a b
compare-cases a b =
    (elim (compare a b) as (λ o. compare a b ≡ o → Compared a b) [
      | Ordering.lt ↦ λ e. less (e, ground arith)
      | Ordering.eq ↦ λ e. equal (e, ground arith)
      | Ordering.gt ↦ λ e. greater (e, ground arith)
    ])
      refl

-- `n` rows, whose cells are read without a fault and ascend.
module _ (m : Mode) (cell : ℕ → Outcome ℕ) (g : ℕ → ℕ) (n : ℕ) (small : n < u32_mod)
    (reads : (r : ℕ) → r < n → cell r ≡ ok (g r))
    (sorted : (i j : ℕ) → i ≤ j → j < n → g i ≤ g j) where
  both_bounds-IsRange :
      (value first count middle last : ℕ)
      → first ≤ middle
      → middle < last
      → first + count ≡ last
      → last ≤ n
      → g middle ≡ value
      → (a b : ℕ) × (both_bounds m cell value first count middle ≡ ok (a, b))
        × IsRange g value first last a b
  unfolding both_bounds
  both_bounds-IsRange value first count middle last h k e l v =
      let (a, ea, pa) =
        lower_bound-Parts m cell g n small reads sorted value first middle h (omega arith) in
      let (b, eb, pb) =
        upper_bound-Parts m cell g n small reads sorted value (middle + 1) last (omega arith) l in
      (
        a,
        b,
        rw (ea, add_u32_ok m first count (omega arith), add_u32_ok m middle 1 (omega arith), e, eb),
        record {
          low = pa.low;
          ordered = omega (arith, pa.high, pb.low);
          high = pb.high;
          below = pa.below;
          within = λ i u w. grind (arith, sorted i middle, sorted middle i, pa.above i, pb.below i);
          above = λ i u w. omega (arith, pb.above i u w);
        },
      )

  IsRange-right :
      (value first middle last a b : ℕ)
      → first ≤ middle
      → middle < last
      → last ≤ n
      → g middle < value
      → IsRange g value (middle + 1) last a b
      → IsRange g value first last a b
  IsRange-right value first middle last a b h k l e p = record {
    low = omega (arith, p.low);
    ordered = p.ordered;
    high = p.high;
    below = λ i u v. grind (arith, sorted i middle, p.below i);
    within = p.within;
    above = p.above;
  }

  IsRange-left :
      (value first middle last a b : ℕ)
      → first ≤ middle
      → middle < last
      → last ≤ n
      → value < g middle
      → IsRange g value first middle a b
      → IsRange g value first last a b
  IsRange-left value first middle last a b h k l e p = record {
    low = p.low;
    ordered = p.ordered;
    high = omega (arith, p.high);
    below = p.below;
    within = p.within;
    above = λ i u v. grind (arith, sorted middle i, p.above i);
  }

  pub range_loop-IsRange :
      (value fuel first count last : ℕ)
      → count < fuel
      → first + count ≡ last
      → last ≤ n
      → (a b : ℕ) × (range_loop m cell value fuel first count ≡ ok (a, b))
        × IsRange g value first last a b
  unfolding range_loop
  range_loop-IsRange value zero first count last h e l = absurd (omega arith)
  range_loop-IsRange value (suc fuel) first count last h e l = elim (Bool-cases (count == 0)) [
    | inl done ↦ (
      first,
      first,
      rw done,
      record {
        low = omega arith;
        ordered = omega arith;
        high = omega arith;
        below = λ i u v. absurd (omega arith);
        within = λ i u v. absurd (omega arith);
        above = λ i u v. absurd (ground arith);
      },
    )
    | inr more ↦
        let middle : ℕ = first + count / 2 in
        rw (more, add_u32_ok m first (count / 2) (ground arith), reads middle (ground arith))
          (elim (compare-cases (g middle) value) [
            | less (c, lt) ↦
                let (a, b, e', p) =
                  range_loop-IsRange value fuel (middle + 1) (count - (count / 2 + 1)) last
                    (ground arith) (ground arith) l in
                rw
                  (
                    c,
                    add_u32_ok m middle 1 (ground arith),
                    add_u32_ok m (count / 2) 1 (ground arith),
                    sub_u32_ok m count (count / 2 + 1) (ground arith),
                  )
                  (
                    a,
                    b,
                    e',
                    IsRange-right value first middle last a b (omega arith) (ground arith) l lt p,
                  )
            | equal (c, eq) ↦ rw c (
                both_bounds-IsRange value first count middle last (omega arith) (ground arith) e l
                  eq)
            | greater (c, gt) ↦
                let (a, b, e', p) =
                  range_loop-IsRange value fuel first (count / 2) middle (ground arith) refl
                    (ground arith) in
                rw c (
                  a,
                  b,
                  e',
                  IsRange-left value first middle last a b (omega arith) (ground arith) l gt p,
                )
          ])
  ]
