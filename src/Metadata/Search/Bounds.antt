-- ===== src/Metadata/Search/Bounds.antt =====
-- `lower_bound_of` and `upper_bound_of` on ascending cells.
use windows_rs.Base.{
  ℕ, zero, suc, ◌+◌, ◌-◌, ◌/◌, ◌<◌, ◌≤◌, ◌≡◌, refl, ltb, ◌==◌, true, false, Bool-cases, inl, inr,
  Outcome, ok, Mode, u32_mod, arith,
}
use windows_rs.Base.Word.{add_u32_ok, sub_u32_ok}
use windows_rs.Metadata.Search.{lower_loop, upper_loop, lower_bound, upper_bound}

-- `r` parts first..last into cells below `value` and cells not below it.
pub record Parts (g : ℕ → ℕ) (value first last r : ℕ) : Type 0 where
  pub low : first ≤ r
  pub high : r ≤ last
  pub below : (i : ℕ) → first ≤ i → i < r → g i < value
  pub above : (i : ℕ) → r ≤ i → i < last → value ≤ g i

-- `n` rows, whose cells are read without a fault and ascend.
module _ (m : Mode) (cell : ℕ → Outcome ℕ) (g : ℕ → ℕ) (n : ℕ) (small : n < u32_mod)
    (reads : (r : ℕ) → r < n → cell r ≡ ok (g r))
    (sorted : (i j : ℕ) → i ≤ j → j < n → g i ≤ g j) where
  Parts-right :
      (value first middle last r : ℕ)
      → first ≤ middle
      → middle < last
      → last ≤ n
      → g middle < value
      → Parts g value (middle + 1) last r
      → Parts g value first last r
  Parts-right value first middle last r h k l e p = record {
    low = omega (arith, p.low);
    high = p.high;
    below = λ i u v. grind (arith, sorted i middle, p.below i);
    above = p.above;
  }

  Parts-left :
      (value first middle last r : ℕ)
      → first ≤ middle
      → middle < last
      → last ≤ n
      → value ≤ g middle
      → Parts g value first middle r
      → Parts g value first last r
  Parts-left value first middle last r h k l e p = record {
    low = p.low;
    high = omega (arith, p.high);
    below = p.below;
    above = λ i u v. grind (arith, sorted middle i, p.above i);
  }

  lower_loop-Parts :
      (value fuel first count last : ℕ)
      → count < fuel
      → first + count ≡ last
      → last ≤ n
      → (r : ℕ) × (lower_loop m cell value fuel first count ≡ ok r) × Parts g value first last r
  unfolding lower_loop
  lower_loop-Parts value zero first count last h e l = absurd (omega arith)
  lower_loop-Parts value (suc fuel) first count last h e l = elim (Bool-cases (count == 0)) [
    | inl done ↦ (
      first,
      rw done,
      record {
        low = omega arith;
        high = omega arith;
        below = λ i u v. absurd (omega arith);
        above = λ i u v. absurd (ground arith);
      },
    )
    | inr more ↦
        rw
          (
            more,
            add_u32_ok m first (count / 2) (ground arith),
            reads (first + count / 2) (ground arith),
          )
          (elim (Bool-cases (ltb (g (first + count / 2)) value)) [
            | inl under ↦
                rw
                  (
                    under,
                    add_u32_ok m (first + count / 2) 1 (ground arith),
                    add_u32_ok m (count / 2) 1 (ground arith),
                    sub_u32_ok m count (count / 2 + 1) (ground arith),
                  )
                  (let (r, e', p) =
                      lower_loop-Parts value fuel (first + count / 2 + 1) (count - (count / 2 + 1))
                        last (ground arith) (ground arith) l in
                    (
                      r,
                      e',
                      Parts-right value first (first + count / 2) last r (omega arith)
                          (ground arith) l (ground arith) p,
                    ))
            | inr not_less ↦ rw not_less (
                let (r, e', p) =
                  lower_loop-Parts value fuel first (count / 2) (first + count / 2) (ground arith)
                    refl (ground arith) in
                (
                  r,
                  e',
                  Parts-left value first (first + count / 2) last r (omega arith) (ground arith) l
                      (ground arith) p,
                ))
          ])
  ]

  -- The other search looks for the first cell above `value`.
  upper_loop-eq-lower_loop :
      (value fuel first count : ℕ)
      → first + count ≤ n
      → upper_loop m cell value fuel first count ≡ lower_loop m cell (value + 1) fuel first count
  unfolding upper_loop lower_loop
  upper_loop-eq-lower_loop value zero first count l = refl
  upper_loop-eq-lower_loop value (suc fuel) first count l = elim (Bool-cases (count == 0)) [
    | inl done ↦ rw done
    | inr more ↦
        let middle : ℕ = first + count / 2 in
        rw (more, add_u32_ok m first (count / 2) (ground arith), reads middle (ground arith))
          (elim (Bool-cases (ltb value (g middle))) [
            | inl above ↦
                let same : ltb (g middle) (value + 1) ≡ false = ground arith in
                rw (above, same)
                  (upper_loop-eq-lower_loop value fuel first (count / 2) (ground arith))
            | inr not_above ↦
                let same : ltb (g middle) (value + 1) ≡ true = ground arith in
                rw
                  (
                    not_above,
                    same,
                    add_u32_ok m middle 1 (ground arith),
                    add_u32_ok m (count / 2) 1 (ground arith),
                    sub_u32_ok m count (count / 2 + 1) (ground arith),
                  )
                  (upper_loop-eq-lower_loop value fuel (middle + 1) (count - (count / 2 + 1))
                    (ground arith))
          ])
  ]

  pub lower_bound-Parts :
      (value first last : ℕ)
      → first ≤ last
      → last ≤ n
      → (r : ℕ) × (lower_bound m cell value first last ≡ ok r) × Parts g value first last r
  unfolding lower_bound
  lower_bound-Parts value first last h l = rw (sub_u32_ok m last first h) (
      lower_loop-Parts value (suc (last - first)) first (last - first) last (omega arith)
        (omega arith) l)

  pub upper_bound-Parts :
      (value first last : ℕ)
      → first ≤ last
      → last ≤ n
      → (r : ℕ) × (upper_bound m cell value first last ≡ ok r) × Parts g (value + 1) first last r
  unfolding upper_bound
  upper_bound-Parts value first last h l =
      rw
        (
          sub_u32_ok m last first h,
          upper_loop-eq-lower_loop value (suc (last - first)) first (last - first) (omega arith),
        )
        (lower_loop-Parts (value + 1) (suc (last - first)) first (last - first) last (omega arith)
          (omega arith) l)
