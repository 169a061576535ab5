-- ===== src/Metadata/Table/Width.antt =====
-- How wide `composite_index_size` makes a coded index.
use windows_rs.Base.{
  ℕ, zero, suc, ◌+◌, ◌-◌, ◌*◌, ◌/◌, ◌^◌, ◌≤◌, ◌<◌, ◌≡◌, refl, List, [], ◌∷◌, true, false, ltb, ◌==◌,
  ok, length, All, Mode, u64_mod, Bool-cases, arith, ◌⊎◌, inl, inr, ap, ◌↔◌,
}
use windows_rs.Base.Word.{sub_at_ok, shl_one_u64_ok}
use windows_rs.Base.Power.{two_pow-split, two_pow-pos, lt_of_two_pow-lt}
use native.Mathlib.Nat.{two-pow-succ, mul-le-mul_right}
use native.Mathlib.Decide.{dec_lt}
use windows_rs.Metadata.Table.{
  TableData, bits_loop, bits_needed, small, all_small, composite_index_size,
}

-- `k` halvings bring `value` to 0 or 1.
abbrev Halves : ℕ → ℕ → Type 0
Halves value k = (value < 2 ^ suc k) × ((k ≡ 0) ⊎ (2 ^ k ≤ value))

Halves-half : (value k : ℕ) → 0 < value / 2 → Halves (value / 2) k → Halves value (suc k)
Halves-half value k h (below, above) = (
  omega (arith, two-pow-succ (suc k)),
  elim above [ inl e ↦ inr (rw e (omega arith)) | inr p ↦ inr (omega (arith, two-pow-succ k)) ],
)

bits_loop-Halves :
    (fuel value bits : ℕ)
    → value ≤ fuel
    → (k : ℕ) × (bits_loop fuel value bits ≡ bits + k) × Halves value k
unfolding bits_loop
bits_loop-Halves zero value bits h = (0, omega arith, (omega arith, inl refl))
bits_loop-Halves (suc fuel) value bits h = elim (Bool-cases (value / 2 == 0)) [
  | inl done ↦ (0, rw done (omega arith), (ground arith, inl refl))
  | inr more ↦
      let (k, e, p) = bits_loop-Halves fuel (value / 2) (bits + 1) (ground arith) in
      (suc k, rw (more, e) (omega arith), Halves-half value k (ground arith) p)
]

-- `b` is the least number of bits, 1 at least, that tells `count` things apart.
abbrev pub IsLeast : ℕ → ℕ → Type 0
IsLeast count b = (1 ≤ b) × (count ≤ 2 ^ b) × ((b ≡ 1) ⊎ (2 ^ (b - 1) < count))

pub bits_needed-IsLeast :
    (m : Mode) (count : ℕ) → 2 ≤ count → (b : ℕ) × (bits_needed m count ≡ ok b) × IsLeast count b
unfolding bits_needed
bits_needed-IsLeast m count h =
    let (k, e, (below, above)) = bits_loop-Halves (count - 1) (count - 1) 1 (omega arith) in
    (
      suc k,
      rw (sub_at_ok u64_mod m count 1 (omega arith), e) (ap ok (omega arith)),
      (omega arith, omega arith, least k above),
    )
  where
    least : (k : ℕ) → (k ≡ 0) ⊎ (2 ^ k ≤ count - 1) → (suc k ≡ 1) ⊎ (2 ^ (suc k - 1) < count)
    least k (inl e) = inl (omega arith)
    least k (inr p) = let same : suc k - 1 ≡ k = omega arith in inr (rw same (omega arith))

-- Every code of a row, its number and `b` bits of tag, is a 16-bit number.
abbrev pub Fits : ℕ → TableData → Type 0
Fits b t = t.row_count * 2 ^ b + (2 ^ b - 1) < 2 ^ 16

small-ltb : (m : Mode) (n b : ℕ) → b ≤ 16 → small m n b ≡ ok (ltb n (2 ^ (16 - b)))
unfolding small
small-ltb m n b h = rw (sub_at_ok 256 m 16 b h, shl_one_u64_ok m (16 - b) (omega arith))

small-Fits : (n b : ℕ) → b ≤ 16 → (n < 2 ^ (16 - b)) ↔ (n * 2 ^ b + (2 ^ b - 1) < 2 ^ 16)
small-Fits n b h =
    let whole = two_pow-split b 16 h in
    (
      λ p. omega (arith, whole, two_pow-pos b, mul-le-mul_right (2 ^ b) p),
      λ p. elim (dec_lt n (2 ^ (16 - b))) [
        | yes q ↦ q
        | no q ↦ absurd (
            omega (arith, whole, mul-le-mul_right {m = 2 ^ (16 - b)} {n = n} (2 ^ b) (omega arith)))
      ],
    )

all_small-Fits :
    (m : Mode) (b : ℕ) (ts : List TableData)
    → b ≤ 16
    → ((all_small m b ts ≡ ok true) × All (Fits b) ts)
      ⊎ ((all_small m b ts ≡ ok false) × ¬ All (Fits b) ts)
unfolding all_small
all_small-Fits m b [] h = inl (refl, tt)
all_small-Fits m b (t ∷ ts) h = elim (Bool-cases (ltb t.row_count (2 ^ (16 - b)))) [
  | inl fit ↦
      let one : Fits b t = (small-Fits t.row_count b h).0 (ground arith) in
      elim (all_small-Fits m b ts h) [
        | inl (e, rest) ↦ inl (rw (small-ltb m t.row_count b h, fit) e, (one, rest))
        | inr (e, rest) ↦ inr (rw (small-ltb m t.row_count b h, fit) e, λ (p, q). rest q)
      ]
  | inr wide ↦ inr (
    rw (small-ltb m t.row_count b h, wide),
    λ (p, q). ground (arith, (small-Fits t.row_count b h).1 p),
  )
]

-- In every build, for 2 to 2 ^ 16 tables: the index takes 2 bytes exactly when each code, with the
-- least tag that tells the tables apart, is a 16-bit number for each of them, and 4 bytes otherwise.
pub composite_index_size-exact :
    (m : Mode) (ts : List TableData)
    → 2 ≤ length ts
    → length ts ≤ 2 ^ 16
    → (b : ℕ) × IsLeast (length ts) b
      × (((composite_index_size m ts ≡ ok 2) × All (Fits b) ts)
          ⊎ ((composite_index_size m ts ≡ ok 4) × ¬ All (Fits b) ts))
unfolding composite_index_size
composite_index_size-exact m ts low high =
    let (b, e, least) = bits_needed-IsLeast m (length ts) low in
    (
      b,
      least,
      rw e (elim (all_small-Fits m b ts (few b least)) [
        | inl (r, fits) ↦ inl (rw r, fits)
        | inr (r, fits) ↦ inr (rw r, fits)
      ]),
    )
  where
    few : (b : ℕ) → IsLeast (length ts) b → b ≤ 16
    few b (one, enough, inl e) = omega arith
    few b (one, enough, inr p) = omega (arith, lt_of_two_pow-lt (b - 1) 16 (omega arith))
