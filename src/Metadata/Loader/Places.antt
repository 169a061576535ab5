-- ===== src/Metadata/Loader/Places.antt =====
-- Where the rows of the tables stand in the file.
use windows_rs.Base.{
  ℕ, ◌+◌, ◌*◌, ◌<◌, ◌≡◌, ◌⊎◌, inl, inr, refl, sym, ap, subst, ◌∙◌, Bool, true, false, ltb, ◌&&◌,
  ◌==◌, if◌then◌else◌, zero, suc, ◌||◌, List, [], ◌∷◌, ok, Mode, All, u32_mod, arith, Bool-cases,
}
use windows_rs.Base.Tests.{eq→==, ==→eq}
use windows_rs.Metadata.Table.{TableData, set_data}
use windows_rs.Metadata.Table.Layout.{set_data-place}
use windows_rs.Metadata.Loader.{set_all_data}
use windows_rs.Metadata.Loader.Choices.{Tables}
use windows_rs.Metadata.Loader.Columns.{update}
use windows_rs.Metadata.Loader.Numbers.{placing_order}

-- The bytes of a table's rows, and of the rows of several tables.
abbrev pub rows_size : TableData → ℕ
rows_size t = t.row_count * t.row_size

abbrev pub total_size : Tables → List ℕ → ℕ
total_size ts [] = 0
total_size ts (i ∷ is) = rows_size (ts i) + total_size ts is

-- From the position `start` on, the tables stand one right behind the other; a table without rows may say
-- any place.
abbrev pub Stacked : Tables → List ℕ → ℕ → Type 0
Stacked ts [] start = Unit
Stacked ts (i ∷ is) start =
    (((ts i).row_count ≡ 0) ⊎ ((ts i).data_at ≡ start)) × Stacked ts is (start + rows_size (ts i))

-- Nothing but the place of a table has changed.
abbrev pub SameRows : Tables → Tables → Type 0
SameRows ts us = (i : ℕ) → us i ≡ record (ts i) { data_at = (us i).data_at }

abbrev pub Ascending : List ℕ → Type 0
Ascending [] = Unit
Ascending (i ∷ is) = All (λ j. i < j) is × Ascending is

SameRows-size :
    (ts us : Tables) → SameRows ts us → (is : List ℕ) → total_size us is ≡ total_size ts is
SameRows-size ts us same [] = refl
SameRows-size ts us same (i ∷ is) = rw (same i, SameRows-size ts us same is) refl

-- A table numbered below all that are placed is left alone.
abbrev Kept : Tables → Tables → List ℕ → Type 0
Kept ts us is = (k : ℕ) → All (λ j. k < j) is → us k ≡ ts k

-- The table after its `set_data`.
abbrev placed : TableData → ℕ → TableData
placed t start = record t { data_at = if t.row_count == 0 then t.data_at else start }

update-at : (ts : Tables) (i : ℕ) (t : TableData) → update ts i t i ≡ t
update-at ts i t = rw (eq→== i i refl) refl

update-SameRows : (ts : Tables) (i start : ℕ) → SameRows ts (update ts i (placed (ts i) start))
update-SameRows ts i start j = elim (Bool-cases (j == i)) [
  | inl e ↦
      let at_i : update ts i (placed (ts i) start) i
          ≡ record (ts i) { data_at = (update ts i (placed (ts i) start) i).data_at } =
        rw (eq→== i i refl) refl in
      subst
        (λ (k : ℕ).
          update ts i (placed (ts i) start) k
          ≡ record (ts k) { data_at = (update ts i (placed (ts i) start) k).data_at })
        (sym (==→eq j i e)) at_i
  | inr e ↦ rw e refl
]

update-Kept : (ts : Tables) (i : ℕ) (t : TableData) (k : ℕ) → k < i → update ts i t k ≡ ts k
update-Kept ts i t k h = let apart : (k == i) ≡ false = ground arith in rw apart refl

placed-stands :
    (t : TableData) (start : ℕ)
    → ((placed t start).row_count ≡ 0) ⊎ ((placed t start).data_at ≡ start)
placed-stands t start = elim (Bool-cases (t.row_count == 0)) [
  | inl e ↦ inl (==→eq t.row_count 0 e)
  | inr e ↦ inr (rw e refl)
]

set_all_data-next :
    (m : Mode) (i : ℕ) (is : List ℕ) (ts : Tables) (start next : ℕ) (t : TableData)
    → set_data m (ts i) start ≡ ok (t, next)
    → set_all_data m (i ∷ is) ts start ≡ set_all_data m is (update ts i t) next
unfolding set_all_data
set_all_data-next m i is ts start next t e = rw e refl

set_all_data-Stacked :
    (m : Mode) (is : List ℕ) (ts : Tables) (start : ℕ)
    → Ascending is
    → start + total_size ts is < u32_mod
    → (us : Tables) × (set_all_data m is ts start ≡ ok (us, start + total_size ts is))
      × Stacked us is start
      × SameRows ts us
      × Kept ts us is
unfolding set_all_data
set_all_data-Stacked m [] ts start a h =
    (ts, ap (λ (t : ℕ). ok (ts, t)) (omega arith), tt, λ i. refl, λ k b. refl)
set_all_data-Stacked m (i ∷ is) ts start (above, a) h =
    let t = placed (ts i) start in
    let next = start + rows_size (ts i) in
    let ts1 = update ts i t in
    let same1 = update-SameRows ts i start in
    let size = SameRows-size ts ts1 same1 is in
    let (us, done, stacked, same, kept) =
      set_all_data-Stacked m is ts1 next a (rw size (omega arith)) in
    let here : us i ≡ t = kept i above ∙ update-at ts i t in
    (
      us,
      set_all_data-next m i is ts start next t (set_data-place m (ts i) start (omega arith))
          ∙ done
          ∙ ap (λ (q : ℕ). ok (us, q)) (omega (arith, size)),
      (
        subst (λ (x : TableData). (x.row_count ≡ 0) ⊎ (x.data_at ≡ start)) (sym here)
            (placed-stands (ts i) start),
        subst (λ (x : TableData). Stacked us is (start + rows_size x)) (sym here) stacked,
      ),
      λ k. same k ∙ ap (λ (x : TableData). record x { data_at = (us k).data_at }) (same1 k),
      λ k (b, bs). kept k bs ∙ update-Kept ts i t k b,
    )

abbrev below_all : ℕ → List ℕ → Bool
below_all i [] = true
below_all i (j ∷ js) = ltb i j && below_all i js

abbrev ascends : List ℕ → Bool
ascends [] = true
ascends (i ∷ is) = below_all i is && ascends is

below_all-All : (i : ℕ) (js : List ℕ) → below_all i js ≡ true → All (λ j. i < j) js
below_all-All i [] e = tt
below_all-All i (j ∷ js) e = (ground arith, below_all-All i js (ground arith))

ascends-Ascending : (is : List ℕ) → ascends is ≡ true → Ascending is
ascends-Ascending [] e = tt
ascends-Ascending (i ∷ is) e =
    (below_all-All i is (ground arith), ascends-Ascending is (ground arith))

-- The numbers of the tables that the metadata format (ECMA-335) describes: all below 0x2b but those that are kept for
-- other forms of it.
abbrev kept_numbers : List ℕ
kept_numbers = 0x03 ∷ 0x05 ∷ 0x07 ∷ 0x13 ∷ 0x16 ∷ 0x1e ∷ 0x1f ∷ []

abbrev is_kept : ℕ → List ℕ → Bool
is_kept n [] = false
is_kept n (k ∷ ks) = n == k || is_kept n ks

abbrev numbers_from : ℕ → ℕ → List ℕ
numbers_from zero n = []
numbers_from (suc more) n =
    let later = numbers_from more (n + 1) in if is_kept n kept_numbers then later else n ∷ later

abbrev pub described_numbers : List ℕ
described_numbers = numbers_from 0x2b 0

placing_order-described : placing_order ≡ described_numbers
placing_order-described = refl

-- In every build, where the rows of all tables numbered below 0x2b, which the format describes, end below 2 ^ 32: the calls
-- of `set_data` return, those of these tables that have rows stand in the order of their numbers one right behind the other, from the position where
-- the calls begin to the one they return, and nothing but places has changed.
pub set_all_data-described :
    (m : Mode) (ts : Tables) (start : ℕ)
    → start + total_size ts described_numbers < u32_mod
    → (us : Tables) × (set_all_data m placing_order ts start
        ≡ ok (us, start + total_size ts described_numbers))
      × Stacked us described_numbers start
      × SameRows ts us
set_all_data-described m ts start h =
    let (us, done, stacked, same, kept) =
      set_all_data-Stacked m described_numbers ts start (ascends-Ascending described_numbers refl)
        h in
    (
      us,
      ap (λ (is : List ℕ). set_all_data m is ts start) placing_order-described ∙ done,
      stacked,
      same,
    )
