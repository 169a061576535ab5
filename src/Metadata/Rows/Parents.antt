-- ===== src/Metadata/Rows/Parents.antt =====
-- The rows that a type lists find the type again.
use windows_rs.Base.{
  ℕ, zero, suc, ◌+◌, ◌-◌, ◌<◌, ◌≤◌, ◌≡◌, ◌≢◌, refl, some, get_elem?, All, ok, Mode, u32_mod, arith,
  ltb, if◌then◌else◌, Bool-cases, inl, inr, List,
}
use windows_rs.Base.Word.{add_u32_ok, sub_u32_ok}
use windows_rs.Metadata.Table.{TableIndex}
use windows_rs.Metadata.File.{File, Row, new_row, rows_from, rows_between, list}
use windows_rs.Metadata.File.Cells.{IsValid, u32_cell}
use windows_rs.Metadata.Types.{from_row}
use windows_rs.Metadata.Search.Columns.{stored, Ascends, upper_bound_of-Parts}
use windows_rs.Metadata.Search.Bounds.{Parts}
use windows_rs.Metadata.Rows.{parent}

All-rows_from :
    (P : Row → Type 0) (n first : ℕ) (table : TableIndex) (f : File)
    → ((k : ℕ) → first ≤ k → k < first + n → P (new_row k table f))
    → All P (rows_from n first table f)
unfolding rows_from
All-rows_from P zero first table f h = tt
All-rows_from P (suc n) first table f h = (
  h first (omega arith) (omega arith),
  All-rows_from P n (first + 1) table f (λ k a b. h k (omega arith) (omega arith)),
)

-- A file whose column of first rows, at `offset` with `width`, counts from 1 and ascends.
module _ (m : Mode) (f : File) (table : TableIndex) (column offset width : ℕ) (valid : IsValid f)
    (types : (f.tables TableIndex.type_def).row_count < u32_mod)
    (rows : (f.tables table).row_count < u32_mod)
    (here : get_elem? (f.tables TableIndex.type_def).columns column ≡ some (offset, width))
    (wide : width ≢ 0) (ascends : Ascends f TableIndex.type_def offset width) where
  abbrev mark : ℕ → ℕ
  mark = stored f TableIndex.type_def offset width

  abbrev type_row : ℕ → Row
  type_row i = new_row i TableIndex.type_def f

  -- The row behind the last one that type `i` lists.
  abbrev list_end : ℕ → ℕ
  list_end i =
      if ltb (i + 1) (f.tables TableIndex.type_def).row_count
      then mark (i + 1) - 1
      else (f.tables table).row_count

  list_end-lt : (i k : ℕ) → k < list_end i → k + 1 < u32_mod
  list_end-lt i k h = elim (Bool-cases (ltb (i + 1) (f.tables TableIndex.type_def).row_count)) [
    | inl e ↦ let h' = rw e at h in omega arith
    | inr e ↦ let h' = rw e at h in omega arith
  ]

  -- Where the marks around a row are, the upper bound of its number is behind type `i`.
  bound-eq :
      (i k r : ℕ)
      → i < (f.tables TableIndex.type_def).row_count
      → mark i ≤ k + 1
      → k < list_end i
      → Parts mark (k + 1 + 1) 0 (f.tables TableIndex.type_def).row_count r
      → r ≡ i + 1
  bound-eq i k r h low high p =
      elim (Bool-cases (ltb (i + 1) (f.tables TableIndex.type_def).row_count)) [
        | inl e ↦
            let high' = rw e at high in
            let l : i + 1 < (f.tables TableIndex.type_def).row_count = ground arith in
            elim (Bool-cases (ltb i r)) [
              | inl a ↦ elim (Bool-cases (ltb (i + 1) r)) [
                | inl b ↦
                    let q = p.below (i + 1) (omega arith) (ground arith) in absurd (omega arith)
                | inr b ↦ ground arith
              ]
              | inr a ↦ let q = p.above i (ground arith) h in absurd (omega arith)
            ]
        | inr e ↦ elim (Bool-cases (ltb i r)) [
          | inl a ↦ let top = p.high in ground arith
          | inr a ↦ let q = p.above i (ground arith) h in absurd (omega arith)
        ]
      ]

  parent-listed :
      (i k : ℕ)
      → i < (f.tables TableIndex.type_def).row_count
      → mark i ≤ k + 1
      → k < list_end i
      → parent m column (new_row k table f) ≡ ok (from_row (type_row i))
  unfolding parent
  parent-listed i k h low high =
      let (r, e, p) =
        upper_bound_of-Parts m f TableIndex.type_def column offset width (k + 1) valid types here
          wide ascends 0 (f.tables TableIndex.type_def).row_count (omega arith) (omega arith) in
      let same = bound-eq i k r h low high p in
      let back : i + 1 - 1 ≡ i = omega arith in
      rw
        (
          add_u32_ok m k 1 (list_end-lt i k high),
          e,
          same,
          sub_u32_ok m (i + 1) 1 (omega arith),
          back,
        )
        refl

  list_lem :
      (i : ℕ)
      → i < (f.tables TableIndex.type_def).row_count
      → 1 ≤ mark 0
      → list m f (type_row i) table column ≡ ok (rows_between (mark i - 1) (list_end i) table f)
  unfolding list
  list_lem i h first =
      let here_first = ascends 0 i (omega arith) h in
      let read = u32_cell m f i TableIndex.type_def column offset width valid h here wide in
      let next = add_u32_ok m i 1 (omega arith) in
      elim (Bool-cases (ltb (i + 1) (f.tables TableIndex.type_def).row_count)) [
        | inl e ↦
            let l : i + 1 < (f.tables TableIndex.type_def).row_count = ground arith in
            let next_first = ascends 0 (i + 1) (omega arith) l in
            rw
              (
                read,
                sub_u32_ok m (mark i) 1 (omega arith),
                next,
                e,
                u32_cell m f (i + 1) TableIndex.type_def column offset width valid l here wide,
                sub_u32_ok m (mark (i + 1)) 1 (omega arith),
              )
              refl
        | inr e ↦ rw (read, sub_u32_ok m (mark i) 1 (omega arith), next, e) refl
      ]

  -- In a valid file whose types mark their first rows in an ascending column from 1 on, in every build: a type's
  -- list of rows is found, and each of its rows has this type for its parent.
  pub list-parent :
      (i : ℕ)
      → i < (f.tables TableIndex.type_def).row_count
      → 1 ≤ mark 0
      → (rs : List Row) × (list m f (type_row i) table column ≡ ok rs)
        × All (λ r. parent m column r ≡ ok (from_row (type_row i))) rs
  list-parent i h first =
      let at_least = ascends 0 i (omega arith) h in
      (
        rows_between (mark i - 1) (list_end i) table f,
        list_lem i h first,
        All-rows_from (λ r. parent m column r ≡ ok (from_row (type_row i)))
            (list_end i - (mark i - 1)) (mark i - 1) table f
            (λ k low high. parent-listed i k h (omega arith) (omega arith)),
      )
