-- ===== src/Metadata/Table/Layout.antt =====
-- `set_columns` and `set_data`: columns side by side in the row, tables side by side in the file.
use windows_rs.Base.{
  ℕ, zero, suc, ◌+◌, ◌*◌, ◌≤◌, ◌<◌, ◌≡◌, ◌≢◌, refl, List, [], ◌∷◌, ◌==◌, if◌then◌else◌, ok, set,
  sym, get_elem?, some, Mode, u32_mod, arith,
}
use native.Mathlib.Nat.{zero-add}
use windows_rs.Base.Word.{add_u32_ok, mul_u32_ok}
use windows_rs.Metadata.Table.{TableData, no_columns, set_unless_empty, set_columns, set_data}

abbrev pub sum : List ℕ → ℕ
sum [] = 0
sum (w ∷ ws) = w + sum ws

-- A column of the given width; an empty one stands at 0.
unfoldable pub place : ℕ → ℕ → ℕ × ℕ
place offset width = (if width == 0 then 0 else offset, width)

-- Columns of the given widths, one behind the other from `start` on.
abbrev pub side_by_side : ℕ → List ℕ → List (ℕ × ℕ)
side_by_side start [] = []
side_by_side start (w ∷ ws) = place start w ∷ side_by_side (start + w) ws

set_self : (l : List (ℕ × ℕ)) (i : ℕ) (v : ℕ × ℕ) → get_elem? l i ≡ some v → set l i v ≡ l
set_self [] i v h = refl
set_self (x ∷ l) zero v h = cc
set_self (x ∷ l) (suc i) v h = cc (set_self l i v h)

set_unless_empty-place :
    (i offset width : ℕ) (l : List (ℕ × ℕ))
    → get_elem? l i ≡ some (0, 0)
    → set_unless_empty i offset width l ≡ set l i (place offset width)
unfolding place
set_unless_empty-place i offset zero l h = sym (set_self l i (0, 0) h)
set_unless_empty-place i offset (suc n) l h = ground arith

place-zero : (width : ℕ) → place 0 width ≡ (0, width)
unfolding place
place-zero zero = refl
place-zero (suc n) = ground arith

first_columns :
    (a b c d e f : ℕ)
    → set_unless_empty 5 (a + b + c + d + e) f (
        set_unless_empty 4 (a + b + c + d) e (
          set_unless_empty 3
            (a + b + c)
            d
            (set_unless_empty 2 (a + b) c (set_unless_empty 1 a b (set no_columns 0 (0, a))))))
      ≡ side_by_side 0 (a ∷ b ∷ c ∷ d ∷ e ∷ f ∷ [])
first_columns a b c d e f = rw (
  set_unless_empty-place 1 a b _ refl,
  set_unless_empty-place 2 (a + b) c _ refl,
  set_unless_empty-place 3 (a + b + c) d _ refl,
  set_unless_empty-place 4 (a + b + c + d) e _ refl,
  set_unless_empty-place 5 (a + b + c + d + e) f _ refl,
  zero-add a,
  place-zero a,
)

-- In every build, for a new table whose row fits a u32: `set_columns` makes the row as wide as its columns
-- together and puts each column right behind the one before it; a column of no width is left as it was.
pub set_columns-side_by_side :
    (m : Mode) (t : TableData) (a b c d e f : ℕ)
    → t.columns ≡ no_columns
    → a + b + c + d + e + f < u32_mod
    → set_columns m t a b c d e f
      ≡ ok (record t {
        row_size = a + b + c + d + e + f;
        columns = side_by_side 0 (a ∷ b ∷ c ∷ d ∷ e ∷ f ∷ []);
      })
unfolding set_columns
set_columns-side_by_side m t a b c d e f fresh h = rw (
  add_u32_ok m a b (omega arith),
  add_u32_ok m (a + b) c (omega arith),
  add_u32_ok m (a + b + c) d (omega arith),
  add_u32_ok m (a + b + c + d) e (omega arith),
  add_u32_ok m (a + b + c + d + e) f (omega arith),
  fresh,
  first_columns a b c d e f,
)

-- In every build `set_columns` returns for every table, if the row fits a u32.
pub set_columns_ok :
    (m : Mode) (t : TableData) (a b c d e f : ℕ)
    → a + b + c + d + e + f < u32_mod
    → (u : TableData) × (set_columns m t a b c d e f ≡ ok u)
      × (u.row_count ≡ t.row_count)
      × (u.row_size ≡ a + b + c + d + e + f)
unfolding set_columns
set_columns_ok m t a b c d e f h =
    let columns = set_unless_empty 5 (a + b + c + d + e) f (
      set_unless_empty 4 (a + b + c + d) e (
        set_unless_empty 3 (a + b + c) d
          (set_unless_empty 2 (a + b) c (set_unless_empty 1 a b (set t.columns 0 (0, a)))))) in
    (
      record t { row_size = a + b + c + d + e + f; columns = columns },
      rw
          (
            add_u32_ok m a b (omega arith),
            add_u32_ok m (a + b) c (omega arith),
            add_u32_ok m (a + b + c) d (omega arith),
            add_u32_ok m (a + b + c + d) e (omega arith),
            add_u32_ok m (a + b + c + d + e) f (omega arith),
          )
          refl,
      refl,
      refl,
    )

-- A column that is not empty lies in the row.
pub side_by_side_inside :
    (ws : List ℕ) (start i offset width : ℕ)
    → get_elem? (side_by_side start ws) i ≡ some (offset, width)
    → width ≢ 0
    → (start ≤ offset) × (offset + width ≤ start + sum ws)
unfolding place
side_by_side_inside [] start i offset width h n = cc
side_by_side_inside (w ∷ ws) start zero offset width h n = ground arith
side_by_side_inside (w ∷ ws) start (suc i) offset width h n =
    omega (arith, side_by_side_inside ws (start + w) i offset width h n)

-- Two columns that are not empty do not overlap.
pub side_by_side_apart :
    (ws : List ℕ) (start i j o w o' w' : ℕ)
    → i < j
    → get_elem? (side_by_side start ws) i ≡ some (o, w)
    → get_elem? (side_by_side start ws) j ≡ some (o', w')
    → w ≢ 0
    → w' ≢ 0
    → o + w ≤ o'
unfolding place
side_by_side_apart [] start i j o w o' w' h p q n n' = cc
side_by_side_apart (v ∷ ws) start i zero o w o' w' h p q n n' = absurd (omega arith)
side_by_side_apart (v ∷ ws) start zero (suc j) o w o' w' h p q n n' =
    ground (arith, side_by_side_inside ws (start + v) j o' w' q n')
side_by_side_apart (v ∷ ws) start (suc i) (suc j) o w o' w' h p q n n' =
    side_by_side_apart ws (start + v) i j o w o' w' (omega arith) p q n n'

-- What `set_columns` leaves of a new table: no two columns overlap, and all lie in the row.
pub set_columns_apart :
    (m : Mode) (t u : TableData) (a b c d e f i j o w o' w' : ℕ)
    → t.columns ≡ no_columns
    → a + b + c + d + e + f < u32_mod
    → set_columns m t a b c d e f ≡ ok u
    → i < j
    → get_elem? u.columns i ≡ some (o, w)
    → get_elem? u.columns j ≡ some (o', w')
    → w ≢ 0
    → w' ≢ 0
    → (o + w ≤ o') × (o' + w' ≤ u.row_size)
set_columns_apart m t u a b c d e f i j o w o' w' fresh small done before p q n n' =
    let widths : List ℕ = a ∷ b ∷ c ∷ d ∷ e ∷ f ∷ [] in
    let same : u ≡ record t { row_size = a + b + c + d + e + f; columns = side_by_side 0 widths } =
      cc (set_columns-side_by_side m t a b c d e f fresh small, done) in
    let p' : get_elem? (side_by_side 0 widths) i ≡ some (o, w) = rw same at p in
    let q' : get_elem? (side_by_side 0 widths) j ≡ some (o', w') = rw same at q in
    (
      side_by_side_apart widths 0 i j o w o' w' before p' q' n n',
      rw same (omega (arith, side_by_side_inside widths 0 j o' w' q' n')),
    )

-- In every build, `set_data` puts the rows of a table at the current position and moves it behind
-- them, if they end below 2 ^ 32; a table without rows takes no room and keeps its place.
pub set_data-place :
    (m : Mode) (t : TableData) (position : ℕ)
    → position + t.row_count * t.row_size < u32_mod
    → set_data m t position
      ≡ ok (
        record t { data_at = if t.row_count == 0 then t.data_at else position },
        position + t.row_count * t.row_size,
      )
unfolding set_data
set_data-place m t position h =
    rw
      (
        mul_u32_ok m t.row_count t.row_size (omega arith),
        add_u32_ok m position (t.row_count * t.row_size) h,
      )
      (grind arith)
