-- ===== src/Metadata/Table.antt =====
-- `TableIndex`, `TableData` and `composite_index_size` of crates/gen/src/parser/file.rs: how wide the
-- columns of a metadata table are and where its rows stand.
pub mod Layout
pub mod Width
use windows_rs.Base.{
  ℕ, zero, suc, ◌+◌, ◌-◌, ◌*◌, ◌/◌, ◌^◌, List, [], ◌∷◌, Bool, true, false, ltb, ◌==◌, if◌then◌else◌,
  Outcome, ok, panic, ◌>>=◌, length, set, Mode, u64_mod,
}
use windows_rs.Base.Word.{add_u32, mul_u32, sub_at, shl_one_u64}

pub data TableIndex : Type 0 where
  constant custom_attribute field generic_param interface_impl member_ref method_def : TableIndex
  param type_def type_ref type_spec impl_map module_ref nested_class module' : TableIndex
  assembly_ref class_layout : TableIndex

-- A column is its offset in the row and its width; there are always six.
pub record TableData : Type 0 where
  pub data_at : ℕ
  pub row_count : ℕ
  pub row_size : ℕ
  pub columns : List (ℕ × ℕ)

-- `TableData::default()`
abbrev pub no_columns : List (ℕ × ℕ)
no_columns = (0, 0) ∷ (0, 0) ∷ (0, 0) ∷ (0, 0) ∷ (0, 0) ∷ (0, 0) ∷ []

abbrev pub empty_table : TableData
empty_table = record { data_at = 0; row_count = 0; row_size = 0; columns = no_columns }

-- The bytes that a row number of this table takes in a column.
unfoldable pub index_size : TableData → ℕ
index_size t = if ltb t.row_count (2 ^ 16) then 2 else 4

abbrev set_unless_empty : ℕ → ℕ → ℕ → List (ℕ × ℕ) → List (ℕ × ℕ)
set_unless_empty i offset width columns =
    if width == 0 then columns else set columns i (offset, width)

unfoldable pub set_columns : Mode → TableData → ℕ → ℕ → ℕ → ℕ → ℕ → ℕ → Outcome TableData
set_columns m t a b c d e f = do
  ab ← add_u32 m a b
  abc ← add_u32 m ab c
  abcd ← add_u32 m abc d
  abcde ← add_u32 m abcd e
  total ← add_u32 m abcde f
  let first = set t.columns 0 (0, a)
  let second = set_unless_empty 1 a b first
  let third = set_unless_empty 2 ab c second
  let fourth = set_unless_empty 3 abc d third
  let fifth = set_unless_empty 4 abcd e fourth
  ok (record t { row_size = total; columns = set_unless_empty 5 abcde f fifth })

-- Returns the table and the position behind it, the new value of `*data`.
unfoldable pub set_data : Mode → TableData → ℕ → Outcome (TableData × ℕ)
set_data m t position = if t.row_count == 0 then ok (t, position) else do
  bytes ← mul_u32 m t.row_count t.row_size
  next ← add_u32 m position bytes
  ok (record t { data_at = position }, next)

-- The loop halves `value` before it tests it, so `value` rounds are enough.
unfoldable pub bits_loop : ℕ → ℕ → ℕ → ℕ
bits_loop zero value bits = bits
bits_loop (suc fuel) value bits =
    let more = bits_loop fuel (value / 2) (bits + 1) in if value / 2 == 0 then bits else more

unfoldable pub bits_needed : Mode → ℕ → Outcome ℕ
bits_needed m count = do value ← sub_at u64_mod m count 1; ok (bits_loop value value 1)

unfoldable pub small : Mode → ℕ → ℕ → Outcome Bool
small m row_count bits = do
  free ← sub_at 256 m 16 bits
  limit ← shl_one_u64 m free
  ok (ltb row_count limit)

unfoldable pub all_small : Mode → ℕ → List TableData → Outcome Bool
all_small m bits [] = ok true
all_small m bits (t ∷ ts) =
    let rest = all_small m bits ts in small m t.row_count bits >>= λ b. if b then rest else ok false

-- The bytes that a coded index into one of these tables takes.
unfoldable pub composite_index_size : Mode → List TableData → Outcome ℕ
composite_index_size m tables = do
  bits ← bits_needed m (length tables)
  fit ← all_small m bits tables
  ok (if fit then 2 else 4)
