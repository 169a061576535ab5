-- ===== src/Metadata/Order.antt =====
-- The order and the equality of rows in crates/gen/src/parser/row.rs, by which types are kept in maps.
use Prim.Native.Nat.{compare, Ordering}
use windows_rs.Base.{
  ℕ, ◌≡◌, ◌↔◌, refl, sym, ap, ◌∙◌, Bool, true, ◌&&◌, ◌==◌, by_order, List, [], ◌∷◌, some, get_elem?,
  arith,
}
use mathlib.Core.Option.{some-injective}
use windows_rs.Metadata.Table.{TableIndex}
use windows_rs.Metadata.File.{Row}

abbrev pub all_tables : List TableIndex
all_tables =
    TableIndex.constant ∷ TableIndex.custom_attribute ∷ TableIndex.field ∷ TableIndex.generic_param
    ∷ TableIndex.interface_impl ∷ TableIndex.member_ref ∷ TableIndex.method_def ∷ TableIndex.param
    ∷ TableIndex.type_def ∷ TableIndex.type_ref ∷ TableIndex.type_spec ∷ TableIndex.impl_map
    ∷ TableIndex.module_ref ∷ TableIndex.nested_class ∷ TableIndex.module' ∷ TableIndex.assembly_ref
    ∷ TableIndex.class_layout ∷ []

-- `table as u16`, by which the derived order compares.
unfoldable pub discriminant : TableIndex → ℕ
discriminant TableIndex.constant = 0
discriminant TableIndex.custom_attribute = 1
discriminant TableIndex.field = 2
discriminant TableIndex.generic_param = 3
discriminant TableIndex.interface_impl = 4
discriminant TableIndex.member_ref = 5
discriminant TableIndex.method_def = 6
discriminant TableIndex.param = 7
discriminant TableIndex.type_def = 8
discriminant TableIndex.type_ref = 9
discriminant TableIndex.type_spec = 10
discriminant TableIndex.impl_map = 11
discriminant TableIndex.module_ref = 12
discriminant TableIndex.nested_class = 13
discriminant TableIndex.module' = 14
discriminant TableIndex.assembly_ref = 15
discriminant TableIndex.class_layout = 16

-- `cmp` of triples.
unfoldable pub cmp_triple : ℕ × ℕ × ℕ → ℕ × ℕ × ℕ → Ordering
cmp_triple (a, b, c) (a', b', c') =
    by_order (compare a a') Ordering.lt
      (by_order (compare b b') Ordering.lt (compare c c') Ordering.gt) Ordering.gt

abbrev key : Row → ℕ × ℕ × ℕ
key r = (r.row, discriminant r.table, r.file.bytes_at)

unfoldable pub cmp : Row → Row → Ordering
unfolding cmp_triple
cmp r s = cmp_triple (key r) (key s)

-- `PartialEq::eq`
unfoldable pub eq : Row → Row → Bool
eq r s =
    (r.row == s.row)
    && ((discriminant r.table == discriminant s.table) && (r.file.bytes_at == s.file.bytes_at))

discriminant-table : (t : TableIndex) → get_elem? all_tables (discriminant t) ≡ some t
unfolding discriminant
discriminant-table TableIndex.constant = refl
discriminant-table TableIndex.custom_attribute = refl
discriminant-table TableIndex.field = refl
discriminant-table TableIndex.generic_param = refl
discriminant-table TableIndex.interface_impl = refl
discriminant-table TableIndex.member_ref = refl
discriminant-table TableIndex.method_def = refl
discriminant-table TableIndex.param = refl
discriminant-table TableIndex.type_def = refl
discriminant-table TableIndex.type_ref = refl
discriminant-table TableIndex.type_spec = refl
discriminant-table TableIndex.impl_map = refl
discriminant-table TableIndex.module_ref = refl
discriminant-table TableIndex.nested_class = refl
discriminant-table TableIndex.module' = refl
discriminant-table TableIndex.assembly_ref = refl
discriminant-table TableIndex.class_layout = refl

discriminant_inj : (t u : TableIndex) → discriminant t ≡ discriminant u → t ≡ u
discriminant_inj t u e =
    some-injective t u
      (sym (discriminant-table t) ∙ ap (λ (i : ℕ). get_elem? all_tables i) e ∙ discriminant-table u)

cmp_triple-flip :
    (x y : ℕ × ℕ × ℕ) → (cmp_triple x y ≡ Ordering.lt) ↔ (cmp_triple y x ≡ Ordering.gt)
unfolding cmp_triple
cmp_triple-flip (a, b, c) (a', b', c') = (λ h. ground arith, λ h. ground arith)

cmp_triple_trans :
    (x y z : ℕ × ℕ × ℕ)
    → cmp_triple x y ≡ Ordering.lt
    → cmp_triple y z ≡ Ordering.lt
    → cmp_triple x z ≡ Ordering.lt
unfolding cmp_triple
cmp_triple_trans (a, b, c) (a', b', c') (a'', b'', c'') h k = ground arith

cmp_triple-eq :
    (x y : ℕ × ℕ × ℕ) → (cmp_triple x y ≡ Ordering.eq) ↔ ((x.0 ≡ y.0) × (x.1 ≡ y.1) × (x.2 ≡ y.2))
unfolding cmp_triple
cmp_triple-eq (a, b, c) (a', b', c') =
    (λ h. (ground arith, ground arith, ground arith), λ (p, q, r). ground arith)

-- For all rows: one is less than another exactly when that one is greater; `cmp` says equal exactly when `eq`
-- says true, and exactly when both are the same row of the same table of one buffer.
pub cmp-eq :
    (r s : Row)
    → ((cmp r s ≡ Ordering.lt) ↔ (cmp s r ≡ Ordering.gt))
      × ((cmp r s ≡ Ordering.eq) ↔ (eq r s ≡ true))
      × ((cmp r s ≡ Ordering.eq)
          ↔ ((r.row ≡ s.row) × (r.table ≡ s.table) × (r.file.bytes_at ≡ s.file.bytes_at)))
unfolding cmp eq
cmp-eq r s =
    let (to, from) = cmp_triple-eq (key r) (key s) in
    (
      cmp_triple-flip (key r) (key s),
      (
        λ h. let (a, b, c) = to h in ground arith,
        λ h. from (ground arith, ground arith, ground arith),
      ),
      (
        λ h. let (a, b, c) = to h in (a, discriminant_inj r.table s.table b, c),
        λ (a, b, c). from (a, ap discriminant b, c),
      ),
    )

-- A row that is less than a second one is less than a third one that the second is less than.
pub cmp_trans :
    (r s t : Row) → cmp r s ≡ Ordering.lt → cmp s t ≡ Ordering.lt → cmp r t ≡ Ordering.lt
unfolding cmp
cmp_trans r s t h k = cmp_triple_trans (key r) (key s) (key t) h k
