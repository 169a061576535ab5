-- ===== src/Metadata/Types.antt =====
-- The types that the reader builds: `ElementType` (crates/gen/src/parser/element_type.rs), `Signature`
-- (parser/signature.rs) and `TypeDef` (tables/type_def.rs). A tuple struct around a row, such as
-- `tables::MethodDef(Row)`, is its row.
pub mod FromCode
pub mod Equality
use windows_rs.Base.{ℕ, Bool}
use windows_rs.Metadata.File.{Row}

mutual
  pub data ElementType : Type 0 where
    void bool char i8 u8 i16 u16 i32 u32 i64 u64 f32 f64 isize usize : ElementType
    string guid i_unknown i_inspectable hresult matrix3x2 type_name : ElementType
    generic_param : Row → ElementType
    array : Signature → ℕ → ElementType
    method_def : Row → ElementType
    field : Row → ElementType
    type_def : TypeDef → ElementType

  -- `kind`, `pointers`, `by_ref`, `is_const`, `is_array`
  pub data Signature : Type 0 where
    signature : ElementType → ℕ → Bool → Bool → Bool → Signature

  -- `row` and `generics`
  pub data TypeDef : Type 0 where
    def : Row → ElementTypes → TypeDef

  pub data ElementTypes : Type 0 where
    nil : ElementTypes
    cons : ElementType → ElementTypes → ElementTypes

-- `From<Row>`: a type definition that is applied to nothing.
abbrev pub from_row : Row → TypeDef
from_row r = def r nil

abbrev pub row_of : TypeDef → Row
row_of (def r generics) = r
