-- ===== src/Metadata/Loader/Indices.antt =====
-- The widths of indices into the heaps and of coded indices, as `File::from_bytes` of
-- crates/gen/src/parser/file.rs finds them.
use Prim.Native.Nat.{bit_and}
use windows_rs.Base.{ℕ, ◌/◌, ◌^◌, ◌==◌, if◌then◌else◌, Outcome, ok, ◌>>=◌, Mode}
use windows_rs.Metadata.Table.{composite_index_size}
use windows_rs.Metadata.Loader.Choices
use windows_rs.Metadata.Loader.Choices.{Tables}

-- The widths of indices into the heaps.
pub record HeapWidths : Type 0 where
  pub string_index_size : ℕ
  pub guid_index_size : ℕ
  pub blob_index_size : ℕ

unfoldable pub heap_widths : ℕ → HeapWidths
heap_widths heap_sizes = record {
  string_index_size = if bit_and heap_sizes 1 == 1 then 4 else 2;
  guid_index_size = if bit_and (heap_sizes / 2) 1 == 1 then 4 else 2;
  blob_index_size = if bit_and (heap_sizes / 2 ^ 2) 1 == 1 then 4 else 2;
}

-- The widths of coded indices.
pub record CodeWidths : Type 0 where
  pub type_def_or_ref : ℕ
  pub has_constant : ℕ
  pub has_custom_attribute : ℕ
  pub has_field_marshal : ℕ
  pub has_decl_security : ℕ
  pub member_ref_parent : ℕ
  pub has_semantics : ℕ
  pub method_def_or_ref : ℕ
  pub member_forwarded : ℕ
  pub implementation : ℕ
  pub custom_attribute_type : ℕ
  pub resolution_scope : ℕ
  pub type_or_method_def : ℕ

unfoldable pub code_widths : Mode → Tables → Outcome CodeWidths
code_widths m ts = do
  type_def_or_ref ← composite_index_size m (Choices.type_def_or_ref ts)
  has_constant ← composite_index_size m (Choices.has_constant ts)
  has_custom_attribute ← composite_index_size m (Choices.has_custom_attribute ts)
  has_field_marshal ← composite_index_size m (Choices.has_field_marshal ts)
  has_decl_security ← composite_index_size m (Choices.has_decl_security ts)
  member_ref_parent ← composite_index_size m (Choices.member_ref_parent ts)
  has_semantics ← composite_index_size m (Choices.has_semantics ts)
  method_def_or_ref ← composite_index_size m (Choices.method_def_or_ref ts)
  member_forwarded ← composite_index_size m (Choices.member_forwarded ts)
  implementation ← composite_index_size m (Choices.implementation ts)
  custom_attribute_type ← composite_index_size m (Choices.custom_attribute_type ts)
  resolution_scope ← composite_index_size m (Choices.resolution_scope ts)
  type_or_method_def ← composite_index_size m (Choices.type_or_method_def ts)
  ok (record {
    type_def_or_ref = type_def_or_ref;
    has_constant = has_constant;
    has_custom_attribute = has_custom_attribute;
    has_field_marshal = has_field_marshal;
    has_decl_security = has_decl_security;
    member_ref_parent = member_ref_parent;
    has_semantics = has_semantics;
    method_def_or_ref = method_def_or_ref;
    member_forwarded = member_forwarded;
    implementation = implementation;
    custom_attribute_type = custom_attribute_type;
    resolution_scope = resolution_scope;
    type_or_method_def = type_or_method_def;
  })
