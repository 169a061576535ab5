-- ===== src/Metadata/Loader/Columns.antt =====
-- The calls of `set_columns` in `File::from_bytes` of crates/gen/src/parser/file.rs.
use windows_rs.Base.{ℕ, ◌==◌, if◌then◌else◌, List, [], ◌∷◌, Outcome, ok, ◌>>=◌, Mode}
use windows_rs.Metadata.Table.{TableData, index_size, set_columns}
use windows_rs.Metadata.Loader.Numbers
use windows_rs.Metadata.Loader.Choices.{Tables}
use windows_rs.Metadata.Loader.Indices.{HeapWidths, CodeWidths}

abbrev pub update : Tables → ℕ → TableData → Tables
update ts i t = λ j. if j == i then t else ts j

-- The six arguments of `set_columns`.
abbrev pub Six : Type 0
Six = ℕ × ℕ × ℕ × ℕ × ℕ × ℕ

-- The calls of `set_columns`, in their order: the table, and the widths, which read the row counts of the
-- tables at the time of the call.
unfoldable pub column_widths : HeapWidths → CodeWidths → List (ℕ × (Tables → Six))
column_widths heaps codes =
    (
      Numbers.assembly,
      λ ts. (4, 8, 4, heaps.blob_index_size, heaps.string_index_size, heaps.string_index_size),
    )
    ∷ (Numbers.assembly_os, λ ts. (4, 4, 4, 0, 0, 0))
    ∷ (Numbers.assembly_processor, λ ts. (4, 0, 0, 0, 0, 0))
    ∷ (
      Numbers.assembly_ref,
      λ ts. (
        8, 4, heaps.blob_index_size, heaps.string_index_size, heaps.string_index_size,
        heaps.blob_index_size,
      ),
    )
    ∷ (Numbers.assembly_ref_os, λ ts. (4, 4, 4, index_size (ts Numbers.assembly_ref), 0, 0))
    ∷ (Numbers.assembly_ref_processor, λ ts. (4, index_size (ts Numbers.assembly_ref), 0, 0, 0, 0))
    ∷ (Numbers.class_layout, λ ts. (2, 4, index_size (ts Numbers.type_def), 0, 0, 0))
    ∷ (Numbers.constant, λ ts. (2, codes.has_constant, heaps.blob_index_size, 0, 0, 0))
    ∷ (
      Numbers.custom_attribute,
      λ ts.
          (codes.has_custom_attribute, codes.custom_attribute_type, heaps.blob_index_size, 0, 0, 0),
    )
    ∷ (Numbers.decl_security, λ ts. (2, codes.has_decl_security, heaps.blob_index_size, 0, 0, 0))
    ∷ (
      Numbers.event_map,
      λ ts. (index_size (ts Numbers.type_def), index_size (ts Numbers.event), 0, 0, 0, 0),
    )
    ∷ (Numbers.event, λ ts. (2, heaps.string_index_size, codes.type_def_or_ref, 0, 0, 0))
    ∷ (
      Numbers.exported_type,
      λ ts. (4, 4, heaps.string_index_size, heaps.string_index_size, codes.implementation, 0),
    )
    ∷ (Numbers.field, λ ts. (2, heaps.string_index_size, heaps.blob_index_size, 0, 0, 0))
    ∷ (Numbers.field_layout, λ ts. (4, index_size (ts Numbers.field), 0, 0, 0, 0))
    ∷ (Numbers.field_marshal, λ ts. (codes.has_field_marshal, heaps.blob_index_size, 0, 0, 0, 0))
    ∷ (Numbers.field_rva, λ ts. (4, index_size (ts Numbers.field), 0, 0, 0, 0))
    ∷ (Numbers.file, λ ts. (4, heaps.string_index_size, heaps.blob_index_size, 0, 0, 0))
    ∷ (Numbers.generic_param, λ ts. (2, 2, codes.type_or_method_def, heaps.string_index_size, 0, 0))
    ∷ (
      Numbers.generic_param_constraint,
      λ ts. (index_size (ts Numbers.generic_param), codes.type_def_or_ref, 0, 0, 0, 0),
    )
    ∷ (
      Numbers.impl_map,
      λ ts. (
        2,
        codes.member_forwarded,
        heaps.string_index_size,
        index_size (ts Numbers.module_ref),
        0,
        0,
      ),
    )
    ∷ (
      Numbers.interface_impl,
      λ ts. (index_size (ts Numbers.type_def), codes.type_def_or_ref, 0, 0, 0, 0),
    )
    ∷ (Numbers.manifest_resource, λ ts. (4, 4, heaps.string_index_size, codes.implementation, 0, 0))
    ∷ (
      Numbers.member_ref,
      λ ts. (codes.member_ref_parent, heaps.string_index_size, heaps.blob_index_size, 0, 0, 0),
    )
    ∷ (
      Numbers.method_def,
      λ ts.
          (4, 2, 2, heaps.string_index_size, heaps.blob_index_size, index_size (ts Numbers.param)),
    )
    ∷ (
      Numbers.method_impl,
      λ ts. (
        index_size (ts Numbers.type_def),
        codes.method_def_or_ref,
        codes.method_def_or_ref,
        0,
        0,
        0,
      ),
    )
    ∷ (
      Numbers.method_semantics,
      λ ts. (2, index_size (ts Numbers.method_def), codes.has_semantics, 0, 0, 0),
    )
    ∷ (Numbers.method_spec, λ ts. (codes.method_def_or_ref, heaps.blob_index_size, 0, 0, 0, 0))
    ∷ (
      Numbers.module',
      λ ts. (
        2, heaps.string_index_size, heaps.guid_index_size, heaps.guid_index_size,
        heaps.guid_index_size, 0,
      ),
    )
    ∷ (Numbers.module_ref, λ ts. (heaps.string_index_size, 0, 0, 0, 0, 0))
    ∷ (
      Numbers.nested_class,
      λ ts. (index_size (ts Numbers.type_def), index_size (ts Numbers.type_def), 0, 0, 0, 0),
    )
    ∷ (Numbers.param, λ ts. (2, 2, heaps.string_index_size, 0, 0, 0))
    ∷ (Numbers.property, λ ts. (2, heaps.string_index_size, heaps.blob_index_size, 0, 0, 0))
    ∷ (
      Numbers.property_map,
      λ ts. (index_size (ts Numbers.type_def), index_size (ts Numbers.property), 0, 0, 0, 0),
    )
    ∷ (Numbers.standalone_sig, λ ts. (heaps.blob_index_size, 0, 0, 0, 0, 0))
    ∷ (
      Numbers.type_def,
      λ ts. (
        4,
        heaps.string_index_size,
        heaps.string_index_size,
        codes.type_def_or_ref,
        index_size (ts Numbers.field),
        index_size (ts Numbers.method_def),
      ),
    )
    ∷ (
      Numbers.type_ref,
      λ ts. (codes.resolution_scope, heaps.string_index_size, heaps.string_index_size, 0, 0, 0),
    )
    ∷ (Numbers.type_spec, λ ts. (heaps.blob_index_size, 0, 0, 0, 0, 0))
    ∷ []

unfoldable pub set_all_columns : Mode → List (ℕ × (Tables → Six)) → Tables → Outcome Tables
set_all_columns m [] ts = ok ts
set_all_columns m ((i, widths) ∷ rest) ts = do
  let (a, b, c, d, e, f) = widths ts
  t ← set_columns m (ts i) a b c d e f
  set_all_columns m rest (update ts i t)
