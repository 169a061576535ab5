-- ===== src/Metadata/Loader/Choices.antt =====
-- The arguments of `composite_index_size` in `File::from_bytes` of crates/gen/src/parser/file.rs: the
-- tables that each kind of code tells apart.
use windows_rs.Base.{ℕ, List, [], ◌∷◌}
use windows_rs.Metadata.Table.{TableData, empty_table}
use windows_rs.Metadata.Loader.Numbers

abbrev pub Tables : Type 0
Tables = ℕ → TableData

abbrev pub type_def_or_ref : Tables → List TableData
type_def_or_ref ts = ts Numbers.type_def ∷ ts Numbers.type_ref ∷ ts Numbers.type_spec ∷ []

abbrev pub has_constant : Tables → List TableData
has_constant ts = ts Numbers.field ∷ ts Numbers.param ∷ ts Numbers.property ∷ []

abbrev pub has_custom_attribute : Tables → List TableData
has_custom_attribute ts =
    ts Numbers.method_def
    ∷ ts Numbers.field
    ∷ ts Numbers.type_ref
    ∷ ts Numbers.type_def
    ∷ ts Numbers.param
    ∷ ts Numbers.interface_impl
    ∷ ts Numbers.member_ref
    ∷ ts Numbers.module'
    ∷ ts Numbers.property
    ∷ ts Numbers.event
    ∷ ts Numbers.standalone_sig
    ∷ ts Numbers.module_ref
    ∷ ts Numbers.type_spec
    ∷ ts Numbers.assembly
    ∷ ts Numbers.assembly_ref
    ∷ ts Numbers.file
    ∷ ts Numbers.exported_type
    ∷ ts Numbers.manifest_resource
    ∷ ts Numbers.generic_param
    ∷ ts Numbers.generic_param_constraint
    ∷ ts Numbers.method_spec
    ∷ []

abbrev pub has_field_marshal : Tables → List TableData
has_field_marshal ts = ts Numbers.field ∷ ts Numbers.param ∷ []

abbrev pub has_decl_security : Tables → List TableData
has_decl_security ts = ts Numbers.type_def ∷ ts Numbers.method_def ∷ ts Numbers.assembly ∷ []

abbrev pub member_ref_parent : Tables → List TableData
member_ref_parent ts =
    ts Numbers.type_def
    ∷ ts Numbers.type_ref
    ∷ ts Numbers.module_ref
    ∷ ts Numbers.method_def
    ∷ ts Numbers.type_spec
    ∷ []

abbrev pub has_semantics : Tables → List TableData
has_semantics ts = ts Numbers.event ∷ ts Numbers.property ∷ []

abbrev pub method_def_or_ref : Tables → List TableData
method_def_or_ref ts = ts Numbers.method_def ∷ ts Numbers.member_ref ∷ []

abbrev pub member_forwarded : Tables → List TableData
member_forwarded ts = ts Numbers.field ∷ ts Numbers.method_def ∷ []

abbrev pub implementation : Tables → List TableData
implementation ts = ts Numbers.file ∷ ts Numbers.assembly_ref ∷ ts Numbers.exported_type ∷ []

abbrev pub custom_attribute_type : Tables → List TableData
custom_attribute_type ts =
    ts Numbers.method_def ∷ ts Numbers.member_ref ∷ empty_table ∷ empty_table ∷ empty_table ∷ []

abbrev pub resolution_scope : Tables → List TableData
resolution_scope ts =
    ts Numbers.module' ∷ ts Numbers.module_ref ∷ ts Numbers.assembly_ref ∷ ts Numbers.type_ref ∷ []

abbrev pub type_or_method_def : Tables → List TableData
type_or_method_def ts = ts Numbers.type_def ∷ ts Numbers.method_def ∷ []
