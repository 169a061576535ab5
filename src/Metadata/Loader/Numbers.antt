-- ===== src/Metadata/Loader/Numbers.antt =====
-- The numbers that the metadata format gives to the tables, as the `match` of `File::from_bytes` has them.
use windows_rs.Base.{ℕ, List, [], ◌∷◌}

abbrev pub module' : ℕ
module' = 0x00

abbrev pub type_ref : ℕ
type_ref = 0x01

abbrev pub type_def : ℕ
type_def = 0x02

abbrev pub field : ℕ
field = 0x04

abbrev pub method_def : ℕ
method_def = 0x06

abbrev pub param : ℕ
param = 0x08

abbrev pub interface_impl : ℕ
interface_impl = 0x09

abbrev pub member_ref : ℕ
member_ref = 0x0a

abbrev pub constant : ℕ
constant = 0x0b

abbrev pub custom_attribute : ℕ
custom_attribute = 0x0c

abbrev pub field_marshal : ℕ
field_marshal = 0x0d

abbrev pub decl_security : ℕ
decl_security = 0x0e

abbrev pub class_layout : ℕ
class_layout = 0x0f

abbrev pub field_layout : ℕ
field_layout = 0x10

abbrev pub standalone_sig : ℕ
standalone_sig = 0x11

abbrev pub event_map : ℕ
event_map = 0x12

abbrev pub event : ℕ
event = 0x14

abbrev pub property_map : ℕ
property_map = 0x15

abbrev pub property : ℕ
property = 0x17

abbrev pub method_semantics : ℕ
method_semantics = 0x18

abbrev pub method_impl : ℕ
method_impl = 0x19

abbrev pub module_ref : ℕ
module_ref = 0x1a

abbrev pub type_spec : ℕ
type_spec = 0x1b

abbrev pub impl_map : ℕ
impl_map = 0x1c

abbrev pub field_rva : ℕ
field_rva = 0x1d

abbrev pub assembly : ℕ
assembly = 0x20

abbrev pub assembly_processor : ℕ
assembly_processor = 0x21

abbrev pub assembly_os : ℕ
assembly_os = 0x22

abbrev pub assembly_ref : ℕ
assembly_ref = 0x23

abbrev pub assembly_ref_processor : ℕ
assembly_ref_processor = 0x24

abbrev pub assembly_ref_os : ℕ
assembly_ref_os = 0x25

abbrev pub file : ℕ
file = 0x26

abbrev pub exported_type : ℕ
exported_type = 0x27

abbrev pub manifest_resource : ℕ
manifest_resource = 0x28

abbrev pub nested_class : ℕ
nested_class = 0x29

abbrev pub generic_param : ℕ
generic_param = 0x2a

abbrev pub method_spec : ℕ
method_spec = 0x2b

abbrev pub generic_param_constraint : ℕ
generic_param_constraint = 0x2c

-- The arms of the `match`.
abbrev pub known : List ℕ
known =
    module' ∷ type_ref ∷ type_def ∷ field ∷ method_def ∷ param ∷ interface_impl ∷ member_ref
    ∷ constant ∷ custom_attribute ∷ field_marshal ∷ decl_security ∷ class_layout ∷ field_layout
    ∷ standalone_sig ∷ event_map ∷ event ∷ property_map ∷ property ∷ method_semantics ∷ method_impl
    ∷ module_ref ∷ type_spec ∷ impl_map ∷ field_rva ∷ assembly ∷ assembly_processor ∷ assembly_os
    ∷ assembly_ref ∷ assembly_ref_processor ∷ assembly_ref_os ∷ file ∷ exported_type
    ∷ manifest_resource ∷ nested_class ∷ generic_param ∷ method_spec ∷ generic_param_constraint ∷ []

-- The order of the calls of `set_data`. Nothing stands behind the tables that are left out.
abbrev pub placing_order : List ℕ
placing_order =
    module' ∷ type_ref ∷ type_def ∷ field ∷ method_def ∷ param ∷ interface_impl ∷ member_ref
    ∷ constant ∷ custom_attribute ∷ field_marshal ∷ decl_security ∷ class_layout ∷ field_layout
    ∷ standalone_sig ∷ event_map ∷ event ∷ property_map ∷ property ∷ method_semantics ∷ method_impl
    ∷ module_ref ∷ type_spec ∷ impl_map ∷ field_rva ∷ assembly ∷ assembly_processor ∷ assembly_os
    ∷ assembly_ref ∷ assembly_ref_processor ∷ assembly_ref_os ∷ file ∷ exported_type
    ∷ manifest_resource ∷ nested_class ∷ generic_param ∷ []
