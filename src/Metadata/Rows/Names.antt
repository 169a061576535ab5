-- ===== src/Metadata/Rows/Names.antt =====
-- The names in rows: crates/gen/src/tables/type_ref.rs, member_ref.rs, module_ref.rs, generic_param.rs and param.rs,
-- and those that a coded index leads to (parser/codes.rs). A full name is a namespace and a name.
use windows_rs.Base.{
  ℕ, Outcome, ok, panic, Fault, ◌>>=◌, Mode, Bool, ◌&&◌, List, [], ◌∷◌, Option, none, some,
}
use windows_rs.Base.Text.{Text, same_text}
use windows_rs.Metadata.File.{Row, u32, str}
use windows_rs.Metadata.Types.{TypeDef, row_of}
use windows_rs.Metadata.Codes.ResolutionScope.{ResolutionScope}
use windows_rs.Metadata.Codes.ResolutionScope
use windows_rs.Metadata.Codes.MemberRefParent.{MemberRefParent}
use windows_rs.Metadata.Codes.MemberRefParent
use windows_rs.Metadata.Codes.TypeDefOrRef.{TypeDefOrRef}

-- `Row::u32` and `Row::str`
unfoldable pub row_u32 : Mode → Row → ℕ → Outcome ℕ
unfolding u32
row_u32 m r column = u32 m r.file r.row r.table column

unfoldable pub row_str : Mode → Row → ℕ → Outcome Text
unfolding str
row_str m r column = str m r.file r.row r.table column

-- `next` of an iterator over rows
abbrev pub first : List Row → Option Row
first [] = none
first (r ∷ rest) = some r

abbrev pub FullName : Type 0
FullName = Text × Text

-- `==` of full names
abbrev pub same_name : FullName → FullName → Bool
same_name (namespace, name) (namespace', name') =
    same_text namespace namespace' && same_text name name'

abbrev full_name_of : Outcome Text → Outcome Text → Outcome FullName
full_name_of namespace name = do n ← namespace; k ← name; ok (n, k)

-- `TypeDef::name`, `namespace` and `full_name`
unfoldable pub name : Mode → TypeDef → Outcome Text
unfolding row_str
name m d = row_str m (row_of d) 1

unfoldable pub namespace : Mode → TypeDef → Outcome Text
unfolding row_str
namespace m d = row_str m (row_of d) 2

unfoldable pub full_name : Mode → TypeDef → Outcome FullName
unfolding name namespace
full_name m d = full_name_of (namespace m d) (name m d)

-- Those of `TypeRef`
unfoldable pub ref_name : Mode → Row → Outcome Text
unfolding row_str
ref_name m r = row_str m r 1

unfoldable pub ref_namespace : Mode → Row → Outcome Text
unfolding row_str
ref_namespace m r = row_str m r 2

unfoldable pub ref_full_name : Mode → Row → Outcome FullName
unfolding ref_name ref_namespace
ref_full_name m r = full_name_of (ref_namespace m r) (ref_name m r)

unfoldable pub ref_scope : Mode → Row → Outcome ResolutionScope
unfolding row_u32 ResolutionScope.decode
ref_scope m r = do code ← row_u32 m r 0; ResolutionScope.decode m r.file code

-- Those of `TypeDefOrRef`
unfoldable pub code_namespace : Mode → TypeDefOrRef → Outcome Text
unfolding namespace ref_namespace
code_namespace m (TypeDefOrRef.type_def d) = namespace m d
code_namespace m (TypeDefOrRef.type_ref r) = ref_namespace m r
code_namespace m (TypeDefOrRef.type_spec r) = panic Fault.unexpected

unfoldable pub code_name : Mode → TypeDefOrRef → Outcome Text
unfolding name ref_name
code_name m (TypeDefOrRef.type_def d) = name m d
code_name m (TypeDefOrRef.type_ref r) = ref_name m r
code_name m (TypeDefOrRef.type_spec r) = panic Fault.unexpected

unfoldable pub code_full_name : Mode → TypeDefOrRef → Outcome FullName
unfolding full_name ref_full_name
code_full_name m (TypeDefOrRef.type_def d) = full_name m d
code_full_name m (TypeDefOrRef.type_ref r) = ref_full_name m r
code_full_name m (TypeDefOrRef.type_spec r) = panic Fault.unexpected

-- Those of `MemberRefParent`
unfoldable pub parent_name : Mode → MemberRefParent → Outcome Text
unfolding name ref_name
parent_name m (MemberRefParent.type_def d) = name m d
parent_name m (MemberRefParent.type_ref r) = ref_name m r
parent_name m _ = panic Fault.unexpected

unfoldable pub parent_full_name : Mode → MemberRefParent → Outcome FullName
unfolding full_name ref_full_name
parent_full_name m (MemberRefParent.type_def d) = full_name m d
parent_full_name m (MemberRefParent.type_ref r) = ref_full_name m r
parent_full_name m _ = panic Fault.unexpected

-- `MemberRef::name` and `parent`
unfoldable pub member_name : Mode → Row → Outcome Text
unfolding row_str
member_name m r = row_str m r 1

unfoldable pub member_parent : Mode → Row → Outcome MemberRefParent
unfolding row_u32 MemberRefParent.decode
member_parent m r = do code ← row_u32 m r 0; MemberRefParent.decode m r.file code

-- The names of `Field`, `MethodDef`, `Param`, `GenericParam` and `ModuleRef`
unfoldable pub field_name : Mode → Row → Outcome Text
unfolding row_str
field_name m r = row_str m r 1

unfoldable pub method_name : Mode → Row → Outcome Text
unfolding row_str
method_name m r = row_str m r 3

unfoldable pub param_name : Mode → Row → Outcome Text
unfolding row_str
param_name m r = row_str m r 2

unfoldable pub generic_param_name : Mode → Row → Outcome Text
unfolding row_str
generic_param_name m r = row_str m r 3

unfoldable pub module_ref_name : Mode → Row → Outcome Text
unfolding row_str
module_ref_name m r = row_str m r 0
