-- ===== src/Metadata/Codes.antt =====
-- The coded indices of crates/gen/src/parser/codes.rs: a row number and a tag, which tells the table, in
-- one number. A child for each `Decode` type; here is the arithmetic that they share.
pub mod TypeDefOrRef
pub mod TypeOrMethodDef
pub mod HasAttribute
pub mod MemberRefParent
pub mod HasConstant
pub mod AttributeType
pub mod MemberForwarded
pub mod ResolutionScope
pub mod Packing
