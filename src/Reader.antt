-- ===== src/Reader.antt =====
-- The reader of types, which gathers the types of all metadata files in a tree of namespaces and marks the
-- ones to generate: crates/gen/src/parser/type_tree.rs and type_reader.rs.
pub mod Tree
pub mod Registry
pub mod WellKnown
pub mod Loading
pub mod Import
pub mod Signatures
pub mod Values
pub mod Shapes
pub mod Methods
pub mod Interfaces
pub mod Classes
pub mod Dependencies
pub mod TypeNames
