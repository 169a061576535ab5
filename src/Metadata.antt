-- ===== src/Metadata.antt =====
-- The metadata reader: crates/gen/src/parser.
pub mod Table
pub mod File
pub mod Loader
pub mod Order
pub mod Rows
pub mod Search
pub mod Types
pub mod Codes
pub mod Compressed
pub mod Blob
pub mod Constants
