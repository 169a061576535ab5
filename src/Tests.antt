-- ===== src/Tests.antt =====
-- The theorems at concrete inputs, and runs of the definitions.
mod Tables
mod Samples
mod Files
mod Counters
mod Values
mod Loader
mod Rows
mod Reader
mod Parents
mod Imports
mod Generated
mod Strings
mod Signatures
mod Kinds
mod Metadata
mod Attributes
mod Shapes
mod Classes
mod Factories
