-- ===== src/Lib.antt =====
-- windows-rs: the reader of Windows metadata and the runtime support of the generated bindings.
--
-- The program reads metadata files (crates/gen/src/parser), finds types, methods and fields in them by
-- searches over sorted tables, and generates Rust bindings from them. The bindings stand on a small runtime
-- (src/runtime, src/result): guids, result codes and the reference counts of COM objects.
--
-- The files and the code that they are about:
--   Base        what the other files share: lists on native indices, Rust's unsigned arithmetic with and
--               without overflow checks, panics as values, masks and shifts as arithmetic.
--   Metadata/Table       `TableData`, `composite_index_size` of crates/gen/src/parser/file.rs; Layout is
--               about columns and row places, Width about the width of coded indices.
--   Metadata/File        `File::u32`, `str`, `list`, `blob` and `copy_as` of the same file, and `Row` of
--               parser/row.rs; Cells and Blobs have the theorems.
--   Metadata/Loader      `File::from_bytes` from the header of the tables on: Numbers, Choices, Indices and
--               Columns have its data, Places the theorems; Sections is about
--               `section_from_rva` and `offset_from_rva`.
--   Metadata/Order       the order and equality of `Row` in parser/row.rs.
--   Metadata/Search      `lower_bound_of`, `upper_bound_of`, `equal_range_of`, `equal_range`; Bounds and
--               Ranges are about the loops, Columns about a column of a file.
--   Metadata/Types       the data of parser/element_type.rs, parser/signature.rs and tables/type_def.rs; FromCode
--               is about `ElementType::from_code`, Equality about `==` on types.
--   Metadata/Rows        what rows say, by the tables of crates/gen/src/tables and the flags of parser: Names,
--               Attributes, TypeDefs, Members and Flags have the operations, Kinds is about types, Parents about the
--               rows that a type lists.
--   Metadata/Codes       `decode` and `encode` of parser/codes.rs, one file for each kind of code.
--   Metadata/Compressed, Metadata/Blob   the cursor of parser/blob.rs over compressed numbers, with Strings.
--   Metadata/Constants   parser/constant_value.rs.
--   Reader/Tree          `TypeTree` of parser/type_tree.rs; Searches and Changes are about what its searches find.
--   Reader/Registry      the tree as a map from namespace and name to a row; Pieces, Loads and Marks have the lemmas.
--   Reader/Loading       `TypeReader::new` of parser/type_reader.rs, with Gathered; WellKnown has its tables,
--               Ticks is about `trim_tick`.
--   Reader/Import        `import_type` and what it calls, on the marks of the tree: Marking says what an import may
--               change, Weight why it ends, Raising and Closure what it leaves for any way of finding
--               dependencies, Program and Minimal what it does with those of Reader/Dependencies.
--   Reader/Signatures    the resolution of types and the parser of signatures in parser/type_reader.rs; Marks is about
--               single bytes, Elements about signatures of element types.
--   Reader/Values        `Attribute::args` of tables/attribute.rs, `Constant::value` and `TypeDef::underlying_type`; Uses has what
--               type_def.rs, method_def.rs and guid.rs of crates/gen/src read off the arguments; Written and
--               Encoded say how ECMA-335 writes them, RoundTrip is about reading them back.
--   Reader/Shapes        `is_blittable`, `is_explicit`, `is_packed` and their kin in type_def.rs, element_type.rs and signature.rs, with Blittable.
--   Reader/Methods       `MethodDef::signature` and the classification in parser/method_signature.rs; Encoded is about
--               reading signatures, Returns about what methods give back.
--   Reader/Interfaces    the interfaces, bases and overridable methods of a type in type_def.rs.
--   Reader/Classes       `Class::interfaces` of types/class.rs and parser/interface_info.rs: Sorted is about the order of
--               interfaces, Numbered about the numbers of methods.
--   Reader/Dependencies  `dependencies` and `definition` of types, methods and fields, with Includes and Levels.
--   Reader/TypeNames     `type_signature`, `interface_signature` and `scoped_name` of type_def.rs, with Balanced.
--   Generate             `Gen::namespace` of crates/gen/src/gen.rs and `to_ident` of to_ident.rs, with Paths and Idents.
--   Runtime/HString      `HSTRING` of src/runtime/hstring.rs: Handles and Strings are about buffers and counts,
--               Sharing and Clearing about one operation, Runs about sequences of them.
--   Runtime/RefCount     src/runtime/ref_count.rs.
--   Runtime/WeakRefCount src/runtime/weak_ref_count.rs: the methods, what their counters stand for
--               (References, Calls), histories of an object (Traces) and the loop of `add_ref` among other threads
--               (Spin).
--   Runtime/Guid         src/runtime/guid.rs: Text is about printing and parsing, Signed about the guids of
--               generic types.
--   Runtime/HResult      src/result/hresult.rs and src/result/error.rs.
--   Runtime/FactoryCache `FactoryCache::call` of src/runtime/factory_cache.rs, as threads run it: References and Counts are
--               about any schedule, Alone about a thread on its own.
--   Runtime/Factory      `factory` of the same file and `delay_load` of delay_load.rs, with Search.
--   Tests       runs at concrete inputs.
--
-- A file reader reads cells through `Table`'s layout; searches and blobs stand on cells; coded indices and
-- compressed numbers are what cells and blobs hold. The type reader asks rows for names, flags and bases, fills
-- the tree, and marks in it what is to be generated. In the runtime strings use the reference count, and so does
-- the weak reference count.
--
-- Numbers are natural numbers. Each operation on u32 says what it does on overflow, by the mode of the
-- build: with overflow checks it panics, without them it wraps. A panic is a value, and so is a read
-- outside a buffer by unsafe code, which no theorem excuses as a panic. Loops that are not structural have
-- fuel: a search one round more than there are rows, since each round drops one at least; the count of
-- tag bits one round for each table; the modifiers of a blob one round more than there are bytes; an import the budget
-- of the marks that can still rise, two for each type, with a level for each nesting of types between two marks.
-- A nested type that depends on itself has no such budget: the code recurs without end there. The
-- parser of signatures has fuel for the signatures inside a signature, and the resolution of a type reference for the
-- references around it, which a file may make endless; a signature of an element type needs one round. What looks into
-- structures, bases and interfaces has, next to that fuel, a depth for their nesting, which a file may make endless too. The
-- search for a factory has one round for each byte of the name and one more. A check by `debug_assert!` is made in the
-- mode with overflow checks.
--
-- Not modelled: the token streams that code generation makes, macros and command line tools; calls into
-- the system, which are parameters where a result is used (the hash of a signature, what a thread has of an
-- error); memory orderings; arrays, whose memory belongs to the system, and the waiter, which holds an event of it. The headers of a metadata file before its
-- tables are left out, and what a row depends on is an argument of an import, which Reader/Import/Program gives. `sort` reads the names of all
-- interfaces, where the source reads those that it compares; a name is cut at bytes of ASCII letters; the
-- reference that a cast to `IAgileObject` holds while it is tested is not counted.
mod Base
pub mod Metadata
pub mod Reader
pub mod Generate
pub mod Runtime
mod Tests
