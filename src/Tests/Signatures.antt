-- ===== src/Tests/Signatures.antt =====
-- A signature in a blob: a reference to a pointer to `void`.
use windows_rs.Base.{◌≡◌, refl, [], ◌∷◌, some, ok, drop, true, false, trap, arith}
use windows_rs.Metadata.Table.{empty_table}
use windows_rs.Metadata.File.{File, Blob}
use windows_rs.Metadata.Types.{ElementType, signature, nil}
use windows_rs.Metadata.Types.FromCode.{from_code}
use windows_rs.Reader.Tree.{from_namespace}
use windows_rs.Reader.Loading.{TypeReader}
use windows_rs.Reader.Signatures.{signature_from_blob}
use windows_rs.Reader.Signatures.Elements.{signature_from_blob-encoded}

abbrev file : File
file = record {
  name = "signature.winmd";
  bytes = 0 ∷ 0x10 ∷ 0x0f ∷ 0x01 ∷ 9 ∷ [];
  bytes_at = 4096;
  strings = 0;
  blobs = 0;
  tables = λ t. empty_table;
}

abbrev cursor : Blob
cursor = record { file = file; offset = 1; size = 3 }

abbrev no_types : TypeReader
no_types = record { nested = []; types = from_namespace [] }

signature_from_blob-encoded_example :
    (b' : Blob) × (signature_from_blob trap no_types nil 1 cursor
      ≡ ok (some (signature ElementType.void 1 true false false), b'))
    × (b'.file ≡ file)
    × (drop b'.offset b'.file.bytes ≡ 9 ∷ [])
unfolding from_code
signature_from_blob-encoded_example =
    signature_from_blob-encoded trap no_types nil 0 true false 1 0x01 ElementType.void (9 ∷ [])
      cursor refl (λ e. omega arith) refl
