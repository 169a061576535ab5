-- ===== src/Metadata/File/Blobs.antt =====
-- `blob` against the specification of blob headers.
use Prim.Native.Nat.{bit_and}
use windows_rs.Base.{
  ℕ, suc, ◌+◌, ◌-◌, ◌/◌, ◌%◌, ◌^◌, ◌<◌, ◌≤◌, ◌≡◌, refl, ap, List, [], ◌∷◌, ◌++◌, ok, length, drop,
  length-of_drop, length-drop, length-append, take-append, drop-next, get_elem?-drop, arith, Mode,
  u32_mod,
}
use windows_rs.Base.Tests.{le→leb, gt→leb, eq→==}
use windows_rs.Base.Word.{add_u32_ok}
use windows_rs.Metadata.Table.{TableIndex}
use windows_rs.Metadata.File.{File, u32, slice, size_prefix, add_bytes, blob}
use windows_rs.Metadata.File.Cells.{index_ok}
use windows_rs.Metadata.Compressed.{
  compressed, IsCompressible, one, two, four, form, low_seven, low_six, low_five,
}

pub slice_ok :
    (bytes : List ℕ) (from to : ℕ) (front after : List ℕ)
    → drop from bytes ≡ front ++ after
    → from ≤ length bytes
    → from + length front ≡ to
    → slice bytes from to ≡ ok front
unfolding slice
slice_ok bytes from to front after h inside e =
    let count : to - from ≡ length front = omega arith in
    let long : to ≤ length bytes =
      omega (
        arith,
        length-drop from bytes,
        ap (λ (l : List ℕ). length l) h,
        length-append front after,
      ) in
    rw (
      le→leb from to (omega arith),
      le→leb to (length bytes) long,
      count,
      h,
      take-append front after,
    )

-- The header is its first byte and the bytes that this byte announces.
blob_ok :
    (m : Mode) (f : File) (row : ℕ) (table : TableIndex) (column at first value n : ℕ)
    (front after : List ℕ)
    → u32 m f row table column ≡ ok at
    → f.blobs + at < u32_mod
    → drop (f.blobs + at) f.bytes ≡ first ∷ front ++ after
    → size_prefix first ≡ ok (value, suc (length front))
    → add_bytes value front ≡ n
    → blob m f row table column
      ≡ ok (record { file = f; offset = f.blobs + at + suc (length front); size = n })
unfolding blob
blob_ok m f row table column at first value n front after cell fits h p total =
    let o : ℕ = f.blobs + at in
    let next : o + 1 ≡ suc o = omega arith in
    let shape : drop (o + 1) f.bytes ≡ front ++ after = rw next (drop-next o f.bytes h) in
    let inside : o + 1 ≤ length f.bytes = omega (arith, length-of_drop o f.bytes h) in
    rw (
      cell,
      add_u32_ok m f.blobs at fits,
      index_ok f.bytes o (get_elem?-drop o f.bytes h),
      p,
      slice_ok f.bytes (o + 1) (o + suc (length front)) front after shape inside (omega arith),
      total,
    )

-- In every build: where the blob heap holds a compressed size `n` at the place that the cell names, the
-- blob has that size and begins right behind it.
pub blob-compressed :
    (m : Mode) (f : File) (row : ℕ) (table : TableIndex) (column at n : ℕ) (after : List ℕ)
    → u32 m f row table column ≡ ok at
    → f.blobs + at < u32_mod
    → IsCompressible n
    → drop (f.blobs + at) f.bytes ≡ compressed n ++ after
    → blob m f row table column
      ≡ ok (record { file = f; offset = f.blobs + at + length (compressed n); size = n })
unfolding size_prefix add_bytes
blob-compressed m f row table column at n after cell fits h e = elim (form n) [
  | one k c ↦
      let shape : drop (f.blobs + at) f.bytes ≡ n ∷ after = rw c at e in
      let mask : bit_and n 0x7f ≡ n = omega (arith, low_seven n) in
      rw c (
        blob_ok m f row table column at n n n [] after cell fits shape
          (rw (le→leb (n / 2 ^ 5) 3 (omega arith), mask)) refl)
  | two k l c ↦
      let first : ℕ = n / 2 ^ 8 + 0x80 in
      let front : List ℕ = (n % 2 ^ 8) ∷ [] in
      let shape : drop (f.blobs + at) f.bytes ≡ first ∷ front ++ after = rw c at e in
      let mask : bit_and first 0x3f ≡ n / 2 ^ 8 = omega (arith, low_six first) in
      rw c (
        blob_ok m f row table column at first (n / 2 ^ 8) n front after cell fits shape
          (rw
            (gt→leb (first / 2 ^ 5) 3 (omega arith), le→leb (first / 2 ^ 5) 5 (omega arith), mask))
          (omega arith))
  | four k c ↦
      let first : ℕ = n / 2 ^ 24 + 0xc0 in
      let front : List ℕ = (n / 2 ^ 16 % 2 ^ 8) ∷ (n / 2 ^ 8 % 2 ^ 8) ∷ (n % 2 ^ 8) ∷ [] in
      let shape : drop (f.blobs + at) f.bytes ≡ first ∷ front ++ after = rw c at e in
      let mask : bit_and first 0x1f ≡ n / 2 ^ 24 = omega (arith, low_five first) in
      rw c (
        blob_ok m f row table column at first (n / 2 ^ 24) n front after cell fits shape
          (rw (
            gt→leb (first / 2 ^ 5) 3 (omega arith),
            gt→leb (first / 2 ^ 5) 5 (omega arith),
            eq→== (first / 2 ^ 5) 6 (omega arith),
            mask,
          ))
          (omega arith))
]
