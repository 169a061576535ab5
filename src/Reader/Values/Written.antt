-- ===== src/Reader/Values/Written.antt =====
-- Numbers and strings are read back from what a writer of metadata puts into a blob.
use native.Mathlib.Nat.{pow-succ'}
use windows_rs.Base.{
  ℕ, zero, suc, ◌+◌, ◌-◌, ◌*◌, ◌/◌, ◌%◌, ◌^◌, ◌<◌, ◌≤◌, ◌≡◌, refl, ap, ◌∙◌, List, ◌∷◌, ◌++◌, true,
  Outcome, ok, length, take, drop, length-append, length-drop, length-of_drop, take-append,
  drop-drop, drop_add, arith,
}
use windows_rs.Base.Text.{Text}
use windows_rs.Base.Tests.{le→leb}
use windows_rs.Base.Utf8.{is_utf8}
use windows_rs.Base.Bytes.{from_le_bytes}
use windows_rs.Metadata.File.{Blob, slice, slice_from}
use windows_rs.Metadata.Blob.{read_le, rest, advance}
use windows_rs.Metadata.Blob.Numbers.{read_unsigned-compressed}
use windows_rs.Metadata.Blob.Strings.{read_str}
use windows_rs.Metadata.Compressed.{compressed, IsCompressible, one, two, four, form}
use windows_rs.Reader.Signatures.Marks.{At}

-- A function that reads this value off these bytes, whatever stands behind them.
abbrev pub Reads {ℓ} : {A : Type ℓ} → (Blob → Outcome (A × Blob)) → (List ℕ → List ℕ) → A → Type ℓ
Reads read put value =
    (b : Blob) (l : List ℕ)
    → At b (put l)
    → (b' : Blob) × (read b ≡ ok (value, b')) × (b'.file ≡ b.file) × At b' l

-- A number in `width` bytes, the lowest one first.
abbrev pub put_le : ℕ → ℕ → List ℕ → List ℕ
put_le zero n l = l
put_le (suc width) n l = (n % 256) ∷ put_le width (n / 256) l

length-put_le : (width n : ℕ) (l : List ℕ) → length (put_le width n l) ≡ width + length l
length-put_le zero n l = omega arith
length-put_le (suc width) n l = omega (arith, length-put_le width (n / 256) l)

from_le_bytes-put_le :
    (width n : ℕ) (l : List ℕ) → n < 256 ^ width → from_le_bytes (take width (put_le width n l)) ≡ n
from_le_bytes-put_le zero n l h = let e : 256 ^ 0 ≡ 1 = refl in omega arith
from_le_bytes-put_le (suc width) n l h =
    let e : 256 ^ suc width ≡ 256 * 256 ^ width = pow-succ' 256 width in
    let ih = from_le_bytes-put_le width (n / 256) l (omega arith) in rw ih (omega arith)

drop-put_le : (width n : ℕ) (l : List ℕ) → drop width (put_le width n l) ≡ l
drop-put_le zero n l = refl
drop-put_le (suc width) n l = drop-put_le width (n / 256) l

pub read_le-put_le :
    (width n : ℕ) → n < 256 ^ suc width → Reads (read_le (suc width)) (put_le (suc width) n) n
unfolding read_le rest slice slice_from
read_le-put_le width n h b l at =
    let size = length-of_drop b.offset b.file.bytes at in
    let whole_width : suc width - 0 ≡ suc width = omega arith in
    let behind = length-put_le width (n / 256) l in
    (
      advance b (suc width),
      rw
          (
            le→leb b.offset (length b.file.bytes) (omega arith),
            at,
            le→leb 0 (suc width) (omega arith),
            le→leb (suc width) (length (put_le (suc width) n l)) (omega arith),
            whole_width,
            from_le_bytes-put_le (suc width) n l h,
          )
          refl,
      refl,
      drop_add b.offset (suc width) b.file.bytes
          ∙ ap (drop (suc width)) at
          ∙ drop-put_le (suc width) n l,
    )

-- A string behind its length.
abbrev pub put_str : Text → List ℕ → List ℕ
put_str s l = compressed (length s) ++ (s ++ l)

compressed_pos : (n : ℕ) → 1 ≤ length (compressed n)
compressed_pos n = elim (form n) [
  | one h e ↦ rw e (omega arith)
  | two h h' e ↦ rw e (omega arith)
  | four h e ↦ rw e (omega arith)
]

pub read_str-put_str :
    (s : Text) → IsCompressible (length s) → is_utf8 s ≡ true → Reads read_str (put_str s) s
unfolding read_str slice
read_str-put_str s h valid b l at =
    let (e, at1) = read_unsigned-compressed b (length s) (s ++ l) h at in
    let start : ℕ = b.offset + length (compressed (length s)) in
    let size = length-drop b.offset b.file.bytes in
    let whole = ap (λ (t : List ℕ). length t) at in
    let parts = length-append (compressed (length s)) (s ++ l) in
    let parts' = length-append s l in
    let some_bytes = compressed_pos (length s) in
    let taken_width : start + length s - start ≡ length s = omega arith in
    let back : start + length s - length s ≡ start = omega arith in
    (
      advance (advance b (length (compressed (length s)))) (length s),
      rw
          (
            e,
            back,
            le→leb start (start + length s) (omega arith),
            le→leb (start + length s) (length b.file.bytes) (omega arith),
            taken_width,
            at1,
            take-append s l,
            valid,
          )
          refl,
      refl,
      drop-drop start (length s) b.file.bytes s l at1 refl,
    )
