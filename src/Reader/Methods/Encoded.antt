-- ===== src/Reader/Methods/Encoded.antt =====
-- The signature of a method is read back as ECMA-335, II.23.2 writes it.
use windows_rs.Base.{
  ℕ, suc, ◌≤◌, ◌≡◌, ◌≢◌, refl, List, [], ◌∷◌, ◌++◌, map, Bool, false, ◌==◌, Option, none, some, All,
  ok, Mode, length, arith,
}
use windows_rs.Metadata.File.{Row, Blob}
use windows_rs.Metadata.Blob.{advance}
use windows_rs.Metadata.Blob.Numbers.{read_unsigned-compressed}
use windows_rs.Metadata.Compressed.{compressed, IsCompressible}
use windows_rs.Metadata.Types.{ElementType, Signature, signature, ElementTypes}
use windows_rs.Metadata.Types.FromCode.{from_code}
use windows_rs.Metadata.Rows.Members.{sequence}
use windows_rs.Reader.Loading.{TypeReader}
use windows_rs.Reader.Signatures.{any_const, signature_with, signature_from_blob}
use windows_rs.Reader.Signatures.Marks.{At, At-advance, read_same, read_other, read_no_modifiers}
use windows_rs.Reader.Signatures.Elements.{encoded, signature_from_blob-encoded}
use windows_rs.Reader.Methods.{MethodParam, read_params, signature_behind}

-- A type as it stands in a signature.
pub record Slot : Type 0 where
  pub by_ref : Bool
  pub is_array : Bool
  pub pointers : ℕ
  pub code : ℕ
  pub type : ElementType

abbrev pub IsSlot : Slot → Type 0
IsSlot s = (from_code s.code ≡ some s.type) × (s.code ≡ 0x01 → 1 ≤ s.pointers)

abbrev pub put_slot : Slot → List ℕ → List ℕ
put_slot s = encoded s.by_ref s.is_array s.pointers s.code

abbrev pub signature_of : Slot → Signature
signature_of s = signature s.type s.pointers s.by_ref false s.is_array

-- A method's row of a parameter: the return value's, or another with its type.
abbrev pub Entry : Type 0
Entry = Row × Option Slot

abbrev pub row : Entry → Row
row e = e.0

abbrev pub IsEntry : Mode → Entry → Type 0
IsEntry m (r, none) = sequence m r ≡ ok 0
IsEntry m (r, some s) = IsSlot s × ((n : ℕ) × (sequence m r ≡ ok n) × (n ≢ 0))

abbrev pub put_entries : List Entry → List ℕ → List ℕ
put_entries [] l = l
put_entries ((r, none) ∷ rest) l = put_entries rest l
put_entries ((r, some s) ∷ rest) l = put_slot s (put_entries rest l)

abbrev pub params_of : List Entry → List MethodParam
params_of [] = []
params_of ((r, none) ∷ rest) = params_of rest
params_of ((r, some s) ∷ rest) = record { param = r; signature = signature_of s } ∷ params_of rest

abbrev pub IsReturn : Option Slot → Type 0
IsReturn none = Unit
IsReturn (some s) = IsSlot s

abbrev pub put_return : Option Slot → List ℕ → List ℕ
put_return none l = 0x01 ∷ l
put_return (some s) l = put_slot s l

abbrev pub return_of : Option Slot → Option Signature
return_of none = none
return_of (some s) = some (signature_of s)

-- The convention, the count of the parameters, the return type and the parameters' types.
abbrev pub put_method : ℕ → ℕ → Option Slot → List Entry → List ℕ → List ℕ
put_method convention count result entries l =
    compressed convention ++ (compressed count ++ put_return result (put_entries entries l))

ne_zero : (n : ℕ) → n ≢ 0 → (n == 0) ≡ false
ne_zero n h = ground arith

module _ (m : Mode) (reader : TypeReader) (generics : ElementTypes) (fuel : ℕ) where
  read_void :
      (b : Blob) (l : List ℕ)
      → At b (0x01 ∷ l)
      → signature_from_blob m reader generics (suc fuel) b ≡ ok (none, advance b 1)
  unfolding signature_from_blob signature_with any_const
  read_void b l at =
      rw
        (
          read_no_modifiers m b 0x01 l (omega arith) (λ e. absurd (omega arith))
              (λ e. absurd (omega arith)) at,
          read_other b 0x01 0x10 l (omega arith) (λ e. absurd (omega arith)) at,
          read_same b 0x01 l (omega arith) at,
        )
        refl

  read_return :
      (result : Option Slot) (b : Blob) (l : List ℕ)
      → IsReturn result
      → At b (put_return result l)
      → (b' : Blob) × (signature_from_blob m reader generics (suc fuel) b
          ≡ ok (return_of result, b'))
        × At b' l
  read_return none b l h at = (advance b 1, read_void b l at, At-advance b 0x01 l at)
  read_return (some s) b l h at =
      let (b', e, same, at') =
        signature_from_blob-encoded m reader generics fuel s.by_ref s.is_array s.pointers s.code
          s.type l b h.0 h.1 at in
      (b', e, at')

  read_params-put_entries :
      (entries : List Entry) (b : Blob) (l : List ℕ)
      → All (IsEntry m) entries
      → At b (put_entries entries l)
      → (b' : Blob) × (read_params m reader generics (suc fuel) (map row entries) b
          ≡ ok (params_of entries, b'))
  unfolding read_params
  read_params-put_entries [] b l h at = (b, refl)
  read_params-put_entries ((r, none) ∷ rest) b l h at =
      let (b', e) = read_params-put_entries rest b l h.1 at in (b', rw (h.0, e) refl)
  read_params-put_entries ((r, some s) ∷ rest) b l h at =
      let is_slot = h.0.0 in
      let (n, number, counted) = h.0.1 in
      let (b1, e1, same, at1) =
        signature_from_blob-encoded m reader generics fuel s.by_ref s.is_array s.pointers s.code
          s.type (put_entries rest l) b is_slot.0 is_slot.1 at in
      let (b', e) = read_params-put_entries rest b1 l h.1 at1 in
      let test : (n == 0) ≡ false = ne_zero n counted in (b', rw (number, test, e1, e) refl)

-- For a method whose types are element types, `void` only alone as the return type or behind a pointer: where the cursor stands at
-- the written signature, the row with the sequence number 0, wherever it stands, takes none of it, and every other row is paired
-- in order with the type that is written for it; the return type is the one written, or none for `void`.
pub signature_behind-put_method :
    (m : Mode) (reader : TypeReader) (generics : ElementTypes) (fuel convention count : ℕ)
    (result : Option Slot) (entries : List Entry) (l : List ℕ) (b : Blob)
    → IsCompressible convention
    → IsCompressible count
    → IsReturn result
    → All (IsEntry m) entries
    → At b (put_method convention count result entries l)
    → signature_behind m reader generics (suc fuel) (map row entries) b
      ≡ ok (record { params = params_of entries; return_type = return_of result })
unfolding signature_behind
signature_behind-put_method m reader generics fuel convention count result entries l b small small'
      is_return are_entries at =
    let written = put_return result (put_entries entries l) in
    let (e1, at1) = read_unsigned-compressed b convention (compressed count ++ written) small at in
    let b1 = advance b (length (compressed convention)) in
    let (e2, at2) = read_unsigned-compressed b1 count written small' at1 in
    let b2 = advance b1 (length (compressed count)) in
    let (b3, e3, at3) =
      read_return m reader generics fuel result b2 (put_entries entries l) is_return at2 in
    let (b4, e4) = read_params-put_entries m reader generics fuel entries b3 l are_entries at3 in
    rw (e1, e2, e3, e4) refl
