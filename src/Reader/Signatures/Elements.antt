-- ===== src/Reader/Signatures/Elements.antt =====
-- Signatures of element types, as ECMA-335, II.23.2 writes them, are read back.
use Prim.Native.Nat.{◌<◌}
use windows_rs.Base.{
  ℕ, zero, suc, ◌+◌, ◌≤◌, ◌≡◌, ◌≢◌, refl, sym, ◌∙◌, ap, List, [], ◌∷◌, ◌++◌, Bool, true, false,
  some, Outcome, ok, Mode, length, drop, arith, length-drop,
}
use windows_rs.Metadata.File.{File, Blob}
use windows_rs.Metadata.Blob.{read_expected, read_modifiers, advance}
use windows_rs.Metadata.Types.{ElementType, signature, ElementTypes}
use windows_rs.Metadata.Types.FromCode.{from_code, from_code-is_plain}
use windows_rs.Reader.Loading.{TypeReader}
use windows_rs.Reader.Signatures.{
  any_const, count_pointers, signature_with, type_behind, type_from_blob, signature_from_blob,
}
use windows_rs.Reader.Signatures.Marks.{
  At, At-advance, read_byte, read_other, IsPlain, is_plain-IsPlain, flag, pointer_marks,
  count_pointers_lem, read_flag, read_no_modifiers,
}

-- The first byte of the pointer marks with the code, and of those behind the mark of an array.
abbrev first_mark : ℕ → ℕ → ℕ
first_mark zero code = code
first_mark (suc n) code = 0x0f

abbrev after_first : ℕ → ℕ → List ℕ → List ℕ
after_first zero code l = l
after_first (suc n) code l = pointer_marks n (code ∷ l)

pointer_marks-first :
    (n code : ℕ) (l : List ℕ)
    → pointer_marks n (code ∷ l) ≡ first_mark n code ∷ after_first n code l
pointer_marks-first zero code l = refl
pointer_marks-first (suc n) code l = refl

-- A byte that is read as neither a modifier nor a mark of a reference, nor as `void` alone.
abbrev IsStart : ℕ → Type 0
IsStart x = (x < 0x80) × (x ≢ 0x10) × (x ≢ 0x1f) × (x ≢ 0x20) × (x ≢ 0x01)

first_mark-IsStart :
    (n code : ℕ)
    → IsPlain code
    → (code ≡ 0x01 → 1 ≤ n)
    → IsStart (first_mark n code) × (first_mark n code ≢ 0x1d)
first_mark-IsStart zero code p v =
    ((p.0, p.1, p.4, p.5, λ e. absurd (let w = v e in omega arith)), p.2)
first_mark-IsStart (suc n) code p v = (
  (
    omega arith,
    λ e. absurd (omega arith),
    λ e. absurd (omega arith),
    λ e. absurd (omega arith),
    λ e. absurd (omega arith),
  ),
  λ e. absurd (omega arith),
)

abbrev start : Bool → ℕ → ℕ → ℕ
start true n code = 0x1d
start false n code = first_mark n code

abbrev after_start : Bool → ℕ → ℕ → List ℕ → List ℕ
after_start true n code l = pointer_marks n (code ∷ l)
after_start false n code l = after_first n code l

flag-start :
    (a : Bool) (n code : ℕ) (l : List ℕ)
    → flag a 0x1d ++ pointer_marks n (code ∷ l) ≡ start a n code ∷ after_start a n code l
flag-start true n code l = refl
flag-start false n code l = pointer_marks-first n code l

start-IsStart :
    (a : Bool) (n code : ℕ) → IsPlain code → (code ≡ 0x01 → 1 ≤ n) → IsStart (start a n code)
start-IsStart true n code p v = (
  omega arith,
  λ e. absurd (omega arith),
  λ e. absurd (omega arith),
  λ e. absurd (omega arith),
  λ e. absurd (omega arith),
)
start-IsStart false n code p v = (first_mark-IsStart n code p v).0

length-pointer_marks :
    (n code : ℕ) (l : List ℕ) → length (pointer_marks n (code ∷ l)) ≡ n + suc (length l)
length-pointer_marks zero code l = omega arith
length-pointer_marks (suc n) code l = omega (arith, length-pointer_marks n code l)

-- More bytes than pointer marks.
pointers-le :
    (b : Blob) (n code : ℕ) (l : List ℕ)
    → At b (pointer_marks n (code ∷ l))
    → n < suc (length b.file.bytes)
pointers-le b n code l at = omega (
  arith,
  length-drop b.offset b.file.bytes,
  ap (λ (z : List ℕ). length z) at,
  length-pointer_marks n code l,
)

type_behind-element :
    (m : Mode) (reader : TypeReader) (recur : Blob → Outcome (ElementType × Blob))
    (generics : ElementTypes) (fuel code : ℕ) (b : Blob) (t : ElementType)
    → from_code code ≡ some t
    → type_behind m reader recur generics fuel code b ≡ ok (t, b)
unfolding type_behind
type_behind-element m reader recur generics fuel code b t e = rw (type_behind, e) refl

type_from_element :
    (m : Mode) (reader : TypeReader) (generics : ElementTypes) (fuel : ℕ) (b : Blob) (code : ℕ)
    (t : ElementType) (l : List ℕ)
    → from_code code ≡ some t
    → code < 0x80
    → At b (code ∷ l)
    → type_from_blob m reader generics (suc fuel) b ≡ ok (t, advance b 1)
unfolding type_from_blob
type_from_element m reader generics fuel b code t l e s at =
    let recur = type_from_blob m reader generics fuel in
    rw (read_byte b code l s at)
      (type_behind-element m reader recur generics fuel code (advance b 1) t e)

-- The bytes of a signature: the marks of a reference and of an array, one for each pointer, and the element's code.
abbrev pub encoded : Bool → Bool → ℕ → ℕ → List ℕ → List ℕ
encoded by_ref is_array pointers code after =
    flag by_ref 0x10 ++ (flag is_array 0x1d ++ pointer_marks pointers (code ∷ after))

-- What is read behind the modifiers and the marks of a reference and of `void`.
array_part :
    (m : Mode) (reader : TypeReader) (generics : ElementTypes) (fuel all : ℕ) (is_array : Bool)
    (pointers code : ℕ) (t : ElementType) (after : List ℕ) (b : Blob)
    → from_code code ≡ some t
    → IsPlain code
    → (code ≡ 0x01 → 1 ≤ pointers)
    → length b.file.bytes ≡ all
    → At b (flag is_array 0x1d ++ pointer_marks pointers (code ∷ after))
    → (b4 : Blob) × (b5 : Blob) × (b6 : Blob) × (read_expected b 0x1d ≡ ok (is_array, b4))
      × (count_pointers m reader (suc all) 0 b4 ≡ ok (pointers, b5))
      × (type_from_blob m reader generics (suc fuel) b5 ≡ ok (t, b6))
      × (b6.file ≡ b.file)
      × At b6 after
array_part m reader generics fuel all is_array pointers code t after b e p v size at =
    let begins = first_mark-IsStart pointers code p v in
    let at' = ap (λ l. flag is_array 0x1d ++ l) (pointer_marks-first pointers code after) in
    let (b4, r4, f4, at4) =
      read_flag is_array 0x1d (first_mark pointers code) (after_first pointers code after) b
        (omega arith) begins.0.0 begins.1 (at ∙ at') in
    let at4' = at4 ∙ sym (pointer_marks-first pointers code after) in
    let same_size : length b4.file.bytes ≡ all = ap (λ (f : File). length f.bytes) f4 ∙ size in
    let enough = pointers-le b4 pointers code after at4' in
    let (b5, r5, f5, at5) =
      count_pointers_lem m reader pointers (suc all) 0 b4 code after (omega arith) p at4' in
    let zero_left : 0 + pointers ≡ pointers = omega arith in
    (
      b4,
      b5,
      advance b5 1,
      r4,
      r5 ∙ ap (λ n. ok (n, b5)) zero_left,
      type_from_element m reader generics fuel b5 code t after e p.0 at5,
      f5 ∙ f4,
      At-advance b5 code after at5,
    )

no_modifiers_lem :
    (m : Mode) (by_ref : Bool) (x : ℕ) (l : List ℕ) (b : Blob)
    → IsStart x
    → At b (flag by_ref 0x10 ++ (x ∷ l))
    → read_modifiers m b ≡ ok ([], b)
no_modifiers_lem m true x l b s at =
    read_no_modifiers m b 0x10 (x ∷ l) (omega arith) (λ e. absurd (omega arith))
      (λ e. absurd (omega arith)) at
no_modifiers_lem m false x l b s at = read_no_modifiers m b x l s.0 s.2 s.3 at

signature_with_lem :
    (m : Mode) (reader : TypeReader) (type_from : Blob → Outcome (ElementType × Blob))
    (b b2 b4 b5 b6 : Blob) (by_ref is_array : Bool) (pointers : ℕ) (t : ElementType)
    → read_modifiers m b ≡ ok ([], b)
    → read_expected b 0x10 ≡ ok (by_ref, b2)
    → read_expected b2 0x01 ≡ ok (false, b2)
    → read_expected b2 0x1d ≡ ok (is_array, b4)
    → count_pointers m reader (suc (length b.file.bytes)) 0 b4 ≡ ok (pointers, b5)
    → type_from b5 ≡ ok (t, b6)
    → signature_with m reader type_from b
      ≡ ok (some (signature t pointers by_ref false is_array), b6)
unfolding signature_with any_const
signature_with_lem m reader type_from b b2 b4 b5 b6 by_ref is_array pointers t r1 r2 r3 r4 r5 r6 =
    rw (r1, r2, r3, r4, r5, r6) refl

-- Where the cursor stands at the bytes of a signature of an element type, `void` only behind a pointer or more, in any
-- build: `signature_from_blob` with any fuel but none returns that signature, with no const modifier, and leaves the
-- cursor behind those bytes.
pub signature_from_blob-encoded :
    (m : Mode) (reader : TypeReader) (generics : ElementTypes) (fuel : ℕ) (by_ref is_array : Bool)
    (pointers code : ℕ) (t : ElementType) (after : List ℕ) (b : Blob)
    → from_code code ≡ some t
    → (code ≡ 0x01 → 1 ≤ pointers)
    → drop b.offset b.file.bytes ≡ encoded by_ref is_array pointers code after
    → (b' : Blob) × (signature_from_blob m reader generics (suc fuel) b
        ≡ ok (some (signature t pointers by_ref false is_array), b'))
      × (b'.file ≡ b.file)
      × (drop b'.offset b'.file.bytes ≡ after)
unfolding signature_from_blob
signature_from_blob-encoded m reader generics fuel by_ref is_array pointers code t after b e v at =
    let p = is_plain-IsPlain code (from_code-is_plain code t e) in
    let s = start-IsStart is_array pointers code p v in
    let x = start is_array pointers code in
    let l = after_start is_array pointers code after in
    let shape = flag-start is_array pointers code after in
    let (b2, r2, f2, at2) =
      read_flag by_ref 0x10 x l b (omega arith) s.0 s.1
        (at ∙ ap (λ z. flag by_ref 0x10 ++ z) shape) in
    let no_modifiers =
      no_modifiers_lem m by_ref x l b s (at ∙ ap (λ z. flag by_ref 0x10 ++ z) shape) in
    let no_void = read_other b2 x 0x01 l s.0 s.4 at2 in
    let (b4, b5, b6, r4, r5, r6, f6, at6) =
      array_part m reader generics fuel (length b.file.bytes) is_array pointers code t after b2 e p
        v (ap (λ (f : File). length f.bytes) f2) (at2 ∙ sym shape) in
    (
      b6,
      signature_with_lem m reader (type_from_blob m reader generics (suc fuel)) b b2 b4 b5 b6 by_ref
          is_array pointers t no_modifiers r2 no_void r4 r5 r6,
      f6 ∙ f2,
      at6,
    )
