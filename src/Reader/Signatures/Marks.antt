-- ===== src/Reader/Signatures/Marks.antt =====
-- One byte at a time: the marks in front of the type in a signature, and how they are read.
use Prim.Native.Nat.{◌<◌}
use windows_rs.Base.{
  ℕ, zero, suc, ◌+◌, ◌≡◌, ◌≢◌, refl, sym, ◌∙◌, ap, List, [], ◌∷◌, ◌++◌, Bool, true, false, ◌==◌,
  ltb, ok, Mode, length, drop, arith, drop-next,
}
use windows_rs.Metadata.File.{Blob}
use windows_rs.Metadata.Blob.{
  peek_unsigned, read_unsigned, read_expected, read_modifiers, modifiers_loop, advance,
}
use windows_rs.Metadata.Blob.Numbers.{peek_unsigned-compressed}
use windows_rs.Metadata.Compressed.{compressed}
use windows_rs.Metadata.Types.FromCode.{is_plain}
use windows_rs.Reader.Loading.{TypeReader}
use windows_rs.Reader.Signatures.{count_pointers}

-- What the cursor stands at.
abbrev pub At : Blob → List ℕ → Type 0
At b l = drop b.offset b.file.bytes ≡ l

pub At-advance : (b : Blob) (x : ℕ) (l : List ℕ) → At b (x ∷ l) → At (advance b 1) l
At-advance b x l h =
    let next : suc b.offset ≡ b.offset + 1 = omega arith in
    ap (λ n. drop n b.file.bytes) (sym next) ∙ drop-next b.offset b.file.bytes h

pub peek_byte :
    (b : Blob) (x : ℕ) (l : List ℕ) → x < 0x80 → At b (x ∷ l) → peek_unsigned b ≡ ok (x, 1)
peek_byte b x l small h =
    let one : compressed x ≡ x ∷ [] = let e : ltb x 0x80 ≡ true = ground arith in rw e refl in
    peek_unsigned-compressed b x l (omega arith) (h ∙ ap (λ c. c ++ l) (sym one))
    ∙ ap (λ c. ok (x, length c)) one

pub read_byte :
    (b : Blob) (x : ℕ) (l : List ℕ)
    → x < 0x80
    → At b (x ∷ l)
    → read_unsigned b ≡ ok (x, advance b 1)
unfolding read_unsigned
read_byte b x l small h = rw (peek_byte b x l small h) refl

pub read_same :
    (b : Blob) (x : ℕ) (l : List ℕ)
    → x < 0x80
    → At b (x ∷ l)
    → read_expected b x ≡ ok (true, advance b 1)
unfolding read_expected
read_same b x l small h =
    let e : (x == x) ≡ true = ground arith in rw (peek_byte b x l small h, e) refl

pub read_other :
    (b : Blob) (x e : ℕ) (l : List ℕ)
    → x < 0x80
    → x ≢ e
    → At b (x ∷ l)
    → read_expected b e ≡ ok (false, b)
unfolding read_expected
read_other b x e l small n h =
    let q : (x == e) ≡ false = ground (arith, n) in rw (peek_byte b x l small h, q) refl

-- A code that is none of the marks around it.
abbrev pub IsPlain : ℕ → Type 0
IsPlain x = (x < 0x80) × (x ≢ 0x10) × (x ≢ 0x1d) × (x ≢ 0x0f) × (x ≢ 0x1f) × (x ≢ 0x20)

pub is_plain-IsPlain : (x : ℕ) → is_plain x ≡ true → IsPlain x
is_plain-IsPlain x h =
    (ground arith, ground arith, ground arith, ground arith, ground arith, ground arith)

-- The marks of a signature, and its bytes.
abbrev pub flag : Bool → ℕ → List ℕ
flag true x = x ∷ []
flag false x = []

abbrev pub pointer_marks : ℕ → List ℕ → List ℕ
pointer_marks zero l = l
pointer_marks (suc n) l = 0x0f ∷ pointer_marks n l

pub count_pointers_lem :
    (m : Mode) (reader : TypeReader) (n fuel acc : ℕ) (b : Blob) (code : ℕ) (l : List ℕ)
    → n < fuel
    → IsPlain code
    → At b (pointer_marks n (code ∷ l))
    → (b' : Blob) × (count_pointers m reader fuel acc b ≡ ok (acc + n, b'))
      × (b'.file ≡ b.file)
      × At b' (code ∷ l)
unfolding count_pointers
count_pointers_lem m reader n zero acc b code l h p at = absurd (omega arith)
count_pointers_lem m reader zero (suc fuel) acc b code l h p at =
    (b, rw (read_other b code 0x0f l p.0 p.3 at) (ap (λ k. ok (k, b)) (omega arith)), refl, at)
count_pointers_lem m reader (suc n) (suc fuel) acc b code l h p at =
    let rest = pointer_marks n (code ∷ l) in
    let (b', e, same, at') =
      count_pointers_lem m reader n fuel (suc acc) (advance b 1) code l (omega arith) p
        (At-advance b 0x0f rest at) in
    (
      b',
      rw (read_same b 0x0f rest (omega arith) at) (e ∙ ap (λ k. ok (k, b')) (omega arith)),
      same,
      at',
    )

-- A mark that may be there, in front of another byte.
pub read_flag :
    (f : Bool) (mark x : ℕ) (l : List ℕ) (b : Blob)
    → mark < 0x80
    → x < 0x80
    → x ≢ mark
    → At b (flag f mark ++ (x ∷ l))
    → (b' : Blob) × (read_expected b mark ≡ ok (f, b')) × (b'.file ≡ b.file) × At b' (x ∷ l)
read_flag true mark x l b s s' n at =
    (advance b 1, read_same b mark (x ∷ l) s at, refl, At-advance b mark (x ∷ l) at)
read_flag false mark x l b s s' n at = (b, read_other b x mark l s' n at, refl, at)

pub read_no_modifiers :
    (m : Mode) (b : Blob) (x : ℕ) (l : List ℕ)
    → x < 0x80
    → x ≢ 0x1f
    → x ≢ 0x20
    → At b (x ∷ l)
    → read_modifiers m b ≡ ok ([], b)
unfolding read_modifiers modifiers_loop
read_no_modifiers m b x l s n n' at =
    let e : (x == 32) ≡ false = ground (arith, n') in
    let e' : (x == 31) ≡ false = ground (arith, n) in rw (peek_byte b x l s at, e, e') refl
