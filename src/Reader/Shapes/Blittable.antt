-- ===== src/Reader/Shapes/Blittable.antt =====
-- `is_blittable` (crates/gen/src/tables/type_def.rs) against an inductive description of the types that can be copied as they are.
use windows_rs.Base.{
  ℕ, zero, suc, ◌+◌, ◌≤◌, ◌≡◌, refl, List, [], ◌∷◌, Bool, true, false, ltb, Outcome, ok, panic,
  Mode, arith, Bool-cases, inl, inr, if◌then◌else◌, ◌>>=◌,
}
use windows_rs.Metadata.File.{Row}
use windows_rs.Metadata.Types.{ElementType, Signature, signature, TypeDef}
use windows_rs.Metadata.Rows.{fields}
use windows_rs.Metadata.Rows.Names.{FullName, same_name, full_name}
use windows_rs.Metadata.Rows.TypeDefs.{TypeKind, kind}
use windows_rs.Reader.Loading.{TypeReader}
use windows_rs.Reader.Shapes.{
  all_rows, blittable_element, blittable_signature, blittable_fields, field_signature, is_blittable,
  bstr,
}

-- The types that are neither defined in metadata nor built of others, and are no references.
abbrev pub IsPlainData : ElementType → Type 0
IsPlainData (ElementType.type_def d) = ⊥
IsPlainData (ElementType.array s len) = ⊥
IsPlainData (ElementType.generic_param r) = ⊥
IsPlainData ElementType.string = ⊥
IsPlainData ElementType.i_inspectable = ⊥
IsPlainData ElementType.i_unknown = ⊥
IsPlainData _ = Unit

both_true :
    (o later : Outcome Bool)
    → (o >>= λ found. if found then later else ok false) ≡ ok true
    → (o ≡ ok true) × (later ≡ ok true)
both_true (panic f) later h = cc
both_true (ok false) later h = cc
both_true (ok true) later h = (refl, h)

module _ (m : Mode) (reader : TypeReader) (fuel : ℕ) where
  mutual
    -- An enumeration, or a structure of such fields that is no BSTR.
    pub data BlittableType : TypeDef → Type 0 where
      enum : (d : TypeDef) → kind m d ≡ ok TypeKind.enum → BlittableType d
      struct :
          (d : TypeDef) (full : FullName) (fs : List Row)
          → kind m d ≡ ok TypeKind.struct
          → full_name m d ≡ ok full
          → same_name full bstr ≡ false
          → fields m d ≡ ok fs
          → BlittableRows fs
          → BlittableType d

    pub data BlittableRows : List Row → Type 0 where
      nil : BlittableRows []
      cons :
          (r : Row) (s : Signature) (rest : List Row)
          → field_signature m reader fuel r ≡ ok s
          → BlittableSignature s
          → BlittableRows rest
          → BlittableRows (r ∷ rest)

    -- A pointer, whatever it points to, or a blittable value.
    pub data BlittableSignature : Signature → Type 0 where
      pointer :
          (t : ElementType) (pointers : ℕ) (by_ref is_const is_array : Bool)
          → ltb 0 pointers ≡ true
          → BlittableSignature (signature t pointers by_ref is_const is_array)
      value :
          (t : ElementType) (pointers : ℕ) (by_ref is_const is_array : Bool)
          → BlittableElement t
          → BlittableSignature (signature t pointers by_ref is_const is_array)

    pub data BlittableElement : ElementType → Type 0 where
      plain : (t : ElementType) → IsPlainData t → BlittableElement t
      defined : (d : TypeDef) → BlittableType d → BlittableElement (ElementType.type_def d)
      array :
          (s : Signature) (len : ℕ)
          → BlittableSignature s
          → BlittableElement (ElementType.array s len)

  -- What a search finds, from what it finds at the type definitions.
  module _ (of_def : TypeDef → Outcome Bool)
      (sound : (d : TypeDef) → of_def d ≡ ok true → BlittableType d) where
    mutual
      unfolding blittable_element blittable_signature

      element_sound : (t : ElementType) → blittable_element of_def t ≡ ok true → BlittableElement t
      element_sound (ElementType.type_def d) h = defined d (sound d h)
      element_sound (ElementType.array s len) h = array s len (signature_sound s h)
      element_sound ElementType.string h = cc
      element_sound ElementType.i_inspectable h = cc
      element_sound ElementType.i_unknown h = cc
      element_sound (ElementType.generic_param r) h = cc
      element_sound t h = plain t tt

      signature_sound :
          (s : Signature) → blittable_signature of_def s ≡ ok true → BlittableSignature s
      signature_sound (signature t pointers by_ref is_const is_array) h =
          elim (Bool-cases (ltb 0 pointers)) [
            | inl e ↦ pointer t pointers by_ref is_const is_array e
            | inr e ↦ value t pointers by_ref is_const is_array (element_sound t (rw e at h))
          ]

    row_cases :
        (r : Row) (rest : List Row) (o : Outcome Signature) (later : Outcome Bool)
        → field_signature m reader fuel r ≡ o
        → ((o >>= blittable_signature of_def) >>= λ found. if found then later else ok false)
          ≡ ok true
        → (later ≡ ok true → BlittableRows rest)
        → BlittableRows (r ∷ rest)
    row_cases r rest (panic f) later e h more = cc
    row_cases r rest (ok s) later e h more =
        let (here, behind) = both_true (blittable_signature of_def s) later h in
        cons r s rest e (signature_sound s here) (more behind)

    rows_sound :
        (fs : List Row) → blittable_fields m reader fuel of_def fs ≡ ok true → BlittableRows fs
    unfolding blittable_fields all_rows
    rows_sound [] h = nil
    rows_sound (r ∷ rest) h =
        row_cases r rest (field_signature m reader fuel r)
          (blittable_fields m reader fuel of_def rest) refl h (rows_sound rest)

    struct_cases :
        (d : TypeDef) (full : Outcome FullName) (fs : Outcome (List Row))
        → kind m d ≡ ok TypeKind.struct
        → full_name m d ≡ full
        → fields m d ≡ fs
        → (full >>= λ f.
            if same_name f bstr then ok false else (fs >>= blittable_fields m reader fuel of_def))
          ≡ ok true
        → BlittableType d
    struct_cases d (panic f) fs k e e' h = cc
    struct_cases d (ok full) (panic f) k e e' h = elim (Bool-cases (same_name full bstr)) [
      | inl q ↦ let h' = rw q at h in cc
      | inr q ↦ let h' = rw q at h in cc
    ]
    struct_cases d (ok full) (ok fs) k e e' h = elim (Bool-cases (same_name full bstr)) [
      | inl q ↦ let h' = rw q at h in cc
      | inr q ↦ struct d full fs k e q e' (rows_sound fs (rw q at h))
    ]

  is_blittable_plain :
      (of_def : TypeDef → Outcome Bool) (t : ElementType)
      → IsPlainData t
      → blittable_element of_def t ≡ ok true
  unfolding blittable_element
  is_blittable_plain of_def (ElementType.type_def d) h = elim h [ ]
  is_blittable_plain of_def (ElementType.array s len) h = elim h [ ]
  is_blittable_plain of_def (ElementType.generic_param r) h = elim h [ ]
  is_blittable_plain of_def ElementType.string h = elim h [ ]
  is_blittable_plain of_def ElementType.i_inspectable h = elim h [ ]
  is_blittable_plain of_def ElementType.i_unknown h = elim h [ ]
  is_blittable_plain of_def t h = refl

  is_blittable_enum :
      (d : TypeDef)
      → kind m d ≡ ok TypeKind.enum
      → (k : ℕ) → 1 ≤ k
      → is_blittable m reader fuel k d ≡ ok true
  unfolding is_blittable
  is_blittable_enum d e zero h = absurd (omega arith)
  is_blittable_enum d e (suc k) h = rw e refl

  is_blittable_struct :
      (d : TypeDef) (full : FullName) (fs : List Row) (n : ℕ)
      → kind m d ≡ ok TypeKind.struct
      → full_name m d ≡ ok full
      → same_name full bstr ≡ false
      → fields m d ≡ ok fs
      → ((k : ℕ)
          → n ≤ k
          → blittable_fields m reader fuel (is_blittable m reader fuel k) fs ≡ ok true)
      → (k : ℕ) → suc n ≤ k
      → is_blittable m reader fuel k d ≡ ok true
  unfolding is_blittable
  is_blittable_struct d full fs n e e' other e'' found zero h = absurd (omega arith)
  is_blittable_struct d full fs n e e' other e'' found (suc k) h =
      rw (e, e', other, e'') (found k (omega arith))

  mutual
    unfolding blittable_element blittable_signature blittable_fields all_rows

    -- The search finds out at every depth from some one on.
    complete_type :
        {d : TypeDef}
        → BlittableType d
        → (n : ℕ) × ((k : ℕ) → n ≤ k → is_blittable m reader fuel k d ≡ ok true)
    complete_type (enum d e) = (1, is_blittable_enum d e)
    complete_type (struct d full fs e e' other e'' rows) =
        let (n, found) = complete_rows rows in
        (suc n, is_blittable_struct d full fs n e e' other e'' found)

    complete_rows :
        {fs : List Row}
        → BlittableRows fs
        → (n : ℕ) × ((k : ℕ)
            → n ≤ k
            → blittable_fields m reader fuel (is_blittable m reader fuel k) fs ≡ ok true)
    complete_rows nil = (0, λ k h. refl)
    complete_rows (cons r s rest e here behind) =
        let (n, found) = complete_signature here in
        let (n', found') = complete_rows behind in
        (n + n', λ k h. rw (e, found k (omega arith), found' k (omega arith)) refl)

    complete_signature :
        {s : Signature}
        → BlittableSignature s
        → (n : ℕ) × ((k : ℕ)
            → n ≤ k
            → blittable_signature (is_blittable m reader fuel k) s ≡ ok true)
    complete_signature (pointer t pointers by_ref is_const is_array e) = (0, λ k h. rw e refl)
    complete_signature (value t pointers by_ref is_const is_array inner) =
        let (n, found) = complete_element inner in (n, λ k h. rw (found k h) (ground arith))

    complete_element :
        {t : ElementType}
        → BlittableElement t
        → (n : ℕ) × ((k : ℕ) → n ≤ k → blittable_element (is_blittable m reader fuel k) t ≡ ok true)
    complete_element (plain t h) =
        (0, λ k h'. is_blittable_plain (is_blittable m reader fuel k) t h)
    complete_element (defined d h) = complete_type h
    complete_element (array s len h) = complete_signature h

  kind_cases :
      (of_def : TypeDef → Outcome Bool) (d : TypeDef) (o : Outcome TypeKind)
      → ((d' : TypeDef) → of_def d' ≡ ok true → BlittableType d')
      → kind m d ≡ o
      → (o >>= λ k. elim k [
        | TypeKind.struct ↦
            (full_name m d >>= λ full.
            if same_name full bstr
            then ok false
            else (fields m d >>= blittable_fields m reader fuel of_def))
        | TypeKind.enum ↦ ok true
        | _ ↦ ok false
      ])
        ≡ ok true
      → BlittableType d
  kind_cases of_def d (panic f) sound e h = cc
  kind_cases of_def d (ok TypeKind.struct) sound e h =
      struct_cases of_def sound d (full_name m d) (fields m d) e refl refl h
  kind_cases of_def d (ok TypeKind.enum) sound e h = enum d e
  kind_cases of_def d (ok TypeKind.interface) sound e h = cc
  kind_cases of_def d (ok TypeKind.class) sound e h = cc
  kind_cases of_def d (ok TypeKind.delegate) sound e h = cc

  type_sound :
      (depth : ℕ) (d : TypeDef) → is_blittable m reader fuel depth d ≡ ok true → BlittableType d
  unfolding is_blittable
  type_sound zero d h = cc
  type_sound (suc depth) d h =
      kind_cases (is_blittable m reader fuel depth) d (kind m d) (type_sound depth) refl h

  -- A type definition is an enumeration, or a structure other than BSTR all of whose fields are pointers, plain data, blittable
  -- types or arrays of such, exactly if the search says so at some depth; and then it says so at every greater depth.
  pub is_blittable-BlittableType :
      (d : TypeDef)
      → (((depth : ℕ) × (is_blittable m reader fuel depth d ≡ ok true)) → BlittableType d)
        × (BlittableType d
            → (n : ℕ) × ((depth : ℕ) → n ≤ depth → is_blittable m reader fuel depth d ≡ ok true))
  is_blittable-BlittableType d = (λ (depth, h). type_sound depth d h, complete_type)
