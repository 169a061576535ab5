-- ===== src/Runtime/HString/Sharing.antt =====
-- The operations on handles keep what each handle stands for.
use windows_rs.Base.{
  ℕ, ◌+◌, ◌≤◌, ◌<◌, List, [], ◌∷◌, ◌≡◌, ◌≢◌, ◌⊎◌, refl, sym, subst, ◌∙◌, ap, Option, none, some,
  false, leb, ◌==◌, Bool-cases, inl, inr, length, get_elem?, set, ok, Mode, arith, u32_mod,
}
use mathlib.Core.Option.{some-injective}
use windows_rs.Base.Tests.{==→eq}
use windows_rs.Runtime.RefCount.{add_ref_ok, i32_limit}
use windows_rs.Runtime.HString.{
  Header, Heap, put, write, from_wide, from_wide_iter, duplicate, clone,
}
use windows_rs.Runtime.HString.Handles.{
  occurrences, occurrences-le, occurrences-get, occurrences-find, occurrences-cons,
  occurrences-other, get_elem?-set, get_elem?-set_other,
}
use windows_rs.Runtime.HString.Strings.{
  Holds, empty, full, Represents, read_ok, put-same, put-other, Holds-keeps, AllHold, AllHold-cons,
  Represents-null, from_wide_lem,
}

-- A handle to nothing names no new block.
occurrences-none :
    (heap : Heap) (hs : List ℕ) (vs : List (List ℕ))
    → Represents heap hs vs
    → (a : ℕ) → a ≢ 0
    → heap.block a ≡ none
    → occurrences a hs ≡ 0
occurrences-none heap hs vs r a n b = elim (Bool-cases (leb 1 (occurrences a hs))) [
  | inr e ↦ ground arith
  | inl e ↦
      let (i, g) = occurrences-find a hs (ground arith) in
      let (v, q, h) = r.held i a g in
      absurd (elim h [ empty z w ↦ n z | full m h' b' t ↦ let z = sym b ∙ b' in cc ])
]

-- In a heap whose blocks stand for the handles' strings, `from_wide` of any string below 2 ^ 32 units, where the heap
-- has room for it, returns a handle in every build, and then the new handle stands for the string and all others for
-- what they stood for; each block is counted as often as a handle names it.
pub from_wide-Represents :
    (m : Mode) (v : List ℕ) (heap : Heap) (hs : List ℕ) (vs : List (List ℕ))
    → Represents heap hs vs
    → length v < u32_mod
    → (at : ℕ) × (heap' : Heap) × (from_wide m false v heap ≡ ok (at, heap'))
      × Represents heap' (at ∷ hs) (v ∷ vs)
unfolding from_wide from_wide_iter
from_wide-Represents m [] heap hs vs r short = (0, heap, refl, Represents-null heap hs vs r)
from_wide-Represents m (u ∷ us) heap hs vs r short =
    let v = u ∷ us in
    let (h, heap', o, t, c, b, others, n) = from_wide_lem m v heap (omega arith) short in
    let at = heap.next in
    let old = r.fresh at (omega arith) in
    let positive = r.positive in
    let some_place : at ≢ 0 = λ e. absurd (omega arith) in
    let unused = occurrences-none heap hs vs r at some_place old in
    (
      at,
      heap',
      o,
      record {
        held = AllHold-cons heap' at v hs vs (full some_place h b t) (λ i x g.
            let (w, p, q) = r.held i x g in
            (
              w,
              p,
              Holds-keeps heap heap' x w
                  (λ g' m' b'.
                    (g', others x (λ e. let z = rw e at b' in cc (z, old)) ∙ b', refl, refl, refl))
                  q,
            ));
        counted = λ a h' b'. elim (Bool-cases (a == at)) [
          | inl e ↦
              let same = ==→eq a at e in
              let h'_eq : h ≡ h' = some-injective h h' (sym b ∙ ap heap'.block (sym same) ∙ b') in
              (
                rw same some_place,
                rw (sym h'_eq, c, same, occurrences-cons at hs, unused) refl,
                rw (sym h'_eq, c) (omega arith),
              )
          | inr e ↦
              let different : a ≢ at = λ q. absurd (ground (arith, q)) in
              let (p, q, w) = r.counted a h' (sym (others a different) ∙ b') in
              (p, q ∙ sym (occurrences-other a at hs different), w)
        ];
        fresh = λ a l.
            let l' = rw n at l in others a (λ e. absurd (omega arith)) ∙ r.fresh a (omega arith);
        positive = rw n (omega arith);
      },
    )

-- The block at an address after one address has changed.
pub put_cases :
    (at a : ℕ) (h o : Option Header) (block : ℕ → Option Header)
    → put at h block a ≡ o
    → ((a ≡ at) × (h ≡ o)) ⊎ ((a ≢ at) × (block a ≡ o))
put_cases at a h o block e = elim (Bool-cases (a == at)) [
  | inl q ↦
      let same = ==→eq a at q in
      inl (same, sym (put-same at h block) ∙ ap (put at h block) (sym same) ∙ e)
  | inr q ↦
      let other : a ≢ at = λ z. absurd (ground (arith, z)) in
      inr (other, sym (put-other at a h block other) ∙ e)
]

-- A block with another count.
module _ (heap : Heap) (at : ℕ) (h : Header) (k : ℕ) (b : heap.block at ≡ some h) where
  abbrev pub recounted : Header
  recounted = record h { count = k }

  abbrev pub recount : Heap
  recount = write heap at recounted

  pub recount-keeps : (x : ℕ) (w : List ℕ) → Holds heap x w → Holds recount x w
  recount-keeps x w = Holds-keeps heap recount x w (λ g m b'. elim (Bool-cases (x == at)) [
    | inl e ↦
        let same = ==→eq x at e in
        let q : h ≡ g = some-injective h g (sym b ∙ ap heap.block (sym same) ∙ b') in
        (
          recounted,
          ap recount.block same ∙ put-same at (some recounted) heap.block,
          ap (λ (z : Header). z.flags) q,
          ap (λ (z : Header). z.len) q,
          ap (λ (z : Header). z.buffer) q,
        )
    | inr e ↦ (
      g,
      put-other at x (some recounted) heap.block (λ z. absurd (ground (arith, z))) ∙ b',
      refl,
      refl,
      refl,
    )
  ])

  pub recount-fresh :
      ((a : ℕ) → heap.next ≤ a → heap.block a ≡ none)
      → (a : ℕ) → heap.next ≤ a
      → recount.block a ≡ none
  recount-fresh f a l =
      put-other at a (some recounted) heap.block
        (λ e. let w = f a l in let w' = rw e at w in cc (w', b))
      ∙ f a l

-- As long as there are fewer than 2 ^ 31 - 1 handles, a clone of a handle is made in every build, and stands for the
-- same string; all other handles stand for what they stood for, and each block is counted as often as a handle names
-- it.
pub clone-Represents :
    (m : Mode) (heap : Heap) (hs : List ℕ) (vs : List (List ℕ)) (i at : ℕ)
    → Represents heap hs vs
    → get_elem? hs i ≡ some at
    → length hs + 1 < i32_limit
    → (to : ℕ) × (heap' : Heap) × (v : List ℕ) × (get_elem? vs i ≡ some v)
      × (clone m false heap at ≡ ok (to, heap'))
      × Represents heap' (to ∷ hs) (v ∷ vs)
unfolding clone duplicate
clone-Represents m heap hs vs i at r g few =
    let (v, q, holds) = r.held i at g in
    elim holds [
      | empty z w ↦ (
        0,
        heap,
        v,
        q,
        rw z refl,
        subst (λ l. Represents heap (0 ∷ hs) (l ∷ vs)) (sym w) (Represents-null heap hs vs r),
      )
      | full n h b t ↦
          let (p, c, some_count) = r.counted at h b in
          let le = occurrences-le at hs in
          let no : (at == 0) ≡ false = ground (arith, n) in
          let k = h.count + 1 in
          (
            at,
            recount heap at h k b,
            v,
            q,
            rw (no, read_ok heap at h b, t.unflagged, add_ref_ok m h.count (omega arith)) refl,
            record {
              held =
                  AllHold-cons (recount heap at h k b) at v hs vs
                    (recount-keeps heap at h k b at v (full n h b t))
                    (λ j x g'.
                      let (w, q', h') = r.held j x g' in
                      (w, q', recount-keeps heap at h k b x w h'));
              counted = λ a h' b'.
                  elim (put_cases at a (some (recounted heap at h k b)) (some h') heap.block b') [
                    | inl (e, e') ↦
                        let same =
                          ap (λ (z : Header). z.count)
                            (some-injective (recounted heap at h k b) h' e') in
                        (
                          rw e n,
                          rw (sym same, e, occurrences-cons at hs) (omega arith),
                          rw (sym same) (omega arith),
                        )
                    | inr (e, e') ↦
                        let (p', c', s') = r.counted a h' e' in
                        (p', c' ∙ sym (occurrences-other a at hs e), s')
                  ];
              fresh = recount-fresh heap at h k b r.fresh;
              positive = r.positive;
            },
          )
    ]

-- What a cleared handle leaves: the others stand for what they stood for.
pub clear-AllHold :
    (heap heap' : Heap) (hs : List ℕ) (vs : List (List ℕ)) (i at : ℕ)
    → AllHold heap hs vs
    → get_elem? hs i ≡ some at
    → ((x : ℕ) (w : List ℕ) → 1 ≤ occurrences x (set hs i 0) → Holds heap x w → Holds heap' x w)
    → AllHold heap' (set hs i 0) (set vs i [])
clear-AllHold heap heap' hs vs i at all g keeps j x g' = elim (Bool-cases (j == i)) [
  | inl e ↦
      let same = ==→eq j i e in
      let (v, q, h) = all i at g in
      let null' =
        some-injective 0 x
          (sym (get_elem?-set hs i 0 at g) ∙ ap (get_elem? (set hs i 0)) (sym same) ∙ g') in
      ([], ap (get_elem? (set vs i [])) same ∙ get_elem?-set vs i [] v q, empty (sym null') refl)
  | inr e ↦
      let other : j ≢ i = λ z. absurd (ground (arith, z)) in
      let (v, q, h) = all j x (sym (get_elem?-set_other hs i j 0 other) ∙ g') in
      (
        v,
        get_elem?-set_other vs i j [] other ∙ q,
        keeps x v (occurrences-get x (set hs i 0) j g') h,
      )
]
