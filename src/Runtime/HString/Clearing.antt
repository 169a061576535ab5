-- ===== src/Runtime/HString/Clearing.antt =====
-- The end of a handle: its block is freed with the last one, and not before.
use Prim.Native.Nat.{bit_and}
use windows_rs.Base.{
  ℕ, ◌+◌, ◌-◌, ◌≤◌, ◌<◌, List, [], ◌≡◌, ◌≢◌, refl, sym, ◌∙◌, ap, none, some, true, false, ◌==◌,
  Bool-cases, inl, inr, length, get_elem?, set, ok, Mode, trap, wrap, arith,
}
use mathlib.Core.Option.{some-injective}
use windows_rs.Base.OrderedMap.{Option-cases}
use windows_rs.Base.Tests.{==→eq}
use windows_rs.Runtime.RefCount.{release_ok, i32_limit}
use windows_rs.Runtime.HString.{Header, Heap, put, heap_free, debug_assert, clear}
use windows_rs.Runtime.HString.Handles.{
  occurrences, occurrences-le, occurrences-set, occurrences-find,
}
use windows_rs.Runtime.HString.Strings.{
  Holds, empty, full, Represents, read_ok, put-same, put-other, Holds-keeps,
}
use windows_rs.Runtime.HString.Sharing.{
  put_cases, recounted, recount, recount-keeps, recount-fresh, clear-AllHold,
}

unflagged_ok : (m : Mode) (flags : ℕ) → flags ≡ 0 → debug_assert m (bit_and flags 1 == 0) ≡ ok tt
unflagged_ok trap flags e = rw e refl
unflagged_ok wrap flags e = refl

occurrences-set_other :
    (a : ℕ) (hs : List ℕ) (i at : ℕ)
    → a ≢ 0
    → a ≢ at
    → get_elem? hs i ≡ some at
    → occurrences a hs ≡ occurrences a (set hs i 0)
occurrences-set_other a hs i at n o g =
    let other : (a == at) ≡ false = ground (arith, o) in
    let e = occurrences-set a hs i at n g in let e' = rw other at e in omega arith

occurrences-set_same :
    (hs : List ℕ) (i at : ℕ)
    → at ≢ 0
    → get_elem? hs i ≡ some at
    → occurrences at hs ≡ occurrences at (set hs i 0) + 1
occurrences-set_same hs i at n g =
    let same : (at == at) ≡ true = ground arith in
    let e = occurrences-set at hs i at n g in let e' = rw same at e in e'

-- A string that is still there after its handle's block is freed.
free-keeps :
    (heap : Heap) (at x : ℕ) (w : List ℕ) → x ≢ at → Holds heap x w → Holds (heap_free heap at) x w
free-keeps heap at x w n =
    Holds-keeps heap (heap_free heap at) x w
      (λ g m b. (g, put-other at x none heap.block n ∙ b, refl, refl, refl))

-- What clearing leaves where the handle's block is not freed, and where it is.
module _ (heap : Heap) (hs : List ℕ) (vs : List (List ℕ)) (i at : ℕ) (h : Header)
    (r : Represents heap hs vs) (g : get_elem? hs i ≡ some at) (n : at ≢ 0)
    (b : heap.block at ≡ some h) where
  shared-Represents :
      (k : ℕ)
      → 1 ≤ k
      → h.count ≡ k + 1
      → Represents (recount heap at h k b) (set hs i 0) (set vs i [])
  shared-Represents k some_left counts =
      let (p, c, s) = r.counted at h b in
      let one_less = occurrences-set_same hs i at n g in
      record {
        held =
            clear-AllHold heap (recount heap at h k b) hs vs i at r.held g
              (λ x w used holds. recount-keeps heap at h k b x w holds);
        counted = λ a h' b'.
            elim (put_cases at a (some (recounted heap at h k b)) (some h') heap.block b') [
              | inl (e, e') ↦
                  let same =
                    ap (λ (z : Header). z.count) (some-injective (recounted heap at h k b) h' e') in
                  (rw e n, rw (sym same, e) (omega arith), rw (sym same) some_left)
              | inr (e, e') ↦
                  let (p', c', s') = r.counted a h' e' in
                  (p', c' ∙ occurrences-set_other a hs i at p' e g, s')
            ];
        fresh = recount-fresh heap at h k b r.fresh;
        positive = r.positive;
      }

  freed-Represents : h.count ≡ 1 → Represents (heap_free heap at) (set hs i 0) (set vs i [])
  freed-Represents counts =
      let (p, c, s) = r.counted at h b in
      let one_less = occurrences-set_same hs i at n g in
      record {
        held = clear-AllHold heap (heap_free heap at) hs vs i at r.held g (λ x w used holds.
            free-keeps heap at x w (λ e. let used' = rw e at used in absurd (omega arith)) holds);
        counted = λ a h' b'. elim (put_cases at a none (some h') heap.block b') [
          | inl (e, e') ↦ cc
          | inr (e, e') ↦
              let (p', c', s') = r.counted a h' e' in
              (p', c' ∙ occurrences-set_other a hs i at p' e g, s')
        ];
        fresh = λ a l. elim (Bool-cases (a == at)) [
          | inl e ↦ ap (put at none heap.block) (==→eq a at e) ∙ put-same at none heap.block
          | inr e ↦ put-other at a none heap.block (λ z. absurd (ground (arith, z))) ∙ r.fresh a l
        ];
        positive = r.positive;
      }

-- Clearing a null handle changes nothing.
null-Represents :
    (heap : Heap) (hs : List ℕ) (vs : List (List ℕ)) (i : ℕ)
    → Represents heap hs vs
    → get_elem? hs i ≡ some 0
    → Represents heap (set hs i 0) (set vs i [])
null-Represents heap hs vs i r g = record {
  held = clear-AllHold heap heap hs vs i 0 r.held g (λ x w used holds. holds);
  counted =
      λ a h b. let (p, c, s) = r.counted a h b in (p, c ∙ occurrences-set_other a hs i 0 p p g, s);
  fresh = r.fresh;
  positive = r.positive;
}

-- With fewer than 2 ^ 31 handles, clearing any one of them returns in every build and leaves null; all other handles
-- stand for what they stood for, and the blocks that are left are those that a handle names, counted as often.
pub clear-Represents :
    (m : Mode) (heap : Heap) (hs : List ℕ) (vs : List (List ℕ)) (i at : ℕ)
    → Represents heap hs vs
    → get_elem? hs i ≡ some at
    → length hs < i32_limit
    → (heap' : Heap) × (clear m heap at ≡ ok (0, heap'))
      × Represents heap' (set hs i 0) (set vs i [])
unfolding clear
clear-Represents m heap hs vs i at r g few =
    let (v, q, holds) = r.held i at g in
    elim holds [
      | empty z w ↦ (heap, rw z refl, null-Represents heap hs vs i r (g ∙ ap (λ a. some a) z))
      | full n h b t ↦
          let (p, c, some_count) = r.counted at h b in
          let le = occurrences-le at hs in
          let no : (at == 0) ≡ false = ground (arith, n) in
          elim (Bool-cases (h.count - 1 == 0)) [
            | inl e ↦ (
              heap_free heap at,
              rw
                  (
                    no,
                    read_ok heap at h b,
                    unflagged_ok m h.flags t.unflagged,
                    release_ok m h.count (omega arith) some_count,
                    e,
                  )
                  refl,
              freed-Represents heap hs vs i at h r g n b (ground arith),
            )
            | inr e ↦ (
              recount heap at h (h.count - 1) b,
              rw
                  (
                    no,
                    read_ok heap at h b,
                    unflagged_ok m h.flags t.unflagged,
                    release_ok m h.count (omega arith) some_count,
                    e,
                  )
                  refl,
              shared-Represents heap hs vs i at h r g n b (h.count - 1) (ground arith)
                  (omega arith),
            )
          ]
    ]

-- A heap that represents handles to nothing only has no blocks left.
pub all_null-freed :
    (heap : Heap) (hs : List ℕ) (vs : List (List ℕ))
    → Represents heap hs vs
    → ((i at : ℕ) → get_elem? hs i ≡ some at → at ≡ 0)
    → (a : ℕ) → heap.block a ≡ none
all_null-freed heap hs vs r all a = elim (Option-cases (heap.block a)) [
  | inl e ↦ e
  | inr (h, e) ↦
      let (n, c, s) = r.counted a h e in
      let (i, g) = occurrences-find a hs (omega arith) in absurd (n (all i a g))
]
