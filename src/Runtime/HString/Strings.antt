-- ===== src/Runtime/HString/Strings.antt =====
-- Handles as strings: while handles are made, cloned and cleared, each one keeps its string, and a block lives as long
-- as a handle names it.
use windows_rs.Base.{
  trap, wrap, ℕ, zero, suc, ◌≤◌, ◌<◌, List, [], ◌∷◌, ◌≡◌, ◌≢◌, refl, sym, subst, ◌∙◌, ap, Option,
  none, some, true, false, ltb, leb, ◌==◌, length, get_elem?, take, set, Outcome, ok, Mode, arith,
  u32_mod, ◌%◌,
}
use mathlib.Core.Option.{some-injective}
use windows_rs.Runtime.HString.{
  Header, Heap, put, read, write, units, alloc, debug_assert, write_unit, from_wide_iter, from_wide,
  as_wide,
}
use windows_rs.Runtime.HString.Handles.{
  length-units, length-set, take-set, write_whole, occurrences,
}

-- The block of a string that is not empty.
pub record IsText (h : Header) (v : List ℕ) : Type 0 where
  pub unflagged : h.flags ≡ 0
  pub long : h.len ≡ length v
  pub held : take (length v) h.buffer ≡ v
  pub room : length v < length h.buffer

-- What a handle stands for.
pub data Holds (heap : Heap) (at : ℕ) (v : List ℕ) : Type 0 where
  empty : at ≡ 0 → v ≡ [] → Holds heap at v
  full : at ≢ 0 → (h : Header) → heap.block at ≡ some h → IsText h v → Holds heap at v

pub record Represents (heap : Heap) (handles : List ℕ) (values : List (List ℕ)) : Type 0 where
  pub held :
      (i at : ℕ)
      → get_elem? handles i ≡ some at
      → (v : List ℕ) × (get_elem? values i ≡ some v) × Holds heap at v
  pub counted :
      (a : ℕ) (h : Header)
      → heap.block a ≡ some h
      → (a ≢ 0) × (h.count ≡ occurrences a handles) × (1 ≤ h.count)
  pub fresh : (a : ℕ) → heap.next ≤ a → heap.block a ≡ none
  pub positive : 1 ≤ heap.next

pub read_ok : (heap : Heap) (at : ℕ) (h : Header) → heap.block at ≡ some h → read heap at ≡ ok h
unfolding read
read_ok heap at h b = rw (read, b) refl

pub as_wide-Holds : (heap : Heap) (at : ℕ) (v : List ℕ) → Holds heap at v → as_wide heap at ≡ ok v
unfolding as_wide
as_wide-Holds heap at v (empty e q) = rw (e, q) refl
as_wide-Holds heap at v (full n h b t) =
    let no : (at == 0) ≡ false = ground (arith, n) in
    let fits : leb (length v) (length h.buffer) ≡ true = let r = t.room in ground arith in
    rw (no, read_ok heap at h b, t.long, fits, t.held) refl

pub put-same : (a : ℕ) (h : Option Header) (block : ℕ → Option Header) → put a h block a ≡ h
put-same a h block = let e : (a == a) ≡ true = ground arith in rw e refl

pub put-other :
    (a b : ℕ) (h : Option Header) (block : ℕ → Option Header) → b ≢ a → put a h block b ≡ block b
put-other a b h block n = let e : (b == a) ≡ false = ground (arith, n) in rw e refl

-- A string survives where its block keeps all but its count.
pub Holds-keeps :
    (heap heap' : Heap) (at : ℕ) (v : List ℕ)
    → ((h : Header)
        → at ≢ 0
        → heap.block at ≡ some h
        → (h' : Header) × (heap'.block at ≡ some h')
          × (h'.flags ≡ h.flags)
          × (h'.len ≡ h.len)
          × (h'.buffer ≡ h.buffer))
    → Holds heap at v
    → Holds heap' at v
Holds-keeps heap heap' at v k (empty e q) = empty e q
Holds-keeps heap heap' at v k (full n h b t) =
    let (h', b', fl, le, bu) = k h n b in
    full n h' b' (record {
      unflagged = fl ∙ t.unflagged;
      long = le ∙ t.long;
      held = ap (take (length v)) bu ∙ t.held;
      room = let r = t.room in rw bu r;
    })

-- The handles of a heap hold their values.
abbrev pub AllHold : Heap → List ℕ → List (List ℕ) → Type 0
AllHold heap handles values =
    (i at : ℕ)
    → get_elem? handles i ≡ some at
    → (v : List ℕ) × (get_elem? values i ≡ some v) × Holds heap at v

pub AllHold-cons :
    (heap : Heap) (at : ℕ) (v : List ℕ) (hs : List ℕ) (vs : List (List ℕ))
    → Holds heap at v
    → AllHold heap hs vs
    → AllHold heap (at ∷ hs) (v ∷ vs)
AllHold-cons heap at v hs vs here rest zero at' g =
    (v, refl, rw (sym (some-injective at at' g)) here)
AllHold-cons heap at v hs vs here rest (suc i) at' g = rest i at' g

pub occurrences-null : (a : ℕ) (hs : List ℕ) → a ≢ 0 → occurrences a (0 ∷ hs) ≡ occurrences a hs
unfolding occurrences
occurrences-null a hs n = ground (arith, n)

-- One more handle to nothing.
pub Represents-null :
    (heap : Heap) (hs : List ℕ) (vs : List (List ℕ))
    → Represents heap hs vs
    → Represents heap (0 ∷ hs) ([] ∷ vs)
Represents-null heap hs vs r = record {
  held = AllHold-cons heap 0 [] hs vs (empty refl refl) r.held;
  counted = λ a h b. let (n, c, p) = r.counted a h b in (n, c ∙ sym (occurrences-null a hs n), p);
  fresh = r.fresh;
  positive = r.positive;
}

-- The header that `from_wide` leaves, and where.
abbrev pub Made : Outcome (ℕ × Heap) → Heap → List ℕ → Type 0
Made o heap v =
    (h : Header) × (heap' : Heap) × (o ≡ ok (heap.next, heap'))
    × IsText h v
    × (h.count ≡ 1)
    × (heap'.block heap.next ≡ some h)
    × ((a : ℕ) → a ≢ heap.next → heap'.block a ≡ heap.block a)
    × (heap'.next ≡ suc heap.next)

non_empty : (m : Mode) → debug_assert m true ≡ ok tt
non_empty trap = refl
non_empty wrap = refl

from_wide_iter_lem :
    (m : Mode) (v : List ℕ) (heap : Heap)
    → 1 ≤ length v
    → Made (from_wide_iter m false v (length v) heap) heap v
unfolding from_wide_iter alloc write_unit
from_wide_iter_lem m v heap some_units =
    let not_empty : (length v == 0) ≡ false = ground arith in
    let fresh : Header = record {
      flags = 0;
      len = length v;
      buffer = units heap.junk (suc (length v));
      count = 1;
    } in
    let grown : Heap = record {
      next = suc heap.next;
      junk = heap.junk;
      block = put heap.next (some fresh) heap.block;
    } in
    let size = length-units heap.junk (suc (length v)) in
    let (h', o, fl, co, le, bu, tk) = write_whole m v fresh (omega arith) some_units in
    let fits : ltb h'.len (length h'.buffer) ≡ true = ground arith in
    let h : Header = record h' { buffer = set h'.buffer h'.len 0 } in
    (
      h,
      write grown heap.next h,
      rw
          (
            not_empty,
            non_empty m,
            read_ok grown heap.next fresh (put-same heap.next (some fresh) heap.block),
            o,
            fits,
          )
          refl,
      record {
        unflagged = fl;
        long = le;
        held =
            ap (λ n. take n h.buffer) (sym le)
            ∙ take-set h'.buffer h'.len 0
            ∙ ap (λ n. take n h'.buffer) le
            ∙ tk;
        room = let same = length-set h'.buffer h'.len 0 in omega arith;
      },
      co,
      put-same heap.next (some h) grown.block,
      λ a n.
          put-other heap.next a (some h) grown.block n
          ∙ put-other heap.next a (some fresh) heap.block n,
      refl,
    )

pub from_wide_lem :
    (m : Mode) (v : List ℕ) (heap : Heap)
    → 1 ≤ length v
    → length v < u32_mod
    → Made (from_wide m false v heap) heap v
unfolding from_wide
from_wide_lem m v heap some_units short =
    let len : length v ≡ length v % u32_mod = omega arith in
    subst (λ n. Made (from_wide_iter m false v n heap) heap v) len
      (from_wide_iter_lem m v heap some_units)
