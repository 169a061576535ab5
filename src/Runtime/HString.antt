-- ===== src/Runtime/HString.antt =====
-- `HSTRING` of src/runtime/hstring.rs. The process heap is a function from addresses to the blocks that are there;
-- an allocation takes a new address, or fails where the argument says so. A handle is an address, null for the empty
-- string. A read of a block that is not there, or behind its buffer, is `undefined`.
pub mod Handles
pub mod Strings
pub mod Sharing
pub mod Clearing
pub mod Runs
use Prim.Native.Nat.{bit_and}
use windows_rs.Base.{
  ℕ, zero, suc, not, ◌+◌, List, [], ◌∷◌, ◌++◌, Bool, true, false, ltb, leb, ◌==◌, if◌then◌else◌,
  Option, none, some, Fault, Outcome, ok, panic, ◌>>=◌, ◌>>◌, length, take, set, Mode, trap, wrap,
  assert, u32_mod, ◌%◌,
}
use windows_rs.Runtime.RefCount.{add_ref, release}

-- `flags`, `len`, the buffer behind `data`, and the count of `shared`
pub record Header : Type 0 where
  pub flags : ℕ
  pub len : ℕ
  pub buffer : List ℕ
  pub count : ℕ

-- `junk` stands in the units of a new block.
pub record Heap : Type 0 where
  pub next : ℕ
  pub junk : ℕ
  pub block : ℕ → Option Header

abbrev pub null : ℕ
null = 0

abbrev pub put : ℕ → Option Header → (ℕ → Option Header) → ℕ → Option Header
put at h block a = if a == at then h else block a

-- A header at an address, through a raw pointer.
unfoldable pub read : Heap → ℕ → Outcome Header
read heap at = elim (heap.block at) [ none ↦ panic Fault.undefined | some h ↦ ok h ]

abbrev pub write : Heap → ℕ → Header → Heap
write heap at h = record heap { block = put at (some h) heap.block }

abbrev pub heap_free : Heap → ℕ → Heap
heap_free heap at = record heap { block = put at none heap.block }

abbrev pub units : ℕ → ℕ → List ℕ
units junk zero = []
units junk (suc n) = junk ∷ units junk n

-- `debug_assert!`, which release builds leave out.
abbrev pub debug_assert : Mode → Bool → Outcome (Unit {0})
debug_assert trap test = assert test Fault.unexpected
debug_assert wrap test = ok tt

-- `Header::alloc`: room for `len` units behind the one that the header holds.
unfoldable pub alloc : Mode → Bool → ℕ → Heap → Outcome (ℕ × Heap)
alloc m fails len heap =
    let at = heap.next in
    let fresh : Header = record {
      flags = 0;
      len = len;
      buffer = units heap.junk (suc len);
      count = 1;
    } in
    let grown : Heap = record {
      next = suc at;
      junk = heap.junk;
      block = put at (some fresh) heap.block;
    } in
    let made = (if fails then panic Fault.out_of_memory else ok (at, grown)) in
    debug_assert m (not (len == 0)) >> made

-- `ptr::write` at an index of the buffer
unfoldable pub write_unit : ℕ → ℕ → Header → Outcome Header
write_unit i unit h =
    if ltb i (length h.buffer)
    then ok (record h { buffer = set h.buffer i unit })
    else panic Fault.undefined

-- The loop over the wide characters; the length grows as it goes along.
unfoldable pub write_all : Mode → ℕ → List ℕ → ℕ → Header → Outcome Header
unfolding write_unit
write_all m len [] i h = ok h
write_all m len (unit ∷ rest) i h = do
  debug_assert m (ltb i len)
  written ← write_unit i unit h
  write_all m len rest (suc i) (record written { len = suc i })

unfoldable pub from_wide_iter : Mode → Bool → List ℕ → ℕ → Heap → Outcome (ℕ × Heap)
unfolding alloc read write_all write_unit
from_wide_iter m fails value len heap = do
  let fill = do
    (at, allocated) ← alloc m fails len heap
    h ← read allocated at
    filled ← write_all m len value 0 h
    ended ← write_unit filled.len 0 filled
    ok (at, write allocated at ended)
  if len == 0 then ok (null, heap) else fill

unfoldable pub from_wide : Mode → Bool → List ℕ → Heap → Outcome (ℕ × Heap)
unfolding from_wide_iter
from_wide m fails value = from_wide_iter m fails value (length value % u32_mod)

-- `as_wide`
unfoldable pub as_wide : Heap → ℕ → Outcome (List ℕ)
unfolding read
as_wide heap at =
    let found = do
      h ← read heap at
      if leb h.len (length h.buffer) then ok (take h.len h.buffer) else panic Fault.undefined
    in if at == null then ok [] else found

-- `clear`: the handle that is left, null, and the heap
unfoldable pub clear : Mode → Heap → ℕ → Outcome (ℕ × Heap)
unfolding read release
clear m heap at =
    let release_it = do
      h ← read heap at
      debug_assert m (bit_and h.flags 1 == 0)
      (remaining, count) ← release m h.count
      ok (
        null,
        if remaining == 0 then heap_free heap at else write heap at (record h { count = count }),
      )
    in if at == null then ok (null, heap) else release_it

-- `Header::duplicate`; a string with the reference flag is copied.
unfoldable pub duplicate : Mode → Bool → Heap → ℕ → Outcome (ℕ × Heap)
unfolding read add_ref alloc
duplicate m fails heap at = do
  h ← read heap at
  let share = do
    (value, count) ← add_ref m h.count
    ok (at, write heap at (record h { count = count }))
  let copy = do
    (to, allocated) ← alloc m fails h.len heap
    fresh ← read allocated to
    if leb (suc h.len) (length h.buffer)
        then ok (to, write allocated to (record fresh { buffer = take (suc h.len) h.buffer }))
        else panic Fault.undefined
  if bit_and h.flags 1 == 0 then share else copy

unfoldable pub clone : Mode → Bool → Heap → ℕ → Outcome (ℕ × Heap)
unfolding duplicate
clone m fails heap at =
    let copy = duplicate m fails heap at in if at == null then ok (null, heap) else copy
