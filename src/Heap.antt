-- ===== src/Heap.antt =====
-- include/mb_heap.h and the allocator of src/mb_heap.c (erts/example/mini_beam_esp32): a process's
-- semi-space heap. A pointer into a space is the space and a word offset, and every access is
-- tested against the array it is made in.
pub mod Gc
pub mod Fits
pub mod Objects
pub mod Paths
pub mod Build
pub mod Collect
pub mod Layout
mod Tests
use os_ii.Prelude.{
  ℕ, ◌+◌, leb, ltb, if◌then◌else◌, List, [], ◌∷◌, length, get_elem?, set, replicate, Option, none,
  some,
}
use os_ii.Run.{Run, done, fault, ◌>>=◌, in_range}
use os_ii.Term.{Term, make_tuple_hdr, make_boxed, make_cons}

abbrev pub heap_words : ℕ
heap_words = 128

-- What the pointers `from` and `to` point at.
pub data Space : Type 0 where
  null space_a space_b : Space

-- `mb_heap_t`
pub record Heap : Type 0 where
  pub space_a : List Term
  pub space_b : List Term
  pub from : Space
  pub to : Space
  pub hp : ℕ
  pub capacity : ℕ
  pub gc_count : ℕ

-- The words that a pointer can reach.
abbrev pub words : Heap → Space → List Term
words heap null = []
words heap space_a = heap.space_a
words heap space_b = heap.space_b

-- `p[off]`
unfoldable pub read : Heap → Space → ℕ → Run Term
read heap p off = in_range (get_elem? (words heap p) off)

abbrev pub with_words : Heap → Space → List Term → Heap
with_words heap null ws = heap
with_words heap space_a ws = record heap { space_a = ws }
with_words heap space_b ws = record heap { space_b = ws }

-- `p[off] = w`
unfoldable pub write : Heap → Space → ℕ → Term → Run Heap
write heap p off w =
    if ltb off (length (words heap p))
    then done (with_words heap p (set (words heap p) off w))
    else fault

-- What `memset` leaves of a heap.
abbrev pub zero_heap : Heap
zero_heap = record {
  space_a = replicate heap_words 0;
  space_b = replicate heap_words 0;
  from = null;
  to = null;
  hp = 0;
  capacity = 0;
  gc_count = 0;
}

unfoldable pub init : Heap
init = record zero_heap { from = space_a; to = space_b; capacity = heap_words }

-- The pointer that is returned stands at an offset of `from`; `none` is `NULL`. Offsets stay at
-- most the capacity and a request is a few words, so the `size_t` sum does not wrap.
unfoldable pub alloc : Heap → ℕ → Option ℕ × Heap
alloc heap n_words =
    if leb (heap.hp + n_words) heap.capacity
    then (some heap.hp, record heap { hp = heap.hp + n_words })
    else (none, heap)

-- `for (i = 0; i < arity; i++) ptr[1 + i] = elems[i]`, from the word `off` on.
unfoldable pub write_elems : Heap → ℕ → List Term → Run Heap
write_elems heap off [] = done heap
write_elems heap off (x ∷ xs) =
    write heap heap.from off x >>= λ heap'. write_elems heap' (off + 1) xs

-- `elems` are the `arity` elements. The term is 0 where the heap is full.
unfoldable pub make_tuple : Heap → List Term → Run (Term × Heap)
make_tuple heap elems =
    let (ptr, heap') = alloc heap (1 + length elems) in
    elim ptr [
      | none ↦ done (0, heap')
      | some off ↦ write heap' heap'.from off (make_tuple_hdr (length elems)) >>= λ h.
          write_elems h (off + 1) elems >>= λ h'. done (make_boxed off, h')
    ]

unfoldable pub cons : Heap → Term → Term → Run (Term × Heap)
cons heap head tail =
    let (ptr, heap') = alloc heap 2 in
    elim ptr [
      | none ↦ done (0, heap')
      | some off ↦ write heap' heap'.from off head >>= λ h.
          write h h.from (off + 1) tail >>= λ h'. done (make_cons off, h')
    ]
