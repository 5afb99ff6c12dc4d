-- ===== src/Regression/Heaps.antt =====
-- The tests of the heap and of its collector in src/main_regression_host.c
-- (erts/example/mini_beam_esp32).
use os_ii.Prelude.{ℕ, ◌+◌, ◌==◌, Bool, true, false, [], ◌∷◌, pos, Option, none, some}
use os_ii.Run.{Run, done, fault, ◌>>=◌}
use os_ii.Term.{
  Term, make_smallint, get_smallint, is_boxed, is_cons, get_boxed, get_cons, make_atom,
  is_tuple_hdr, get_tuple_arity,
}
use os_ii.Heap.{Heap, init, heap_words, alloc, read, make_tuple, cons}
use os_ii.Heap.Gc.{gc}
use os_ii.Regression.Check.{check_int, check_num, check_bool}

abbrev nil : Term
nil = make_atom 0

abbrev is_some : Option ℕ → Bool
is_some none = false
is_some (some _) = true

-- `MB_MAKE_SMALLINT`
abbrev small : ℕ → Term
small n = make_smallint (pos n)

-- `mb_heap_gc` with one root.
unfoldable pub gc_one : Heap → Term → Run (Term × Heap)
gc_one heap root =
    gc heap (root ∷ []) >>= λ (roots, heap'). elim roots [ [] ↦ fault | t ∷ _ ↦ done (t, heap') ]

unfoldable pub test_heap_alloc_basic : ℕ
test_heap_alloc_basic =
    let (p1, heap1) = alloc init 3 in
    let (p2, heap2) = alloc heap1 2 in
    let (p3, heap3) = alloc heap2 heap_words in
    check_num 0 init.hp
    + check_bool true (is_some p1)
    + check_num 3 heap1.hp
    + check_bool true (is_some p2)
    + check_num 5 heap2.hp
    + check_bool false (is_some p3)

unfoldable pub test_heap_make_tuple : Run ℕ
test_heap_make_tuple = do
  (tup, heap) ← make_tuple init (small 10 ∷ small 20 ∷ small 30 ∷ [])
  let ptr = get_boxed tup
  hdr ← read heap heap.from ptr
  e0 ← read heap heap.from (ptr + 1)
  e1 ← read heap heap.from (ptr + 2)
  e2 ← read heap heap.from (ptr + 3)
  done (
      check_bool true (is_boxed tup)
      + check_bool true (is_tuple_hdr hdr)
      + check_num 3 (get_tuple_arity hdr)
      + check_int (pos 10) (get_smallint e0)
      + check_int (pos 20) (get_smallint e1)
      + check_int (pos 30) (get_smallint e2)
      + check_num 4 heap.hp)

unfoldable pub test_heap_cons : Run ℕ
test_heap_cons = do
  (cell, heap) ← cons init (small 1) nil
  let ptr = get_cons cell
  head ← read heap heap.from ptr
  tail ← read heap heap.from (ptr + 1)
  done (
      check_bool true (is_cons cell)
      + check_int (pos 1) (get_smallint head)
      + check_bool true (tail == nil))

unfoldable pub test_gc_survives_live_data : Run ℕ
test_gc_survives_live_data = do
  (root, heap) ← make_tuple init (small 42 ∷ small 99 ∷ [])
  (root', after) ← gc_one heap root
  let ptr = get_boxed root'
  hdr ← read after after.from ptr
  e0 ← read after after.from (ptr + 1)
  e1 ← read after after.from (ptr + 2)
  done (
      check_num 3 heap.hp
      + check_num 1 after.gc_count
      + check_num 3 after.hp
      + check_bool true (is_boxed root')
      + check_bool true (is_tuple_hdr hdr)
      + check_num 2 (get_tuple_arity hdr)
      + check_int (pos 42) (get_smallint e0)
      + check_int (pos 99) (get_smallint e1))

unfoldable pub test_gc_reclaims_dead_data : Run ℕ
test_gc_reclaims_dead_data = do
  (dead, heap1) ← make_tuple init (small 1 ∷ small 2 ∷ [])
  (dead2, heap2) ← make_tuple heap1 (small 3 ∷ small 4 ∷ [])
  (root, after) ← gc_one heap2 (small 77)
  done (check_num 6 heap2.hp + check_num 0 after.hp + check_int (pos 77) (get_smallint root))

unfoldable pub test_gc_nested_structures : Run ℕ
test_gc_nested_structures = do
  (inner, heap1) ← make_tuple init (small 200 ∷ small 300 ∷ [])
  (outer, heap2) ← make_tuple heap1 (small 100 ∷ inner ∷ [])
  (dead, heap3) ← cons heap2 (small 999) nil
  (root, after) ← gc_one heap3 outer
  let ptr = get_boxed root
  e0 ← read after after.from (ptr + 1)
  e1 ← read after after.from (ptr + 2)
  let inner_ptr = get_boxed e1
  i0 ← read after after.from (inner_ptr + 1)
  i1 ← read after after.from (inner_ptr + 2)
  done (
      check_num 6 heap2.hp
      + check_num 8 heap3.hp
      + check_num 6 after.hp
      + check_bool true (is_boxed root)
      + check_int (pos 100) (get_smallint e0)
      + check_bool true (is_boxed e1)
      + check_int (pos 200) (get_smallint i0)
      + check_int (pos 300) (get_smallint i1))
