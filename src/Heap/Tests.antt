-- ===== src/Heap/Tests.antt =====
-- The allocator of src/mb_heap.c (erts/example/mini_beam_esp32) on a fresh heap.
use os_ii.Prelude.{◌≡◌, ◌≢◌, refl, [], ◌∷◌, length}
use os_ii.Term.{make_tuple_hdr, make_boxed, make_cons}
use os_ii.Heap.{null, words, init, make_tuple, cons}
use os_ii.Heap.Layout.{Allocated, make_tuple_lem, cons_lem}

is_there : init.from ≢ null
unfolding init
is_there e = cc

is_whole : length (words init init.from) ≡ init.capacity
unfolding init
is_whole = refl

make_tuple_lem_example :
    Allocated init make_boxed
      (make_tuple_hdr 2 ∷ 0x1F ∷ 0x2F ∷ [])
      (make_tuple init (0x1F ∷ 0x2F ∷ []))
make_tuple_lem_example = make_tuple_lem init is_there is_whole (0x1F ∷ 0x2F ∷ [])

cons_lem_example : Allocated init make_cons (0x1F ∷ 0xB ∷ []) (cons init 0x1F 0xB)
cons_lem_example = cons_lem init is_there is_whole 0x1F 0xB
