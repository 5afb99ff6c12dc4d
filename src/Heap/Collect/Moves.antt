-- ===== src/Heap/Collect/Moves.antt =====
-- The reads, the writes and the copying of an object of src/mb_heap.c
-- (erts/example/mini_beam_esp32) on the two arrays of a heap.
use os_ii.Prelude.{
  ℕ, zero, suc, ◌+◌, ◌≤◌, ◌<◌, ◌≡◌, refl, ap, arith, lt→ltb, Bool, true, false, List, length, set,
  length-set, get_elem?-eq-get_or,
}
use os_ii.Run.{done, in_range}
use os_ii.Term.{Term, moved_marker}
use os_ii.Heap.{read, write}
use os_ii.Heap.Gc.{copy_words, move_object}
use os_ii.Heap.Objects.{Kind, at}
use os_ii.Heap.Collect.State.{State, heap_of, old_of, blit, move}

pub read_new :
    (b : Bool) (c g : ℕ) (s : State) (i : ℕ)
    → i < length s.new
    → read (heap_of b c g s) (heap_of b c g s).from i ≡ done (at s.new i)
unfolding read
read_new true c g s i lt = ap in_range (get_elem?-eq-get_or s.new i 0 lt)
read_new false c g s i lt = ap in_range (get_elem?-eq-get_or s.new i 0 lt)

pub read_old :
    (b : Bool) (c g : ℕ) (s : State) (i : ℕ)
    → i < length s.old
    → read (heap_of b c g s) (old_of b) i ≡ done (at s.old i)
unfolding read
read_old true c g s i lt = ap in_range (get_elem?-eq-get_or s.old i 0 lt)
read_old false c g s i lt = ap in_range (get_elem?-eq-get_or s.old i 0 lt)

pub write_new :
    (b : Bool) (c g : ℕ) (s : State) (i : ℕ) (w : Term)
    → i < length s.new
    → write (heap_of b c g s) (heap_of b c g s).from i w
      ≡ done (heap_of b c g (record s { new = set s.new i w }))
unfolding write
write_new true c g s i w lt = rw (lt→ltb i (length s.new) lt) refl
write_new false c g s i w lt = rw (lt→ltb i (length s.new) lt) refl

pub write_old :
    (b : Bool) (c g : ℕ) (s : State) (i : ℕ) (w : Term)
    → i < length s.old
    → write (heap_of b c g s) (old_of b) i w
      ≡ done (heap_of b c g (record s { old = set s.old i w }))
unfolding write
write_old true c g s i w lt = rw (lt→ltb i (length s.old) lt) refl
write_old false c g s i w lt = rw (lt→ltb i (length s.old) lt) refl

pub copy_words_lem :
    (b : Bool) (c g n : ℕ) (s : State) (src dst : ℕ)
    → src + n ≤ length s.old
    → dst + n ≤ length s.new
    → copy_words n (heap_of b c g s) (old_of b) src dst
      ≡ done (heap_of b c g (record s { new = blit n s.old src s.new dst }))
unfolding copy_words
copy_words_lem b c g zero s src dst from to = refl
copy_words_lem b c g (suc n) s src dst from to = rw (read_old b c g s src (omega arith)) (
    rw (write_new b c g s dst (at s.old src) (omega arith)) (
      copy_words_lem b c g n (record s { new = set s.new dst (at s.old src) }) (src + 1) (dst + 1)
        (omega arith) (omega (arith, length-set s.new dst (at s.old src)))))

pub move_object_lem :
    (b : Bool) (c g : ℕ) (s : State) (i size : ℕ) (layout : List Kind)
    → 2 ≤ size
    → i + size ≤ length s.old
    → s.hp + size ≤ length s.new
    → move_object (heap_of b c g s) (old_of b) i size
      ≡ done (s.hp, heap_of b c g (move s i size layout))
unfolding move_object
move_object_lem b c g s i size layout two from to =
    let s1 : State = record s { new = blit size s.old i s.new s.hp; hp = s.hp + size } in
    rw (copy_words_lem b c g size s i s.hp from to) (
      rw (write_old b c g s1 i moved_marker (omega arith)) (
        rw
          (write_old b c g (record s1 { old = set s.old i moved_marker }) (i + 1) s.hp
            (omega (arith, length-set s.old i moved_marker)))
          refl))
