-- ===== src/Heap/Gc.antt =====
-- The copying collector of src/mb_heap.c (erts/example/mini_beam_esp32). The scan loop takes fuel:
-- it scans at least one word a round, and no more words than the new space has can be copied.
use os_ii.Prelude.{
  ℕ, zero, suc, ◌+◌, ◌%◌, u32_mod, ◌==◌, ltb, true, false, ◌||◌, not, if◌then◌else◌, List, [], ◌∷◌,
  replicate,
}
use os_ii.Run.{Run, done, out_of_fuel, ◌>>=◌}
use os_ii.Term.{
  Term, is_immediate, is_boxed, is_cons, get_boxed, get_cons, make_boxed, make_cons, is_moved,
  moved_marker, is_tuple_hdr, get_tuple_arity,
}
use os_ii.Heap.{Heap, Space, with_words, heap_words, read, write}

-- `memcpy(&heap->from[dst], &old_space[src], n * sizeof(mb_term_t))`
unfoldable pub copy_words : ℕ → Heap → Space → ℕ → ℕ → Run Heap
copy_words zero heap old src dst = done heap
copy_words (suc n) heap old src dst = read heap old src >>= λ w.
    write heap heap.from dst w >>= λ heap'. copy_words n heap' old (src + 1) (dst + 1)

-- The copy of an object of `size` words, and the forwarding pointer that is left in its place. The
-- number is the object's new offset.
unfoldable pub move_object : Heap → Space → ℕ → ℕ → Run (ℕ × Heap)
move_object heap old old_off size = copy_words size heap old old_off heap.hp >>= λ h1.
    let h2 = record h1 { hp = h1.hp + size } in
    write h2 old old_off moved_marker >>= λ h3.
    write h3 old (old_off + 1) heap.hp >>= λ h4. done (heap.hp, h4)

unfoldable pub copy_boxed : Heap → Space → Term → Run (Term × Heap)
copy_boxed heap old term =
    let old_off = get_boxed term in
    read heap old old_off >>= λ hdr.
    if is_moved hdr
    then (read heap old (old_off + 1) >>= λ fwd. done (make_boxed fwd, heap))
    else if not (is_tuple_hdr hdr)
    then done (term, heap)
    else (move_object heap old old_off (1 + get_tuple_arity hdr) >>= λ (new_off, heap').
        done (make_boxed new_off, heap'))

unfoldable pub copy_cons : Heap → Space → Term → Run (Term × Heap)
copy_cons heap old term =
    let old_off = get_cons term in
    read heap old old_off >>= λ first.
    if is_moved first
    then (read heap old (old_off + 1) >>= λ fwd. done (make_cons fwd, heap))
    else (move_object heap old old_off 2 >>= λ (new_off, heap'). done (make_cons new_off, heap'))

-- `mb_gc_copy_term`
unfoldable pub copy_term : Heap → Space → Term → Run (Term × Heap)
copy_term heap old term =
    if is_immediate term || term == 0
    then done (term, heap)
    else if is_boxed term
    then copy_boxed heap old term
    else if is_cons term
    then copy_cons heap old term
    else done (term, heap)

-- Phase 1: the roots, in order.
unfoldable pub copy_roots : Heap → Space → List Term → Run (List Term × Heap)
copy_roots heap old [] = done ([], heap)
copy_roots heap old (t ∷ ts) =
    copy_term heap old t >>= λ (t', h1). copy_roots h1 old ts >>= λ (ts', h2). done (t' ∷ ts', h2)

-- `heap->from[scan] = mb_gc_copy_term(heap, old_space, heap->from[scan])`
unfoldable pub scan_word : Heap → Space → ℕ → Run Heap
scan_word heap old scan =
    read heap heap.from scan >>= λ w. copy_term heap old w >>= λ (w', h). write h h.from scan w'

-- `n` words from `scan` on, one after the other.
unfoldable pub scan_words : ℕ → Heap → Space → ℕ → Run Heap
scan_words zero heap old scan = done heap
scan_words (suc n) heap old scan = scan_word heap old scan >>= λ h. scan_words n h old (scan + 1)

-- Phase 2: `while (scan < heap->hp)`.
unfoldable pub scan_loop : ℕ → Heap → Space → ℕ → Run Heap
scan_loop zero heap old scan = out_of_fuel
scan_loop (suc fuel) heap old scan = elim (ltb scan heap.hp) [
  | false ↦ done heap
  | true ↦ read heap heap.from scan >>= λ w. elim (is_tuple_hdr w) [
    | true ↦ scan_words (get_tuple_arity w) heap old (scan + 1) >>= λ h.
        scan_loop fuel h old (scan + 1 + get_tuple_arity w)
    | false ↦ scan_word heap old scan >>= λ h. scan_loop fuel h old (scan + 1)
  ]
]

-- `mb_heap_gc`: the roots' new values and the collected heap. The clearing of the old space writes
-- `capacity` words, which are all of it in an initialised heap and none in a zeroed one.
unfoldable pub gc : Heap → List Term → Run (List Term × Heap)
gc heap roots =
    let old = heap.from in
    let swapped = record heap { from = heap.to; to = old; hp = 0 } in
    copy_roots swapped old roots >>= λ (roots', h1). scan_loop (heap_words + 1) h1 old 0 >>= λ h2.
    let cleared = with_words h2 old (replicate h2.capacity 0) in
    done (roots', record cleared { gc_count = (h2.gc_count + 1) % u32_mod })
