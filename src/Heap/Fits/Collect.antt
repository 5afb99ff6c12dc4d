-- ===== src/Heap/Fits/Collect.antt =====
-- The collector of src/mb_heap.c (erts/example/mini_beam_esp32) keeps to the arrays' size, and its scan
-- ends.
use os_ii.Prelude.{
  ℕ, zero, suc, ◌+◌, ◌<◌, arith, ◌==◌, ◌||◌, not, if◌then◌else◌, Bool, true, false, ltb, List, [],
  ◌∷◌, length-replicate, replicate,
}
use os_ii.Run.{Run, done, Gives->>=, ◌>>=◌}
use os_ii.Term.{
  Term, moved_marker, is_immediate, is_boxed, is_cons, is_moved, is_tuple_hdr, get_tuple_arity,
  get_boxed, get_cons,
}
use os_ii.Heap.{Heap, Space, with_words, heap_words, read, write}
use os_ii.Heap.Gc.{
  copy_words, move_object, copy_boxed, copy_cons, copy_term, copy_roots, scan_word, scan_words,
  scan_loop, gc,
}
use os_ii.Heap.Fits.{Fits, Fit, FitWith, with_words-Fits, read-Gives, write-Fit, registers-Fits}

copy_words-Fit :
    (n : ℕ) (heap : Heap) (old : Space) (src dst : ℕ)
    → Fits heap
    → Fit (copy_words n heap old src dst)
unfolding copy_words
copy_words-Fit zero heap old src dst f = f
copy_words-Fit (suc n) heap old src dst f =
    Gives->>= ⊥ _ Fits (read heap old src) _ (read-Gives heap old src f) λ w lt.
      Gives->>= ⊥ Fits Fits (write heap heap.from dst w) _ (write-Fit heap heap.from dst w f)
        λ h g. copy_words-Fit n h old (src + 1) (dst + 1) g

move_object-FitWith :
    (heap : Heap) (old : Space) (old_off size : ℕ)
    → Fits heap
    → FitWith (move_object heap old old_off size)
unfolding move_object
move_object-FitWith heap old old_off size f =
    Gives->>= ⊥ Fits _ (copy_words size heap old old_off heap.hp) _
      (copy_words-Fit size heap old old_off heap.hp f)
      λ h1 f1.
        let h2 = record h1 { hp = h1.hp + size } in
        Gives->>= ⊥ Fits _ (write h2 old old_off moved_marker) _
          (write-Fit h2 old old_off _ (registers-Fits h1 h1.from h1.to _ h1.gc_count f1))
          λ h3 f3.
            Gives->>= ⊥ Fits _ (write h3 old (old_off + 1) heap.hp) _
              (write-Fit h3 old (old_off + 1) _ f3) λ h4 f4. f4

module _ {A : Type 0} where
  if-FitWith :
      (b : Bool) (x y : Run (A × Heap)) → FitWith x → FitWith y → FitWith (if b then x else y)
  if-FitWith true x y hx hy = hx
  if-FitWith false x y hx hy = hy

copy_boxed-FitWith :
    (heap : Heap) (old : Space) (term : Term) → Fits heap → FitWith (copy_boxed heap old term)
unfolding copy_boxed
copy_boxed-FitWith heap old term f =
    let old_off = get_boxed term in
    Gives->>= ⊥ _ _ (read heap old old_off) _ (read-Gives heap old old_off f) λ hdr lt.
      if-FitWith (is_moved hdr) _ _
        (Gives->>= ⊥ _ _ (read heap old (old_off + 1)) _ (read-Gives heap old (old_off + 1) f)
          λ fwd lt'. f)
        (if-FitWith (not (is_tuple_hdr hdr)) _ _ f (
          Gives->>= ⊥ _ _ (move_object heap old old_off (1 + get_tuple_arity hdr)) _
            (move_object-FitWith heap old old_off _ f) λ x g. g))

copy_cons-FitWith :
    (heap : Heap) (old : Space) (term : Term) → Fits heap → FitWith (copy_cons heap old term)
unfolding copy_cons
copy_cons-FitWith heap old term f =
    let old_off = get_cons term in
    Gives->>= ⊥ _ _ (read heap old old_off) _ (read-Gives heap old old_off f) λ first lt.
      if-FitWith (is_moved first) _ _
        (Gives->>= ⊥ _ _ (read heap old (old_off + 1)) _ (read-Gives heap old (old_off + 1) f)
          λ fwd lt'. f)
        (Gives->>= ⊥ _ _ (move_object heap old old_off 2) _
          (move_object-FitWith heap old old_off 2 f) λ x g. g)

copy_term-FitWith :
    (heap : Heap) (old : Space) (term : Term) → Fits heap → FitWith (copy_term heap old term)
unfolding copy_term
copy_term-FitWith heap old term f = if-FitWith (is_immediate term || term == 0) _ _ f (
    if-FitWith (is_boxed term) _ _ (copy_boxed-FitWith heap old term f)
      (if-FitWith (is_cons term) _ _ (copy_cons-FitWith heap old term f) f))

copy_roots-FitWith :
    (heap : Heap) (old : Space) (ts : List Term) → Fits heap → FitWith (copy_roots heap old ts)
unfolding copy_roots
copy_roots-FitWith heap old [] f = f
copy_roots-FitWith heap old (t ∷ ts) f =
    Gives->>= ⊥ _ _ (copy_term heap old t) _ (copy_term-FitWith heap old t f)
      λ x g. Gives->>= ⊥ _ _ (copy_roots x.1 old ts) _ (copy_roots-FitWith x.1 old ts g) λ y k. k

scan_word-Fit : (heap : Heap) (old : Space) (scan : ℕ) → Fits heap → Fit (scan_word heap old scan)
unfolding scan_word
scan_word-Fit heap old scan f =
    Gives->>= ⊥ _ Fits (read heap heap.from scan) _ (read-Gives heap heap.from scan f) λ w lt.
      Gives->>= ⊥ _ Fits (copy_term heap old w) _ (copy_term-FitWith heap old w f)
        λ x g. write-Fit x.1 x.1.from scan x.0 g

scan_words-Fit :
    (n : ℕ) (heap : Heap) (old : Space) (scan : ℕ) → Fits heap → Fit (scan_words n heap old scan)
unfolding scan_words
scan_words-Fit zero heap old scan f = f
scan_words-Fit (suc n) heap old scan f =
    Gives->>= ⊥ Fits Fits (scan_word heap old scan) _ (scan_word-Fit heap old scan f)
      λ h g. scan_words-Fit n h old (scan + 1) g

-- A round of the scan reads the word at `scan`, which is inside the space, and moves on from there.
round-Fit :
    (k : Heap → ℕ → Run Heap) (heap : Heap) (old : Space) (scan : ℕ) (c : Bool) (arity : ℕ)
    → Fits heap
    → ((h : Heap) (next : ℕ) → Fits h → scan < next → Fit (k h next))
    → Fit (elim c as (λ _. Run Heap) [
      | true ↦ scan_words arity heap old (scan + 1) >>= λ h. k h (scan + 1 + arity)
      | false ↦ scan_word heap old scan >>= λ h. k h (scan + 1)
    ])
round-Fit k heap old scan true arity f rest =
    Gives->>= ⊥ Fits Fits (scan_words arity heap old (scan + 1)) _
      (scan_words-Fit arity heap old (scan + 1) f) λ h g. rest h _ g (omega arith)
round-Fit k heap old scan false arity f rest =
    Gives->>= ⊥ Fits Fits (scan_word heap old scan) _ (scan_word-Fit heap old scan f)
      λ h g. rest h _ g (omega arith)

pub scan_loop-Fit :
    (fuel : ℕ) (heap : Heap) (old : Space) (scan : ℕ)
    → Fits heap
    → heap_words < fuel + scan
    → 0 < fuel
    → Fit (scan_loop fuel heap old scan)
unfolding scan_loop
scan_loop-Fit zero heap old scan f enough pos = absurd (omega arith)
scan_loop-Fit (suc fuel) heap old scan f enough pos = while-Fit (ltb scan heap.hp) _ (
    Gives->>= ⊥ _ Fits (read heap heap.from scan) _ (read-Gives heap heap.from scan f) λ w lt.
      round-Fit (λ h next. scan_loop fuel h old next) heap old scan (is_tuple_hdr w)
        (get_tuple_arity w) f
        (λ h next g more. scan_loop-Fit fuel h old next g (omega arith) (omega arith)))
  where
    while-Fit :
        (b : Bool) (x : Run Heap)
        → Fit x
        → Fit (elim b as (λ _. Run Heap) [ false ↦ done heap | true ↦ x ])
    while-Fit false x h = f
    while-Fit true x h = h

-- The collector's fuel is enough, and it keeps to the arrays' size.
pub gc-FitWith : (heap : Heap) (roots : List Term) → Fits heap → FitWith (gc heap roots)
unfolding gc
gc-FitWith heap roots f =
    let old = heap.from in
    Gives->>= ⊥ _ _ (copy_roots (record heap { from = heap.to; to = old; hp = 0 }) old roots) _
      (copy_roots-FitWith _ old roots (registers-Fits heap heap.to old 0 heap.gc_count f))
      λ x f1.
        Gives->>= ⊥ Fits _ (scan_loop (heap_words + 1) x.1 old 0) _
          (scan_loop-Fit (heap_words + 1) x.1 old 0 f1 (omega arith) (omega arith))
          λ h2 f2.
            let cleared = with_words h2 old (replicate h2.capacity 0) in
            registers-Fits cleared cleared.from cleared.to cleared.hp _ (
              with_words-Fits h2 old (replicate h2.capacity 0)
                (omega (arith, length-replicate {A = Term} h2.capacity 0, f2.within)) f2)
