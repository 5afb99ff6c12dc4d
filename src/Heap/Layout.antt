-- ===== src/Heap/Layout.antt =====
-- What `mb_heap_make_tuple` and `mb_heap_cons` of src/mb_heap.c (erts/example/mini_beam_esp32) put where.
pub mod Words
use os_ii.Prelude.{
  ℕ, zero, suc, ◌+◌, ◌-◌, ◌≤◌, ◌<◌, ◌≡◌, ◌≢◌, ◌⊎◌, inl, inr, Bool-cases, leb→le, refl, sym, ◌∙◌, ap,
  arith, ltb, lt→ltb, leb, Bool, true, false, if◌then◌else◌, List, [], ◌∷◌, length, get_elem?, set,
  length-set, get_elem?-set_self, get_elem?-set_ne, Option, none, some,
}
use mathlib.Core.Path.{subst}
use os_ii.Run.{Run, done, fault, ◌>>=◌, in_range}
use os_ii.Term.{Term, make_tuple_hdr, make_boxed, make_cons}
use os_ii.Heap.{
  Heap, Space, null, space_a, space_b, words, with_words, read, write, alloc, write_elems,
  make_tuple, cons,
}
use Words.{
  bind_assoc, bind_done, write_twice, set_all, length-set_all, with_words_sizes, set_all_below,
  set_all_at, words-with_words, with_words_twice, with_words_same, with_words_registers, write_lem,
  write_elems_lem,
}

-- `h` is `heap` with the words `xs` put at its `hp`: they can be read there, and what was below is as it
-- was.
pub record Placed (heap : Heap) (xs : List Term) (h : Heap) : Type 0 where
  pub moved_on : h.hp ≡ heap.hp + length xs
  pub same_space : h.from ≡ heap.from
  pub same_other : h.to ≡ heap.to
  pub same_capacity : h.capacity ≡ heap.capacity
  pub sizes : (length h.space_a ≡ length heap.space_a) × (length h.space_b ≡ length heap.space_b)
  pub put : (i : ℕ) → i < length xs → read h h.from (heap.hp + i) ≡ in_range (get_elem? xs i)
  pub kept : (i : ℕ) → i < heap.hp → read h h.from i ≡ read heap heap.from i

-- The room was taken, and the words are put there.
abbrev taken : Heap → ℕ → Heap
taken heap n = record heap { hp = heap.hp + n }

words-taken : (heap : Heap) (n : ℕ) (p : Space) → words (taken heap n) p ≡ words heap p
words-taken heap n null = refl
words-taken heap n space_a = refl
words-taken heap n space_b = refl

abbrev placed : Heap → List Term → Heap
placed heap xs =
    with_words (taken heap (length xs)) heap.from (set_all (words heap heap.from) heap.hp xs)

-- What an allocation of the words `xs` gives: 0 and the heap as it was where it has no room for them,
-- and otherwise the term of the word at `hp`, with the words put there.
abbrev pub Allocated : Heap → (ℕ → Term) → List Term → Run (Term × Heap) → Type 0
Allocated heap make xs r =
    ((heap.capacity < heap.hp + length xs) × (r ≡ done (0, heap)))
    ⊎ ((heap.hp + length xs ≤ heap.capacity)
        × ((h : Heap) × (r ≡ done (make heap.hp, h)) × Placed heap xs h))

module _ (heap : Heap) (points : heap.from ≢ null)
    (size : length (words heap heap.from) ≡ heap.capacity) where
  alloc_room : (n : ℕ) → heap.hp + n ≤ heap.capacity → alloc heap n ≡ (some heap.hp, taken heap n)
  unfolding alloc
  alloc_room n room = ground arith

  alloc_full : (n : ℕ) → heap.capacity < heap.hp + n → alloc heap n ≡ (none, heap)
  unfolding alloc
  alloc_full n full = ground arith

  placed_lem :
      (xs : List Term)
      → heap.hp + length xs ≤ heap.capacity
      → write_elems (taken heap (length xs)) heap.hp xs ≡ done (placed heap xs)
  placed_lem xs room =
      let same = words-taken heap (length xs) heap.from in
      write_elems_lem (taken heap (length xs)) heap.from heap.hp xs refl points
        (omega (arith, size, ap (λ (l : List Term). length l) same))
      ∙ ap (λ l. done (with_words (taken heap (length xs)) heap.from (set_all l heap.hp xs))) same

  placed-Placed :
      (xs : List Term) → heap.hp + length xs ≤ heap.capacity → Placed heap xs (placed heap xs)
  unfolding read
  placed-Placed xs room =
      let ws' = set_all (words heap heap.from) heap.hp xs in
      let regs = with_words_registers (taken heap (length xs)) heap.from ws' in
      let at : words (placed heap xs) (placed heap xs).from ≡ ws' =
        ap (words (placed heap xs)) regs.0
        ∙ words-with_words (taken heap (length xs)) heap.from ws' points in
      record {
        moved_on = regs.1;
        same_space = regs.0;
        same_other = regs.2;
        same_capacity = regs.3;
        sizes = with_words_sizes (taken heap (length xs)) heap.from ws' (
            length-set_all (words heap heap.from) heap.hp xs
            ∙ ap (λ (l : List Term). length l) (sym (words-taken heap (length xs) heap.from)));
        put = λ i lt.
            ap (λ l. in_range (get_elem? l (heap.hp + i))) at
            ∙ ap in_range (set_all_at (words heap heap.from) heap.hp xs i lt (omega (arith, size)));
        kept = λ i lt.
            ap (λ l. in_range (get_elem? l i)) at
            ∙ ap in_range (set_all_below (words heap heap.from) heap.hp xs i lt);
      }

  -- The call, on what `alloc` has given it: 0 where that is `NULL`, and `fill` where it is not.
  allocated :
      (make : ℕ → Term) (xs : List Term) (body : Option ℕ × Heap → Run (Term × Heap))
      → ((h : Heap) → body (none, h) ≡ done (0, h))
      → ((off : ℕ) (h : Heap)
          → body (some off, h) ≡ (write_elems h off xs >>= λ h'. done (make off, h')))
      → Allocated heap make xs (body (alloc heap (length xs)))
  allocated make xs body at_none at_some =
      elim (Bool-cases (leb (heap.hp + length xs) heap.capacity)) [
        | inl fits ↦
            let room = leb→le (heap.hp + length xs) heap.capacity fits in
            inr (
              room,
              (
                placed heap xs,
                ap body (alloc_room (length xs) room)
                    ∙ at_some heap.hp (taken heap (length xs))
                    ∙ ap (λ r. r >>= λ h'. done (make heap.hp, h')) (placed_lem xs room),
                placed-Placed xs room,
              ),
            )
        | inr full ↦
            let above : heap.capacity < heap.hp + length xs = ground arith in
            inl (above, ap body (alloc_full (length xs) above) ∙ at_none heap)
      ]

  -- A tuple can be read back: where the space is there and of its size, `mb_heap_make_tuple` returns 0
  -- and changes nothing if the header and the elements do not fit. Otherwise it returns the boxed term
  -- of the old `hp`, where the header with the arity and then the elements are read, and every word
  -- below is as before.
  pub make_tuple_lem :
      (elems : List Term)
      → Allocated heap make_boxed (make_tuple_hdr (length elems) ∷ elems) (make_tuple heap elems)
  unfolding make_tuple write_elems
  make_tuple_lem elems =
      let size_of : 1 + length elems ≡ suc (length elems) = omega arith in
      let body : Option ℕ × Heap → Run (Term × Heap) = λ x. elim (x.0) as (λ _. Run (Term × Heap)) [
        | none ↦ done (0, x.1)
        | some off ↦ write (x.1) (x.1.from) off (make_tuple_hdr (length elems)) >>= λ h.
            write_elems h (off + 1) elems >>= λ h'. done (make_boxed off, h')
      ] in
      subst
        (λ (n : ℕ).
          Allocated heap make_boxed (make_tuple_hdr (length elems) ∷ elems) (body (alloc heap n)))
        (sym size_of)
        (allocated make_boxed (make_tuple_hdr (length elems) ∷ elems) body (λ h. refl)
          (λ off h. bind_assoc (write h h.from off (make_tuple_hdr (length elems))) _ _))

  -- A cons cell can be read back: where the space is there and of its size, `mb_heap_cons` returns 0 and
  -- changes nothing if the two words do not fit. Otherwise it returns the cons term of the old `hp`, where
  -- the head and then the tail are read, and every word below is as before.
  pub cons_lem :
      (head tail : Term) → Allocated heap make_cons (head ∷ tail ∷ []) (cons heap head tail)
  unfolding cons write_elems
  cons_lem head tail =
      allocated make_cons (head ∷ tail ∷ [])
        (λ x. elim (x.0) as (λ _. Run (Term × Heap)) [
          | none ↦ done (0, x.1)
          | some off ↦ write (x.1) (x.1.from) off head >>= λ h.
              write h h.from (off + 1) tail >>= λ h'. done (make_cons off, h')
        ])
        (λ h. refl)
        (λ off h.
          write_twice (write h h.from off head) (λ h'. write h' h'.from (off + 1) tail)
            (λ h''. done (make_cons off, h'')))
