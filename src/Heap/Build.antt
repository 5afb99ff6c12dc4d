-- ===== src/Heap/Build.antt =====
-- The heap that `mb_heap_init` of src/mb_heap.c (erts/example/mini_beam_esp32) makes is well formed,
-- and `mb_heap_make_tuple` and `mb_heap_cons` keep it so.
use os_ii.Prelude.{
  ℕ, zero, suc, ◌+◌, ◌-◌, ◌≤◌, ◌<◌, ◌≡◌, ◌≢◌, ◌⊎◌, inl, inr, refl, sym, ◌∙◌, ap, arith, List, [],
  ◌∷◌, ◌++◌, length, length-replicate, get_elem?, get_elem?-eq-get_or, All,
}
use mathlib.Core.Path.{subst}
use os_ii.Run.{Run, done, in_range}
use os_ii.Term.{Term, make_tuple_hdr, make_boxed, make_cons}
use os_ii.Heap.{Heap, Space, null, words, heap_words, read, init, make_tuple, cons}
use os_ii.Heap.Layout.{Placed, make_tuple_lem, cons_lem}
use os_ii.Heap.Objects.{
  Kind, tuple, cell, size, total, total-append, At, At-inside, At-append, At-append-cases, At-last,
  at, Sound, plain, empty, boxed, pair, Shaped, WellFormed,
}

pub init-WellFormed : WellFormed init []
unfolding init
init-WellFormed = record {
  points = inl (refl, refl);
  words_a = length-replicate {A = Term} heap_words 0;
  words_b = length-replicate {A = Term} heap_words 0;
  whole = refl;
  filled = refl;
  room = omega arith;
  shaped = λ off k h. absurd h;
}

pub Sound-append : (ks ls : List Kind) (t : Term) → Sound ks t → Sound (ks ++ ls) t
Sound-append ks ls t (plain p) = plain p
Sound-append ks ls t (empty p) = empty p
Sound-append ks ls t (boxed off n h e) = boxed off n (At-append ks ls 0 off (tuple n) h) e
Sound-append ks ls t (pair off h e) = pair off (At-append ks ls 0 off cell h) e

-- An object stays one where its words do and more objects follow.
Shaped-append :
    (ks ls : List Kind) (ws ws' : List Term) (off : ℕ) (k : Kind)
    → ((j : ℕ) → j < off + size k → at ws' j ≡ at ws j)
    → Shaped ks ws off k
    → Shaped (ks ++ ls) ws' off k
Shaped-append ks ls ws ws' off (tuple n) same s = (
  same off (omega arith) ∙ s.0,
  λ x pos lt.
      subst (Sound (ks ++ ls)) (sym (same (off + x) (omega arith)))
        (Sound-append ks ls (at ws (off + x)) (s.1 x pos lt)),
)
Shaped-append ks ls ws ws' off cell same s = λ x lt.
    subst (Sound (ks ++ ls)) (sym (same (off + x) (omega arith)))
      (Sound-append ks ls (at ws (off + x)) (s x lt))

in_range_at : (ws : List Term) (i : ℕ) (w : Term) → in_range (get_elem? ws i) ≡ done w → at ws i ≡ w
in_range_at [] i w e = absurd (ground arith)
in_range_at (x ∷ ws) zero w e = cc
in_range_at (x ∷ ws) (suc i) w e = in_range_at ws i w e

read_at :
    (heap : Heap) (p : Space) (i : ℕ) (w : Term) → read heap p i ≡ done w → at (words heap p) i ≡ w
unfolding read
read_at heap p i w e = in_range_at (words heap p) i w e

pub read_done :
    (heap : Heap) (p : Space) (i : ℕ)
    → i < length (words heap p)
    → read heap p i ≡ done (at (words heap p) i)
unfolding read
read_done heap p i lt = ap in_range (get_elem?-eq-get_or (words heap p) i 0 lt)

All-at : (P : Term → Type 0) (ts : List Term) (i : ℕ) → All P ts → i < length ts → P (at ts i)
All-at P [] i h lt = absurd (omega arith)
All-at P (t ∷ ts) zero h lt = h.0
All-at P (t ∷ ts) (suc i) h lt = All-at P ts i h.1 (omega arith)

module _ (heap : Heap) (ks : List Kind) (w : WellFormed heap ks) where
  pub points : heap.from ≢ null
  points e = elim w.points [ inl (e', _) ↦ cc | inr (e', _) ↦ cc ]

  pub length-from : length (words heap heap.from) ≡ heap_words
  length-from = elim w.points [
    | inl (e, _) ↦ ap (λ p. length (words heap p)) e ∙ w.words_a
    | inr (e, _) ↦ ap (λ p. length (words heap p)) e ∙ w.words_b
  ]

  pub whole : length (words heap heap.from) ≡ heap.capacity
  whole = length-from ∙ sym w.whole

  module _ (xs : List Term) (h : Heap) (p : Placed heap xs h) (k : Kind)
      (sized : length xs ≡ size k) (fits : heap.hp + length xs ≤ heap.capacity) where
    below : (j : ℕ) → j < heap.hp → at (words h h.from) j ≡ at (words heap heap.from) j
    below j lt =
        read_at h h.from j (at (words heap heap.from) j)
          (p.kept j lt ∙ read_done heap heap.from j (omega (arith, length-from, w.room)))

    pub above : (x : ℕ) → x < length xs → at (words h h.from) (heap.hp + x) ≡ at xs x
    above x lt =
        read_at h h.from (heap.hp + x) (at xs x)
          (p.put x lt ∙ ap in_range (get_elem?-eq-get_or xs x 0 lt))

    -- With the new object last the heap is well formed.
    pub placed-WellFormed :
        Shaped (ks ++ k ∷ []) (words h h.from) heap.hp k → WellFormed h (ks ++ k ∷ [])
    placed-WellFormed shaped = record {
      points = elim w.points [
        | inl (e, e') ↦ inl (p.same_space ∙ e, p.same_other ∙ e')
        | inr (e, e') ↦ inr (p.same_space ∙ e, p.same_other ∙ e')
      ];
      words_a = p.sizes.0 ∙ w.words_a;
      words_b = p.sizes.1 ∙ w.words_b;
      whole = p.same_capacity ∙ w.whole;
      filled = omega (arith, total-append ks (k ∷ []), w.filled, p.moved_on);
      room = omega (arith, p.moved_on, w.whole);
      shaped = λ off l a. elim (At-append-cases ks 0 off l k a) [
        | inl old ↦
            Shaped-append ks (k ∷ []) (words heap heap.from) (words h h.from) off l
              (λ j lt. below j (omega (arith, At-inside ks 0 off l old, w.filled)))
              (w.shaped off l old)
        | inr (e, same) ↦
            let here : heap.hp ≡ off = omega (arith, e, w.filled) in
            subst (λ n. Shaped (ks ++ k ∷ []) (words h h.from) n l) here
              (subst (Shaped (ks ++ k ∷ []) (words h h.from) heap.hp) (sym same) shaped)
      ];
    }

    pub last : At (ks ++ k ∷ []) 0 heap.hp k
    last =
        let e : 0 + total ks ≡ heap.hp = omega (arith, w.filled) in
        subst (λ n. At (ks ++ k ∷ []) 0 n k) e (At-last ks 0 k)

-- What a call that builds an object of the kind `k` leaves: the 0 of a full heap and the heap as it
-- was, or a well-formed heap with one object more, and its term.
abbrev pub Built : Heap → List Kind → Kind → Run (Term × Heap) → Type 0
Built heap ks k r =
    ((heap.capacity < heap.hp + size k) × (r ≡ done (0, heap)))
    ⊎ ((t : Term) × (h : Heap) × (r ≡ done (t, h))
        × WellFormed h (ks ++ k ∷ [])
        × Sound (ks ++ k ∷ []) t)

-- On a well-formed heap `mb_heap_make_tuple`, given one sound element or more, returns 0 and changes
-- nothing where there is no room for them and a header. Otherwise the heap is well formed with one
-- tuple more behind the others, and the term returned is sound in it.
pub make_tuple-WellFormed :
    (heap : Heap) (ks : List Kind) (x : Term) (elems : List Term)
    → WellFormed heap ks
    → All (Sound ks) (x ∷ elems)
    → Built heap ks (tuple (length elems)) (make_tuple heap (x ∷ elems))
make_tuple-WellFormed heap ks x elems w sound =
    elim (make_tuple_lem heap (points heap ks w) (whole heap ks w) (x ∷ elems)) [
      | inl (full, e) ↦ inl (omega arith, e)
      | inr (fits, (h, e, p)) ↦
          let k = tuple (length elems) in
          let hdr = make_tuple_hdr (suc (length elems)) in
          let sized : length (hdr ∷ x ∷ elems) ≡ size k = omega arith in
          let up = above heap ks w (hdr ∷ x ∷ elems) h p k sized fits in
          let z : heap.hp + 0 ≡ heap.hp = omega arith in
          inr (
            make_boxed heap.hp,
            h,
            e,
            placed-WellFormed heap ks w (hdr ∷ x ∷ elems) h p k sized fits (
              ap (at (words h h.from)) (sym z) ∙ up 0 (omega arith),
              λ i pos lt.
                  let i' = i - 1 in
                  let s : i ≡ suc i' = omega arith in
                  subst (Sound (ks ++ k ∷ []))
                    (ap (at (hdr ∷ x ∷ elems)) (sym s) ∙ sym (up i (omega arith)))
                    (Sound-append ks (k ∷ []) _
                      (All-at (Sound ks) (x ∷ elems) i' sound (omega arith))),
            ),
            boxed heap.hp (length elems) (last heap ks w (hdr ∷ x ∷ elems) h p k sized fits) refl,
          )
    ]

-- The same of `mb_heap_cons`, given a sound head and tail.
pub cons-WellFormed :
    (heap : Heap) (ks : List Kind) (head tail : Term)
    → WellFormed heap ks
    → Sound ks head
    → Sound ks tail
    → Built heap ks cell (cons heap head tail)
cons-WellFormed heap ks head tail w s s' =
    elim (cons_lem heap (points heap ks w) (whole heap ks w) head tail) [
      | inl (full, e) ↦ inl (omega arith, e)
      | inr (fits, (h, e, p)) ↦
          let sized : length (head ∷ tail ∷ []) ≡ size cell = omega arith in
          let up = above heap ks w (head ∷ tail ∷ []) h p cell sized fits in
          inr (
            make_cons heap.hp,
            h,
            e,
            placed-WellFormed heap ks w (head ∷ tail ∷ []) h p cell sized fits (λ i lt.
                subst (Sound (ks ++ cell ∷ [])) (sym (up i (omega arith))) (
                  Sound-append ks (cell ∷ []) _
                    (All-at (Sound ks) (head ∷ tail ∷ []) i (s, (s', tt)) (omega arith)))),
            pair heap.hp (last heap ks w (head ∷ tail ∷ []) h p cell sized fits) refl,
          )
    ]
