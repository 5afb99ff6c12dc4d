-- ===== src/Heap/Collect/Terms.antt =====
-- `mb_gc_copy_term` of src/mb_heap.c (erts/example/mini_beam_esp32) on the words of a heap.
use os_ii.Prelude.{
  ℕ, suc, ◌+◌, ◌≤◌, ◌<◌, ◌^◌, ◌≡◌, ◌≢◌, ◌⊎◌, inl, inr, refl, sym, ◌∙◌, ap, arith, Bool, true, false,
  Bool-cases, ◌==◌, ◌||◌, List, [], ◌∷◌, ◌++◌,
}
use os_ii.Run.{Run, done}
use os_ii.Term.{
  Term, moved_marker, make_tuple_hdr, make_boxed, make_cons, is_boxed, is_cons, is_immediate,
  is_moved,
}
use os_ii.Term.Bounds.{pointer_round_trip, tuple_hdr_round_trip}
use os_ii.Heap.{Heap, Space, heap_words}
use os_ii.Heap.Gc.{copy_boxed, copy_cons, copy_term}
use os_ii.Heap.Objects.{Kind, tuple, cell, size, total, At, At-inside, at, Sound, Shaped}
use os_ii.Heap.Collect.State.{State, heap_of, old_of, blit_below}
use os_ii.Heap.Collect.Moves.{read_old, move_object_lem}
use os_ii.Heap.Collect.Forward.{Moved, Copied, Later}
use os_ii.Heap.Collect.Invariant.{Invariant}
use os_ii.Heap.Collect.MoveKeeps.{after, inside, space, after-Later}

-- What a later state of the collection leaves alone.
pub record Progress (ks : List Kind) (s s' : State) : Type 0 where
  pub later : Later ks s.old s'.old
  pub grows : s.hp ≤ s'.hp
  pub frame : (j : ℕ) → j < s.hp → at s'.new j ≡ at s.new j

-- The call `r` returns the copy of `t`, and keeps the invariant.
pub record Copies (ks : List Kind) (before : List Term) (W : ℕ → Kind → Type 0) (c : ℕ) (b : Bool)
    (capacity g : ℕ) (s : State) (t : Term) (r : Run (Term × Heap)) : Type 0 where
  pub word : Term
  pub state : State
  pub returns : r ≡ done (word, heap_of b capacity g state)
  pub valid : Invariant ks before W c state
  pub progress : Progress ks s state
  pub copied : Copied ks state.old t word

-- The words that the collector meets.
abbrev pub Word : List Kind → Term → Type 0
Word ks t = Sound ks t ⊎ ((n : ℕ) × (t ≡ make_tuple_hdr n))

pub Progress-refl : (ks : List Kind) (s : State) → Progress ks s s
Progress-refl ks s = record {
  later = λ i k h m. (m, refl);
  grows = omega arith;
  frame = λ j lt. refl;
}

-- A word that is not a pointer is returned.
pub copy_term_same :
    (heap : Heap) (old : Space) (t : Term)
    → is_boxed t ≡ false
    → is_cons t ≡ false
    → copy_term heap old t ≡ done (t, heap)
unfolding copy_term
copy_term_same heap old t nb nc = elim (Bool-cases (is_immediate t || t == 0)) [
  | inl e ↦ rw e refl
  | inr e ↦ rw e (rw nb (rw nc refl))
]

pub Sound-plain : (t : Term) → is_immediate t ≡ true → (is_boxed t ≡ false) × (is_cons t ≡ false)
unfolding is_immediate is_boxed is_cons
Sound-plain t p = ground arith

pub zero-plain : (t : Term) → t ≡ 0 → (is_boxed t ≡ false) × (is_cons t ≡ false)
unfolding is_boxed is_cons
zero-plain t p = ground arith

pub hdr-plain : (t n : ℕ) → t ≡ make_tuple_hdr n → (is_boxed t ≡ false) × (is_cons t ≡ false)
unfolding is_boxed is_cons make_tuple_hdr
hdr-plain t n p = ground arith

pub copy_term_boxed :
    (heap : Heap) (old : Space) (off : ℕ)
    → off < 2 ^ 28
    → copy_term heap old (make_boxed off) ≡ copy_boxed heap old (make_boxed off)
unfolding copy_term make_boxed is_boxed is_immediate
copy_term_boxed heap old off lt = ground arith

pub copy_term_cons :
    (heap : Heap) (old : Space) (off : ℕ)
    → off < 2 ^ 28
    → copy_term heap old (make_cons off) ≡ copy_cons heap old (make_cons off)
unfolding copy_term make_cons is_boxed is_cons is_immediate
copy_term_cons heap old off lt = ground arith

module _ (b : Bool) (capacity g : ℕ) (ks : List Kind) (before : List Term) (W : ℕ → Kind → Type 0)
    (room : total ks ≤ heap_words)
    (shaped : (off : ℕ) (k : Kind) → At ks 0 off k → Shaped ks before off k) (c : ℕ) (s : State)
    (v : Invariant ks before W c s) where
  pub after-Progress :
      (i : ℕ) (k : Kind) (h : At ks 0 i k) (ne : at s.old i ≢ moved_marker)
      → Progress ks s (after ks before W c s room v i k h ne)
  after-Progress i k h ne = record {
    later = after-Later ks before W c s room v i k h ne;
    grows = omega arith;
    frame = λ j lt. blit_below (size k) s.old i s.new s.hp j lt;
  }

  pub copy_boxed-Moved :
      (off n : ℕ)
      → At ks 0 off (tuple n)
      → Moved s.old off
      → copy_boxed (heap_of b capacity g s) (old_of b) (make_boxed off)
        ≡ done (make_boxed (at s.old (off + 1)), heap_of b capacity g s)
  unfolding copy_boxed is_moved
  copy_boxed-Moved off n h m =
      let (_, low) = At-inside ks 0 off (tuple n) h in
      rw ((pointer_round_trip off (omega arith)).0) (
        rw (read_old b capacity g s off (omega (arith, v.size_old)))
          (rw m (rw (read_old b capacity g s (off + 1) (omega (arith, v.size_old))) refl)))

  pub copy_cons-Moved :
      (off : ℕ)
      → At ks 0 off cell
      → Moved s.old off
      → copy_cons (heap_of b capacity g s) (old_of b) (make_cons off)
        ≡ done (make_cons (at s.old (off + 1)), heap_of b capacity g s)
  unfolding copy_cons is_moved
  copy_cons-Moved off h m =
      let (_, low) = At-inside ks 0 off cell h in
      rw ((pointer_round_trip off (omega arith)).4) (
        rw (read_old b capacity g s off (omega (arith, v.size_old)))
          (rw m (rw (read_old b capacity g s (off + 1) (omega (arith, v.size_old))) refl)))

  unmoved_test : (w : Term) → w ≢ moved_marker → is_moved w ≡ false
  unfolding is_moved
  unmoved_test w ne = ground arith

  pub copy_boxed_fresh :
      (off n : ℕ) (h : At ks 0 off (tuple n)) (ne : at s.old off ≢ moved_marker)
      → copy_boxed (heap_of b capacity g s) (old_of b) (make_boxed off)
        ≡ done (
          make_boxed s.hp,
          heap_of b capacity g (after ks before W c s room v off (tuple n) h ne),
        )
  unfolding copy_boxed
  copy_boxed_fresh off n h ne =
      let (_, low) = At-inside ks 0 off (tuple n) h in
      let z : off + 0 ≡ off = omega arith in
      let hdr : at s.old off ≡ make_tuple_hdr (suc n) =
        ap (at s.old) (sym z)
        ∙ v.intact off (tuple n) h ne 0 (omega arith)
        ∙ ap (at before) z
        ∙ (shaped off (tuple n) h).0 in
      let trip = tuple_hdr_round_trip (suc n) (omega arith) in
      let words : 1 + suc n ≡ n + 2 = omega arith in
      rw ((pointer_round_trip off (omega arith)).0) (
        rw (read_old b capacity g s off (omega (arith, v.size_old))) (
          rw (unmoved_test (at s.old off) ne) (
            rw hdr (
              rw trip.0 (
                rw trip.1 (
                  rw words (
                    rw
                      (move_object_lem b capacity g s off (n + 2) (s.layout ++ tuple n ∷ [])
                        (omega arith) (inside ks before W c s room v off (tuple n) h ne)
                        (space ks before W c s room v off (tuple n) h ne))
                      refl)))))))

  pub copy_cons_fresh :
      (off : ℕ) (h : At ks 0 off cell) (ne : at s.old off ≢ moved_marker)
      → copy_cons (heap_of b capacity g s) (old_of b) (make_cons off)
        ≡ done (make_cons s.hp, heap_of b capacity g (after ks before W c s room v off cell h ne))
  unfolding copy_cons
  copy_cons_fresh off h ne =
      let (_, low) = At-inside ks 0 off cell h in
      rw ((pointer_round_trip off (omega arith)).4) (
        rw (read_old b capacity g s off (omega (arith, v.size_old))) (
          rw (unmoved_test (at s.old off) ne) (
            rw
              (move_object_lem b capacity g s off 2 (s.layout ++ cell ∷ []) (omega arith)
                (inside ks before W c s room v off cell h ne)
                (space ks before W c s room v off cell h ne))
              refl)))
