-- ===== src/Heap/Fits.antt =====
-- The arrays of a heap of src/mb_heap.c (erts/example/mini_beam_esp32) keep to their size.
pub mod Collect
use os_ii.Prelude.{
  ℕ, zero, suc, ◌+◌, ◌≤◌, ◌<◌, arith, ◌==◌, ◌||◌, not, if◌then◌else◌, Bool, true, false, ltb,
  Bool-cases, inl, inr, List, [], ◌∷◌, length, get_elem?, set, length-set, length-replicate,
  replicate, Option, none, some,
}
use os_ii.Run.{Run, done, fault, out_of_fuel, Gives, Gives->>=, ◌>>=◌, in_range}
use os_ii.Term.{
  Term, make_tuple_hdr, make_boxed, make_cons, moved_marker, is_immediate, is_boxed, is_cons,
  is_moved, is_tuple_hdr, get_tuple_arity, get_boxed, get_cons,
}
use os_ii.Heap.{
  Heap, Space, null, space_a, space_b, words, with_words, heap_words, read, write, alloc,
  write_elems, make_tuple, cons,
}
use os_ii.Heap.Gc.{
  copy_words, move_object, copy_boxed, copy_cons, copy_term, copy_roots, scan_word, scan_words,
  scan_loop, gc,
}

-- No space has more words than `MB_HEAP_WORDS`, nor is a larger capacity claimed.
pub record Fits (heap : Heap) : Type 0 where
  pub words_a : length heap.space_a ≤ heap_words
  pub words_b : length heap.space_b ≤ heap_words
  pub within : heap.capacity ≤ heap_words

abbrev Fit : Run Heap → Type 0
Fit = Gives ⊥ Fits

-- The same of a call that returns a value beside the heap.
abbrev pub FitWith : {A : Type 0} → Run (A × Heap) → Type 0
FitWith = Gives ⊥ (λ x. Fits x.1)

length-words : (heap : Heap) (p : Space) → Fits heap → length (words heap p) ≤ heap_words
length-words heap null f = omega arith
length-words heap space_a f = f.words_a
length-words heap space_b f = f.words_b

with_words-Fits :
    (heap : Heap) (p : Space) (ws : List Term)
    → length ws ≤ heap_words
    → Fits heap
    → Fits (with_words heap p ws)
with_words-Fits heap null ws le f = f
with_words-Fits heap space_a ws le f = record {
  words_a = le;
  words_b = f.words_b;
  within = f.within;
}
with_words-Fits heap space_b ws le f = record {
  words_a = f.words_a;
  words_b = le;
  within = f.within;
}

-- A read that returns is inside the array.
in_range-Gives : (ws : List Term) (i : ℕ) → Gives ⊥ (λ w. i < length ws) (in_range (get_elem? ws i))
in_range-Gives [] i = tt
in_range-Gives (w ∷ ws) zero = omega arith
in_range-Gives (w ∷ ws) (suc i) = later (get_elem? ws i) (in_range-Gives ws i)
  where
    later :
        (o : Option Term)
        → Gives ⊥ (λ w. i < length ws) (in_range o)
        → Gives ⊥ (λ w'. suc i < length (w ∷ ws)) (in_range o)
    later none h = tt
    later (some x) h = omega arith

read-Gives :
    (heap : Heap) (p : Space) (off : ℕ)
    → Fits heap
    → Gives ⊥ (λ w. off < heap_words) (read heap p off)
unfolding read
read-Gives heap p off f =
    Gives-lt (in_range (get_elem? (words heap p) off)) (in_range-Gives (words heap p) off)
  where
    Gives-lt :
        (r : Run Term)
        → Gives ⊥ (λ w. off < length (words heap p)) r
        → Gives ⊥ (λ w. off < heap_words) r
    Gives-lt (done w) h = omega (arith, length-words heap p f)
    Gives-lt fault h = tt
    Gives-lt out_of_fuel h = h

write-Fit : (heap : Heap) (p : Space) (off : ℕ) (w : Term) → Fits heap → Fit (write heap p off w)
unfolding write
write-Fit heap p off w f = elim (Bool-cases (ltb off (length (words heap p)))) [
  | inl inside ↦ rw inside (
      with_words-Fits heap p (set (words heap p) off w)
        (omega (arith, length-set (words heap p) off w, length-words heap p f)) f)
  | inr outside ↦ rw outside tt
]

alloc-Fits : (heap : Heap) (n : ℕ) → Fits heap → Fits (alloc heap n).1
unfolding alloc
alloc-Fits heap n f = ground arith

write_elems-Fit :
    (heap : Heap) (off : ℕ) (xs : List Term) → Fits heap → Fit (write_elems heap off xs)
unfolding write_elems
write_elems-Fit heap off [] f = f
write_elems-Fit heap off (x ∷ xs) f =
    Gives->>= ⊥ Fits Fits (write heap heap.from off x) _ (write-Fit heap heap.from off x f)
      (λ h g. write_elems-Fit h (off + 1) xs g)

-- The registers of the allocator are not the arrays.
registers-Fits :
    (heap : Heap) (from to : Space) (hp gc_count : ℕ)
    → Fits heap
    → Fits (record heap { from = from; to = to; hp = hp; gc_count = gc_count })
registers-Fits heap from to hp gc_count f = record {
  words_a = f.words_a;
  words_b = f.words_b;
  within = f.within;
}

pub make_tuple-FitWith :
    (heap : Heap) (elems : List Term) → Fits heap → FitWith (make_tuple heap elems)
unfolding make_tuple
make_tuple-FitWith heap elems f = placed (alloc heap (1 + length elems)).0
  where
    heap' : Heap
    heap' = (alloc heap (1 + length elems)).1

    placed :
        (o : Option ℕ)
        → FitWith (elim o as (λ _. Run (Term × Heap)) [
          | none ↦ done (0, heap')
          | some off ↦ write heap' heap'.from off (make_tuple_hdr (length elems)) >>= λ h.
              write_elems h (off + 1) elems >>= λ h'. done (make_boxed off, h')
        ])
    placed none = alloc-Fits heap (1 + length elems) f
    placed (some off) =
        Gives->>= ⊥ Fits _ (write heap' heap'.from off (make_tuple_hdr (length elems))) _
          (write-Fit heap' heap'.from off _ (alloc-Fits heap (1 + length elems) f))
          λ h g.
            Gives->>= ⊥ Fits _ (write_elems h (off + 1) elems) _
              (write_elems-Fit h (off + 1) elems g) λ h' g'. g'

pub cons-FitWith : (heap : Heap) (head tail : Term) → Fits heap → FitWith (cons heap head tail)
unfolding cons
cons-FitWith heap head tail f = placed (alloc heap 2).0
  where
    heap' : Heap
    heap' = (alloc heap 2).1

    placed :
        (o : Option ℕ)
        → FitWith (elim o as (λ _. Run (Term × Heap)) [
          | none ↦ done (0, heap')
          | some off ↦ write heap' heap'.from off head >>= λ h.
              write h h.from (off + 1) tail >>= λ h'. done (make_cons off, h')
        ])
    placed none = alloc-Fits heap 2 f
    placed (some off) =
        Gives->>= ⊥ Fits _ (write heap' heap'.from off head) _
          (write-Fit heap' heap'.from off _ (alloc-Fits heap 2 f))
          λ h g.
            Gives->>= ⊥ Fits _ (write h h.from (off + 1) tail) _
              (write-Fit h h.from (off + 1) tail g) λ h' g'. g'
