-- ===== src/Heap/Collect/Scan.antt =====
-- The scan loop of `mb_heap_gc` of src/mb_heap.c (erts/example/mini_beam_esp32): it ends, faults
-- nowhere, and leaves no word that still points into the old space.
use os_ii.Prelude.{
  ℕ, zero, suc, ◌+◌, ◌-◌, ◌≤◌, ◌<◌, ◌≡◌, ◌⊎◌, inl, inr, refl, sym, ◌∙◌, ap, arith, Bool, true,
  false, List, [], ◌∷◌, length, set,
}
use mathlib.Core.Path.{subst}
use os_ii.Run.{Run, done}
use os_ii.Term.{
  Term, make_tuple_hdr, make_boxed, make_cons, is_boxed, is_cons, is_immediate, is_tuple_hdr,
  get_tuple_arity,
}
use os_ii.Term.Bounds.{tuple_hdr_round_trip}
use os_ii.Heap.{Heap, heap_words}
use os_ii.Heap.Gc.{scan_word, scan_words}
use os_ii.Heap.Objects.{
  Kind, tuple, cell, size, total, At, At-inside, At-covers, at, Sound, plain, empty, boxed, pair,
  Shaped, Points,
}
use os_ii.Heap.Collect.State.{State, heap_of, old_of}
use os_ii.Heap.Collect.Moves.{read_new, write_new}
use os_ii.Heap.Collect.Forward.{Copied, kept, Later, Later-trans}
use os_ii.Heap.Collect.Invariant.{Invariant}
use os_ii.Heap.Collect.ScanKeeps.{scanned, scanned-Invariant}
use os_ii.Heap.Collect.Terms.{Word, hdr-plain, zero-plain}
use os_ii.Heap.Collect.Copy.{copy_term_lem}

set_same : (ws : List Term) (i : ℕ) → set ws i (at ws i) ≡ ws
set_same [] i = refl
set_same (w ∷ ws) zero = refl
set_same (w ∷ ws) (suc i) = ap (λ l. w ∷ l) (set_same ws i)

-- A word of the new space that has not been scanned: a term, or the header of a tuple that ends
-- below `hp`.
abbrev pub Ahead : List Kind → ℕ → ℕ → Term → Type 0
Ahead ks hp p w =
    Sound ks w ⊎ ((n : ℕ) × (w ≡ make_tuple_hdr (suc n)) × (n < heap_words) × (p + suc n < hp))

Ahead-Word : (ks : List Kind) (hp p : ℕ) (w : Term) → Ahead ks hp p w → Word ks w
Ahead-Word ks hp p w (inl sound) = inl sound
Ahead-Word ks hp p w (inr (n, e, _, _)) = inr (suc n, e)

-- The words of an object as it stood in the old space.
Ahead-Shaped :
    (ks : List Kind) (ws : List Term) (off : ℕ) (k : Kind) (hp p x : ℕ)
    → Shaped ks ws off k
    → size k ≤ heap_words
    → x < size k
    → p + size k ≤ hp + x
    → Ahead ks hp p (at ws (off + x))
Ahead-Shaped ks ws off (tuple n) hp p zero s small lt room =
    let z : off + 0 ≡ off = omega arith in inr (n, ap (at ws) z ∙ s.0, omega arith, omega arith)
Ahead-Shaped ks ws off (tuple n) hp p (suc x) s small lt room = inl (s.1 (suc x) (omega arith) lt)
Ahead-Shaped ks ws off cell hp p x s small lt room = inl (s x lt)

Sound-header :
    (ks : List Kind) (w : Term) → total ks ≤ heap_words → Sound ks w → is_tuple_hdr w ≡ true → w ≡ 0
unfolding is_tuple_hdr is_immediate make_boxed make_cons
Sound-header ks w room (plain p) h = ground arith
Sound-header ks w room (empty p) h = p
Sound-header ks w room (boxed off n a e) h = ground (arith, At-inside ks 0 off (tuple n) a)
Sound-header ks w room (pair off a e) h = ground (arith, At-inside ks 0 off cell a)

arity_zero : (w : Term) → w ≡ 0 → get_tuple_arity w ≡ 0
unfolding get_tuple_arity
arity_zero w e = omega arith

-- A word that the loop takes for a header is none of the pointers, and the words that it scans for
-- it are below `hp`.
pub header_lem :
    (ks : List Kind) (hp p : ℕ) (w : Term)
    → total ks ≤ heap_words
    → p < hp
    → Ahead ks hp p w
    → is_tuple_hdr w ≡ true
    → (is_boxed w ≡ false) × (is_cons w ≡ false) × (p + 1 + get_tuple_arity w ≤ hp)
header_lem ks hp p w room lt (inl sound) h =
    let z = Sound-header ks w room sound h in
    let (nb, nc) = zero-plain w z in (nb, nc, omega (arith, arity_zero w z))
header_lem ks hp p w room lt (inr (n, e, small, inside)) h =
    let (nb, nc) = hdr-plain w (suc n) e in
    let (_, arity) = tuple_hdr_round_trip (suc n) (omega arith) in
    (nb, nc, omega (arith, ap get_tuple_arity e ∙ arity))

module _ (b : Bool) (capacity g : ℕ) (ks : List Kind) (before : List Term) (W : ℕ → Kind → Type 0)
    (room : total ks ≤ heap_words)
    (shaped : (off : ℕ) (k : Kind) → At ks 0 off k → Shaped ks before off k)
    (closed : (i : ℕ) (k : Kind)
      → At ks 0 i k
      → W i k
      → (x : ℕ) → x < size k
      → (j : ℕ) (l : Kind) → At ks 0 j l
      → Points (at before (i + x)) j l
      → W j l) where
  -- The call returns, and every word below `c'` has been scanned.
  pub record Scans (s : State) (r : Run Heap) (c' : State → ℕ) : Type 0 where
    pub state : State
    pub returns : r ≡ done (heap_of b capacity g state)
    pub valid : Invariant ks before W (c' state) state
    pub later : Later ks s.old state.old
    pub grows : s.hp ≤ state.hp

  -- A word that has not been scanned is a word of an object that has been copied.
  provenance :
      (c p : ℕ) (s : State)
      → Invariant ks before W c s
      → c ≤ p
      → p < s.hp
      → (i : ℕ) × (k : Kind) × (x : ℕ) × At ks 0 i k
        × W i k
        × (x < size k)
        × (p + size k ≤ s.hp + x)
        × (at s.new p ≡ at before (i + x))
  provenance c p s v low high =
      let (off, k, h, le, lt) = At-covers s.layout 0 p (omega arith) (omega (arith, v.filled)) in
      let (i, h', m, e) = v.origin off k h in
      let there : at s.old (i + 1) + (p - off) ≡ p = omega arith in
      (
        i,
        k,
        p - off,
        h',
        v.wanted i k h' m,
        omega arith,
        omega (arith, At-inside s.layout 0 off k h, v.filled),
        ap (at s.new) (sym there) ∙ v.verbatim i k h' m (p - off) (omega arith) (omega arith),
      )

  pub ahead :
      (c p : ℕ) (s : State)
      → Invariant ks before W c s
      → c ≤ p
      → p < s.hp
      → Ahead ks s.hp p (at s.new p)
  ahead c p s v low high =
      let (i, k, x, h, _, lt, fits, same) = provenance c p s v low high in
      subst (λ w. Ahead ks s.hp p w) (sym same)
        (Ahead-Shaped ks before i k s.hp p x (shaped i k h) (omega (arith, At-inside ks 0 i k h)) lt
          fits)

  ahead-Wanted :
      (c p : ℕ) (s : State)
      → Invariant ks before W c s
      → c ≤ p
      → p < s.hp
      → (j : ℕ) (l : Kind) → At ks 0 j l
      → Points (at s.new p) j l
      → W j l
  ahead-Wanted c p s v low high j l g points =
      let (i, k, x, h, want, lt, _, same) = provenance c p s v low high in
      closed i k h want x lt j l g (subst (λ w. Points w j l) same points)

  pub scan_word_lem :
      (c : ℕ) (s : State)
      → Invariant ks before W c s
      → c < s.hp
      → Scans s (scan_word (heap_of b capacity g s) (old_of b) c) (λ _. c + 1)
  unfolding scan_word
  scan_word_lem c s v lt =
      let inside : c < length s.new = omega (arith, v.size_new, v.budget) in
      let copy =
        copy_term_lem b capacity g ks before W room shaped c s (at s.new c) v
          (Ahead-Word ks s.hp c (at s.new c) (ahead c c s v (omega arith) lt))
          (ahead-Wanted c c s v (omega arith) lt) in
      let lt' : c < copy.state.hp = omega (arith, copy.progress.grows) in
      let kept_word =
        subst (λ t. Copied ks copy.state.old t copy.word) (sym (copy.progress.frame c lt))
          copy.copied in
      record {
        state = scanned ks before W c copy.state room copy.valid lt' copy.word kept_word;
        returns = rw (read_new b capacity g s c inside) (
            rw copy.returns (
              write_new b capacity g copy.state c copy.word
                (omega (arith, copy.valid.size_new, copy.valid.budget))));
        valid = scanned-Invariant ks before W c copy.state room copy.valid lt' copy.word kept_word;
        later = copy.progress.later;
        grows = copy.progress.grows;
      }

  pub scan_words_lem :
      (n c : ℕ) (s : State)
      → Invariant ks before W c s
      → c + n ≤ s.hp
      → Scans s (scan_words n (heap_of b capacity g s) (old_of b) c) (λ _. c + n)
  unfolding scan_words
  scan_words_lem zero c s v le =
      let z : c + 0 ≡ c = omega arith in
      record {
        state = s;
        returns = refl;
        valid = subst (λ n. Invariant ks before W n s) (sym z) v;
        later = λ i k h m. (m, refl);
        grows = omega arith;
      }
  scan_words_lem (suc n) c s v le =
      let first = scan_word_lem c s v (omega arith) in
      let rest = scan_words_lem n (c + 1) first.state first.valid (omega (arith, first.grows)) in
      let e : c + 1 + n ≡ c + suc n = omega arith in
      record {
        state = rest.state;
        returns = rw first.returns rest.returns;
        valid = subst (λ m. Invariant ks before W m rest.state) e rest.valid;
        later = Later-trans ks s.old first.state.old rest.state.old first.later rest.later;
        grows = omega (arith, first.grows, rest.grows);
      }

  -- A header is passed over.
  pub skip :
      (c : ℕ) (s : State)
      → Invariant ks before W c s
      → c < s.hp
      → is_boxed (at s.new c) ≡ false
      → is_cons (at s.new c) ≡ false
      → Invariant ks before W (c + 1) s
  skip c s v lt nb nc =
      subst (λ l. Invariant ks before W (c + 1) (record s { new = l })) (set_same s.new c)
        (scanned-Invariant ks before W c s room v lt (at s.new c) (kept nb nc refl))
