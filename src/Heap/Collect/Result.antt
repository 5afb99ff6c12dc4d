-- ===== src/Heap/Collect/Result.antt =====
-- `mb_heap_gc` of src/mb_heap.c (erts/example/mini_beam_esp32) on a well-formed heap.
use os_ii.Prelude.{
  ℕ, ◌+◌, ◌≤◌, ◌%◌, u32_mod, ◌≡◌, ◌≢◌, inl, inr, refl, sym, ◌∙◌, ap, arith, Bool, true, false,
  if◌then◌else◌, List, [], ◌∷◌, length, replicate, length-replicate, All,
}
use mathlib.Core.Path.{subst}
use os_ii.Run.{done}
use os_ii.Term.{Term, moved_marker}
use os_ii.Heap.{Heap, space_a, space_b, words, with_words, heap_words}
use os_ii.Heap.Gc.{gc}
use os_ii.Heap.Objects.{
  Kind, size, total, At, at, Sound, Shaped, WellFormed, In, Points, Live, root, element,
}
use os_ii.Heap.Collect.State.{State, heap_of, old_of}
use os_ii.Heap.Collect.Forward.{Shaped-unmoved, pending_all, AllCopied-Later}
use os_ii.Heap.Collect.Invariant.{Invariant}
use os_ii.Heap.Collect.Copy.{copy_roots_lem}
use os_ii.Heap.Collect.Loop.{scan_loop_lem}
use os_ii.Heap.Collect.Final.{final-Shaped, AllCopied-Sound}
use os_ii.Heap.Collect.Alive.{all-Live}
use os_ii.Heap.Collect.Observe.{AllSeen, AllCopied-AllSeen}

-- The collection of a heap with the objects `ks` from the roots `ts` returns, and what it leaves.
pub record Collected (heap : Heap) (ks : List Kind) (ts : List Term) : Type 0 where
  pub roots : List Term
  pub result : Heap
  pub layout : List Kind
  pub returns : gc heap ts ≡ done (roots, result)
  pub valid : WellFormed result layout
  pub sound : All (Sound layout) roots
  pub shrinks : result.hp ≤ heap.hp
  pub live :
      (off : ℕ) (k : Kind) → At layout 0 off k → Live layout (words result result.from) roots off k
  pub alike : AllSeen (words heap heap.from) (words result result.from) ts roots

-- A heap, by which array `to` points at.
abbrev source : Bool → ℕ → ℕ → ℕ → List Term → List Term → Heap
source b capacity g hp new old = record {
  space_a = if b then new else old;
  space_b = if b then old else new;
  from = old_of b;
  to = if b then space_a else space_b;
  hp = hp;
  capacity = capacity;
  gc_count = g;
}

heap_cases :
    (heap : Heap) (ks : List Kind)
    → WellFormed heap ks
    → (b : Bool) × (new : List Term) × (old : List Term) × (heap
        ≡ source b heap.capacity heap.gc_count heap.hp new old)
heap_cases heap ks w = elim w.points [
  | inl (e, e') ↦ (false, heap.space_b, heap.space_a, λ i. record heap { from = e i; to = e' i })
  | inr (e, e') ↦ (true, heap.space_a, heap.space_b, λ i. record heap { from = e i; to = e' i })
]

words-source :
    (b : Bool) (capacity g hp : ℕ) (new old : List Term)
    → words (source b capacity g hp new old) (source b capacity g hp new old).from ≡ old
words-source true capacity g hp new old = refl
words-source false capacity g hp new old = refl

-- The two spaces are of their size.
spaces :
    (b : Bool) (capacity g hp : ℕ) (new old : List Term) (ks : List Kind)
    → WellFormed (source b capacity g hp new old) ks
    → (length new ≡ heap_words)
      × (length old ≡ heap_words)
      × ((off : ℕ) (k : Kind) → At ks 0 off k → Shaped ks old off k)
spaces true capacity g hp new old ks w = (w.words_a, w.words_b, w.shaped)
spaces false capacity g hp new old ks w = (w.words_b, w.words_a, w.shaped)

-- The old space is cleared, and the new one is a heap.
cleared :
    (b : Bool) (g : ℕ) (s : State)
    → length s.new ≡ heap_words
    → total s.layout ≡ s.hp
    → s.hp ≤ heap_words
    → ((off : ℕ) (k : Kind) → At s.layout 0 off k → Shaped s.layout s.new off k)
    → (h : Heap) × (record (with_words
          (heap_of b heap_words g s)
          (old_of b)
          (replicate heap_words 0)) { gc_count = (g + 1) % u32_mod }
        ≡ h)
      × WellFormed h s.layout
      × (h.hp ≡ s.hp)
      × (words h h.from ≡ s.new)
cleared true g s size filled room shaped = (
  _,
  refl,
  record {
    points = inl (refl, refl);
    words_a = size;
    words_b = length-replicate {A = Term} heap_words 0;
    whole = refl;
    filled = filled;
    room = room;
    shaped = shaped;
  },
  refl,
  refl,
)
cleared false g s size filled room shaped = (
  _,
  refl,
  record {
    points = inr (refl, refl);
    words_a = length-replicate {A = Term} heap_words 0;
    words_b = size;
    whole = refl;
    filled = filled;
    room = room;
    shaped = shaped;
  },
  refl,
  refl,
)

module _ (b : Bool) (g hp : ℕ) (new old : List Term) (ks : List Kind) (room : total ks ≤ heap_words)
    (size_new : length new ≡ heap_words) (size_old : length old ≡ heap_words)
    (shaped : (off : ℕ) (k : Kind) → At ks 0 off k → Shaped ks old off k) where
  abbrev start : State
  start = record { new = new; old = old; hp = 0; layout = [] }

  unmoved : (i : ℕ) (k : Kind) → At ks 0 i k → at old i ≢ moved_marker
  unmoved i k h = Shaped-unmoved ks old i k room (shaped i k h)

  start-Invariant : (W : ℕ → Kind → Type 0) → Invariant ks old W 0 start
  start-Invariant W = record {
    below = omega arith;
    size_new = size_new;
    size_old = size_old;
    budget = omega (arith, pending_all ks 0 old unmoved);
    filled = refl;
    intact = λ i k h ne x lt. refl;
    placed = λ i k h m. absurd (unmoved i k h m);
    translated = λ i k h m x lt low. absurd (unmoved i k h m);
    verbatim = λ i k h m x lt high. absurd (unmoved i k h m);
    origin = λ n k h. absurd h;
    wanted = λ i k h m. absurd (unmoved i k h m);
  }

  roots_wanted :
      (ts us : List Term)
      → ((t : Term) → In t us → In t ts)
      → All (λ t. (i : ℕ) (k : Kind) → At ks 0 i k → Points t i k → Live ks old ts i k) us
  roots_wanted ts [] f = tt
  roots_wanted ts (u ∷ us) f =
      (λ i k h p. root u i k (f u (inl refl)) h p, roots_wanted ts us (λ t m. f t (inr m)))

  source-Collected :
      (ts : List Term)
      → hp ≡ total ks
      → All (Sound ks) ts
      → Collected (source b heap_words g hp new old) ks ts
  unfolding gc
  source-Collected ts full sound =
      let W : ℕ → Kind → Type 0 = Live ks old ts in
      let first =
        copy_roots_lem b heap_words g ks old W room shaped 0 start ts (start-Invariant W) sound
          (roots_wanted ts ts (λ t m. m)) in
      let scan =
        scan_loop_lem b heap_words g ks old W room shaped
          (λ i k h live x lt j l g p. element i j x k l live h lt g p) (heap_words + 1) 0
          first.state first.valid (omega arith) in
      let s = scan.state in
      let v = scan.valid in
      let copied =
        AllCopied-Later ks first.state.old s.old ts first.roots scan.later first.copied in
      let (h, e, w, same_hp, same_words) =
        cleared b g s v.size_new v.filled (omega (arith, v.budget))
          (final-Shaped ks old W s room shaped v) in
      record {
        roots = first.roots;
        result = h;
        layout = s.layout;
        returns = rw first.returns (rw scan.returns (ap (λ h'. done (first.roots, h')) e));
        valid = w;
        sound = AllCopied-Sound ks old W s room shaped v ts first.roots sound copied;
        shrinks = omega (arith, same_hp, v.budget);
        live =
            subst
              (λ (ws : List Term).
                (off : ℕ) (k : Kind) → At s.layout 0 off k → Live s.layout ws first.roots off k)
              (sym same_words) (all-Live ks old ts first.roots s room shaped v copied);
        alike =
            subst (λ ws. AllSeen ws (words h h.from) ts first.roots)
              (sym (words-source b heap_words g hp new old))
              (subst (λ ws. AllSeen old ws ts first.roots) (sym same_words)
                (AllCopied-AllSeen ks old W s room shaped v ts first.roots copied));
      }

-- The collector is correct: on a well-formed heap with sound roots it returns, faulting nowhere and
-- using up no loop's rounds. The heap that it leaves is well formed, its `hp` is not larger, and the
-- new roots are sound in it. No object is left that cannot be reached from them. Every path of
-- element numbers from a new root leads to what it led to from the old one.
pub gc_lem :
    (heap : Heap) (ks : List Kind) (ts : List Term)
    → WellFormed heap ks
    → All (Sound ks) ts
    → Collected heap ks ts
gc_lem heap ks ts w sound =
    let (b, new, old, e) = heap_cases heap ks w in
    let e' : heap ≡ source b heap_words heap.gc_count heap.hp new old =
      e ∙ ap (λ c. source b c heap.gc_count heap.hp new old) w.whole in
    let (size_new, size_old, shaped) =
      spaces b heap_words heap.gc_count heap.hp new old ks (subst (λ h. WellFormed h ks) e' w) in
    subst (λ h. Collected h ks ts) (sym e')
      (source-Collected b heap.gc_count heap.hp new old ks (omega (arith, w.filled, w.room))
        size_new size_old shaped ts (sym w.filled) sound)
