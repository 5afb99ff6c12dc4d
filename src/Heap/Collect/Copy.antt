-- ===== src/Heap/Collect/Copy.antt =====
-- `mb_gc_copy_term` and the roots' loop of src/mb_heap.c (erts/example/mini_beam_esp32): the calls
-- return, and keep the collector's invariant.
use os_ii.Prelude.{
  ℕ, ◌+◌, ◌≤◌, ◌≡◌, inl, inr, refl, sym, ◌∙◌, ap, arith, Bool, false, List, [], ◌∷◌, All,
}
use native.Mathlib.Decide.{ℕ_discrete}
use os_ii.Run.{done}
use os_ii.Term.{Term, moved_marker, make_boxed, make_cons, is_boxed, is_cons}
use os_ii.Heap.{heap_words}
use os_ii.Heap.Gc.{copy_term, copy_roots}
use os_ii.Heap.Objects.{
  Kind, tuple, cell, total, At, At-inside, at, Sound, plain, empty, boxed, pair, Shaped, Points,
}
use os_ii.Heap.Collect.State.{State, heap_of, old_of}
use os_ii.Heap.Collect.Forward.{kept, to_tuple, to_pair, Later-trans, Copied-Later, AllCopied}
use os_ii.Heap.Collect.Invariant.{Invariant}
use os_ii.Heap.Collect.MoveKeeps.{after, marked, gone_to, after-Invariant}
use os_ii.Heap.Collect.Terms.{
  Progress, Copies, Word, Progress-refl, copy_term_same, Sound-plain, zero-plain, hdr-plain,
  copy_term_boxed, copy_term_cons, after-Progress, copy_boxed-Moved, copy_cons-Moved,
  copy_boxed_fresh, copy_cons_fresh,
}

pub Progress-trans :
    (ks : List Kind) (a b c : State) → Progress ks a b → Progress ks b c → Progress ks a c
Progress-trans ks a b c p q = record {
  later = Later-trans ks a.old b.old c.old p.later q.later;
  grows = omega (arith, p.grows, q.grows);
  frame = λ j lt. q.frame j (omega (arith, p.grows)) ∙ p.frame j lt;
}

module _ (b : Bool) (capacity g : ℕ) (ks : List Kind) (before : List Term) (W : ℕ → Kind → Type 0)
    (room : total ks ≤ heap_words)
    (shaped : (off : ℕ) (k : Kind) → At ks 0 off k → Shaped ks before off k) where
  -- The call on `t`.
  abbrev Copying : ℕ → State → Term → Type 0
  Copying c s t =
      Copies ks before W c b capacity g s t (copy_term (heap_of b capacity g s) (old_of b) t)

  returned :
      (c : ℕ) (s : State) (t : Term)
      → Invariant ks before W c s
      → (is_plain : (is_boxed t ≡ false) × (is_cons t ≡ false)) → Copying c s t
  returned c s t v is_plain = record {
    word = t;
    state = s;
    returns = copy_term_same (heap_of b capacity g s) (old_of b) t is_plain.0 is_plain.1;
    valid = v;
    progress = Progress-refl ks s;
    copied = kept is_plain.0 is_plain.1 refl;
  }

  tuple_copied :
      (c : ℕ) (s : State) (t : Term) (off n : ℕ)
      → Invariant ks before W c s
      → At ks 0 off (tuple n)
      → W off (tuple n)
      → t ≡ make_boxed off
      → Copying c s t
  tuple_copied c s t off n v h want e =
      let (_, low) = At-inside ks 0 off (tuple n) h in
      let call =
        ap (copy_term (heap_of b capacity g s) (old_of b)) e
        ∙ copy_term_boxed (heap_of b capacity g s) (old_of b) off (omega arith) in
      elim (ℕ_discrete (at s.old off) moved_marker) [
        | yes m ↦ record {
          word = make_boxed (at s.old (off + 1));
          state = s;
          returns = call ∙ copy_boxed-Moved b capacity g ks before W room shaped c s v off n h m;
          valid = v;
          progress = Progress-refl ks s;
          copied = to_tuple off n h e m refl;
        }
        | no ne ↦ record {
          word = make_boxed s.hp;
          state = after ks before W c s room v off (tuple n) h ne;
          returns = call ∙ copy_boxed_fresh b capacity g ks before W room shaped c s v off n h ne;
          valid = after-Invariant ks before W c s room v off (tuple n) h ne want;
          progress = after-Progress b capacity g ks before W room shaped c s v off (tuple n) h ne;
          copied =
              to_tuple off n h e (marked ks before W c s room v off (tuple n) h ne)
                (ap make_boxed (sym (gone_to ks before W c s room v off (tuple n) h ne)));
        }
      ]

  pair_copied :
      (c : ℕ) (s : State) (t : Term) (off : ℕ)
      → Invariant ks before W c s
      → At ks 0 off cell
      → W off cell
      → t ≡ make_cons off
      → Copying c s t
  pair_copied c s t off v h want e =
      let (_, low) = At-inside ks 0 off cell h in
      let call =
        ap (copy_term (heap_of b capacity g s) (old_of b)) e
        ∙ copy_term_cons (heap_of b capacity g s) (old_of b) off (omega arith) in
      elim (ℕ_discrete (at s.old off) moved_marker) [
        | yes m ↦ record {
          word = make_cons (at s.old (off + 1));
          state = s;
          returns = call ∙ copy_cons-Moved b capacity g ks before W room shaped c s v off h m;
          valid = v;
          progress = Progress-refl ks s;
          copied = to_pair off h e m refl;
        }
        | no ne ↦ record {
          word = make_cons s.hp;
          state = after ks before W c s room v off cell h ne;
          returns = call ∙ copy_cons_fresh b capacity g ks before W room shaped c s v off h ne;
          valid = after-Invariant ks before W c s room v off cell h ne want;
          progress = after-Progress b capacity g ks before W room shaped c s v off cell h ne;
          copied =
              to_pair off h e (marked ks before W c s room v off cell h ne)
                (ap make_cons (sym (gone_to ks before W c s room v off cell h ne)));
        }
      ]

  -- What `t` points at is wanted.
  abbrev pub Wanted : Term → Type 0
  Wanted t = (i : ℕ) (k : Kind) → At ks 0 i k → Points t i k → W i k

  pub copy_term_lem :
      (c : ℕ) (s : State) (t : Term)
      → Invariant ks before W c s
      → Word ks t
      → Wanted t
      → Copying c s t
  copy_term_lem c s t v (inl (plain p)) want = returned c s t v (Sound-plain t p)
  copy_term_lem c s t v (inl (empty p)) want = returned c s t v (zero-plain t p)
  copy_term_lem c s t v (inl (boxed off n h e)) want =
      tuple_copied c s t off n v h (want off (tuple n) h e) e
  copy_term_lem c s t v (inl (pair off h e)) want = pair_copied c s t off v h (want off cell h e) e
  copy_term_lem c s t v (inr (n, e)) want = returned c s t v (hdr-plain t n e)

  -- What the loop over the roots gives.
  pub record RootsCopied (c : ℕ) (s : State) (ts : List Term) : Type 0 where
    pub roots : List Term
    pub state : State
    pub returns :
        copy_roots (heap_of b capacity g s) (old_of b) ts ≡ done (roots, heap_of b capacity g state)
    pub valid : Invariant ks before W c state
    pub progress : Progress ks s state
    pub copied : AllCopied ks state.old ts roots

  pub copy_roots_lem :
      (c : ℕ) (s : State) (ts : List Term)
      → Invariant ks before W c s
      → All (Sound ks) ts
      → All Wanted ts
      → RootsCopied c s ts
  unfolding copy_roots
  copy_roots_lem c s [] v sound want = record {
    roots = [];
    state = s;
    returns = refl;
    valid = v;
    progress = Progress-refl ks s;
    copied = tt;
  }
  copy_roots_lem c s (t ∷ ts) v sound want =
      let first = copy_term_lem c s t v (inl sound.0) want.0 in
      let rest = copy_roots_lem c first.state ts first.valid sound.1 want.1 in
      record {
        roots = first.word ∷ rest.roots;
        state = rest.state;
        returns = rw first.returns (rw rest.returns refl);
        valid = rest.valid;
        progress = Progress-trans ks s first.state rest.state first.progress rest.progress;
        copied = (
          Copied-Later ks first.state.old rest.state.old t first.word rest.progress.later
              first.copied,
          rest.copied,
        );
      }
