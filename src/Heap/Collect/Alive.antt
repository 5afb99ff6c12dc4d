-- ===== src/Heap/Collect/Alive.antt =====
-- The objects that survive the collector of src/mb_heap.c (erts/example/mini_beam_esp32) are those
-- that can be reached from the roots.
use os_ii.Prelude.{ℕ, ◌+◌, ◌≤◌, ◌≡◌, inl, inr, refl, sym, ◌∙◌, ap, arith, List, [], ◌∷◌}
use mathlib.Core.Path.{subst}
use os_ii.Term.{Term, make_boxed, make_cons, get_boxed, get_cons, is_boxed, is_cons}
use os_ii.Term.Bounds.{pointer_round_trip}
use os_ii.Heap.{heap_words}
use os_ii.Heap.Objects.{
  Kind, tuple, cell, total, At, At-inside, at, In, Points, Live, root, element, Shaped,
}
use os_ii.Heap.Collect.State.{State}
use os_ii.Heap.Collect.Forward.{Moved, Copied, kept, to_tuple, to_pair, AllCopied}
use os_ii.Heap.Collect.Invariant.{Invariant}
use os_ii.Heap.Collect.Final.{word-Copied}

-- The copy of a pointer points at the copy.
Copied-Points :
    (ks : List Kind) (old : List Term) (t t' : Term) (i : ℕ) (k : Kind)
    → total ks ≤ heap_words
    → Copied ks old t t'
    → At ks 0 i k
    → Points t i k
    → Moved old i × Points t' (at old (i + 1)) k
Copied-Points ks old t t' i (tuple n) room (kept nb nc e) h p =
    let trip = pointer_round_trip i (omega (arith, At-inside ks 0 i (tuple n) h)) in
    cc (sym nb ∙ ap is_boxed p ∙ trip.1)
Copied-Points ks old t t' i (tuple n) room (to_tuple off n' h' e m e') h p =
    let trip = pointer_round_trip i (omega (arith, At-inside ks 0 i (tuple n) h)) in
    let trip' = pointer_round_trip off (omega (arith, At-inside ks 0 off (tuple n') h')) in
    let same : off ≡ i = sym trip'.0 ∙ ap get_boxed (sym e ∙ p) ∙ trip.0 in
    (subst (Moved old) same m, e' ∙ ap (λ j. make_boxed (at old (j + 1))) same)
Copied-Points ks old t t' i (tuple n) room (to_pair off h' e m e') h p =
    let trip = pointer_round_trip i (omega (arith, At-inside ks 0 i (tuple n) h)) in
    let trip' = pointer_round_trip off (omega (arith, At-inside ks 0 off cell h')) in
    cc (sym trip.2 ∙ ap is_cons (sym p ∙ e) ∙ trip'.5)
Copied-Points ks old t t' i cell room (kept nb nc e) h p =
    let trip = pointer_round_trip i (omega (arith, At-inside ks 0 i cell h)) in
    cc (sym nc ∙ ap is_cons p ∙ trip.5)
Copied-Points ks old t t' i cell room (to_pair off h' e m e') h p =
    let trip = pointer_round_trip i (omega (arith, At-inside ks 0 i cell h)) in
    let trip' = pointer_round_trip off (omega (arith, At-inside ks 0 off cell h')) in
    let same : off ≡ i = sym trip'.4 ∙ ap get_cons (sym e ∙ p) ∙ trip.4 in
    (subst (Moved old) same m, e' ∙ ap (λ j. make_cons (at old (j + 1))) same)
Copied-Points ks old t t' i cell room (to_tuple off n h' e m e') h p =
    let trip = pointer_round_trip i (omega (arith, At-inside ks 0 i cell h)) in
    let trip' = pointer_round_trip off (omega (arith, At-inside ks 0 off (tuple n) h')) in
    cc (sym trip'.2 ∙ ap is_cons (sym e ∙ p) ∙ trip.5)

In-Copied :
    (ks : List Kind) (old : List Term) (t : Term) (ts ts' : List Term)
    → AllCopied ks old ts ts'
    → In t ts
    → (t' : Term) × In t' ts' × Copied ks old t t'
In-Copied ks old t [] ts' c m = absurd m
In-Copied ks old t (u ∷ us) [] c m = absurd c
In-Copied ks old t (u ∷ us) (u' ∷ us') c (inl e) =
    (u', inl refl, subst (λ w. Copied ks old w u') (sym e) c.0)
In-Copied ks old t (u ∷ us) (u' ∷ us') c (inr m) =
    let (t', m', c') = In-Copied ks old t us us' c.1 m in (t', inr m', c')

module _ (ks : List Kind) (before ts ts' : List Term) (s : State) (room : total ks ≤ heap_words)
    (shaped : (off : ℕ) (k : Kind) → At ks 0 off k → Shaped ks before off k)
    (v : Invariant ks before (Live ks before ts) s.hp s) (c : AllCopied ks s.old ts ts') where
  -- What could be reached has been copied, and its copy can be reached.
  Live-Moved :
      {i : ℕ} {k : Kind}
      → Live ks before ts i k
      → At ks 0 i k × Moved s.old i × Live s.layout s.new ts' (at s.old (i + 1)) k
  Live-Moved (root t i k m h p) =
      let (t', m', c') = In-Copied ks s.old t ts ts' c m in
      let (moved, p') = Copied-Points ks s.old t t' i k room c' h p in
      (h, moved, root t' (at s.old (i + 1)) k m' (v.placed i k h moved) p')
  Live-Moved (element i j x k l live h lt g p) =
      let (_, moved, live') = Live-Moved live in
      let c' = word-Copied ks before (Live ks before ts) s room shaped v i k h moved x lt in
      let (moved', p') = Copied-Points ks s.old _ _ j l room c' g p in
      (
        g,
        moved',
        element (at s.old (i + 1)) (at s.old (j + 1)) x k l live' (v.placed i k h moved) lt
            (v.placed j l g moved') p',
      )

  pub all-Live : (n : ℕ) (k : Kind) → At s.layout 0 n k → Live s.layout s.new ts' n k
  all-Live n k h =
      let (i, h', m, e) = v.origin n k h in
      subst (λ j. Live s.layout s.new ts' j k) e (Live-Moved (v.wanted i k h' m)).2
