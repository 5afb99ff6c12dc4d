-- ===== src/Heap/Collect/Loop.antt =====
-- The rounds of the scan loop of src/mb_heap.c (erts/example/mini_beam_esp32).
use os_ii.Prelude.{
  ℕ, zero, suc, ◌+◌, ◌≤◌, ◌<◌, ◌≡◌, inl, inr, refl, ◌∙◌, arith, Bool, Bool-cases, ltb, ltb→lt, List,
}
use mathlib.Core.Path.{subst}
use os_ii.Run.{Run, ◌>>=◌}
use os_ii.Term.{Term, is_tuple_hdr, get_tuple_arity}
use os_ii.Heap.{heap_words, read}
use os_ii.Heap.Gc.{scan_loop}
use os_ii.Heap.Objects.{Kind, total, At, at, Shaped, Points, size}
use os_ii.Heap.Collect.State.{State, heap_of, old_of}
use os_ii.Heap.Collect.Moves.{read_new}
use os_ii.Heap.Collect.Forward.{Later-trans}
use os_ii.Heap.Collect.Invariant.{Invariant}
use os_ii.Heap.Collect.Scan.{Scans, header_lem, ahead, scan_word_lem, scan_words_lem, skip}

module _ (b : Bool) (capacity g : ℕ) (ks : List Kind) (before : List Term) (W : ℕ → Kind → Type 0)
    (room : total ks ≤ heap_words)
    (shaped : (off : ℕ) (k : Kind) → At ks 0 off k → Shaped ks before off k)
    (closed : (i : ℕ) (k : Kind)
      → At ks 0 i k
      → W i k
      → (x : ℕ) → x < size k
      → (j : ℕ) (l : Kind) → At ks 0 j l
      → Points (at before (i + x)) j l
      → W j l) where
  abbrev Looping : ℕ → ℕ → State → Type 0
  Looping fuel c s =
      Scans b capacity g ks before W room shaped closed s
        (scan_loop fuel (heap_of b capacity g s) (old_of b) c) (λ s'. s'.hp)

  -- One round, and then the others.
  then_loop :
      (s : State) (r : Run os_ii.Heap.Heap) (c fuel : ℕ)
      → (first : Scans b capacity g ks before W room shaped closed s r (λ _. c))
      → Looping fuel c first.state
      → Scans b capacity g ks before W room shaped closed s
          (r >>= λ h. scan_loop fuel h (old_of b) c)
          (λ s'. s'.hp)
  then_loop s r c fuel first rest = record {
    state = rest.state;
    returns = rw first.returns rest.returns;
    valid = rest.valid;
    later = Later-trans ks s.old first.state.old rest.state.old first.later rest.later;
    grows = omega (arith, first.grows, rest.grows);
  }

  same_run :
      (s : State) (r r' : Run os_ii.Heap.Heap) (c : State → ℕ)
      → r' ≡ r
      → Scans b capacity g ks before W room shaped closed s r c
      → Scans b capacity g ks before W room shaped closed s r' c
  same_run s r r' c e x = record {
    state = x.state;
    returns = e ∙ x.returns;
    valid = x.valid;
    later = x.later;
    grows = x.grows;
  }

  -- The fuel is enough: no more than the words of the space are scanned.
  pub scan_loop_lem :
      (fuel c : ℕ) (s : State)
      → Invariant ks before W c s
      → heap_words < fuel + c
      → Looping fuel c s
  unfolding scan_loop
  scan_loop_lem zero c s v enough = absurd (omega (arith, v.below, v.budget))
  scan_loop_lem (suc fuel) c s v enough = elim (Bool-cases (ltb c s.hp)) [
    | inr ended ↦
        let at_end : c ≡ s.hp = ground (arith, v.below) in
        record {
          state = s;
          returns = rw (ended, scan_loop) refl;
          valid = subst (λ n. Invariant ks before W n s) at_end v;
          later = λ i k h m. (m, refl);
          grows = omega arith;
        }
    | inl going ↦
        let lt = ltb→lt c s.hp going in
        let w = at s.new c in
        let read_it = read_new b capacity g s c (omega (arith, v.size_new, v.budget)) in
        elim (Bool-cases (is_tuple_hdr w)) [
          | inl header ↦
              let (nb, nc, inside) =
                header_lem ks s.hp c w room lt
                  (ahead b capacity g ks before W room shaped closed c c s v (omega arith) lt)
                  header in
              let first =
                scan_words_lem b capacity g ks before W room shaped closed (get_tuple_arity w)
                  (c + 1) s (skip b capacity g ks before W room shaped closed c s v lt nb nc)
                  inside in
              let whole = then_loop s _ (c + 1 + get_tuple_arity w) fuel first (
                scan_loop_lem fuel (c + 1 + get_tuple_arity w) first.state first.valid
                  (omega arith)) in
              same_run s _ _ _ (rw (going, scan_loop) (rw read_it (rw (header, ◌>>=◌) refl))) whole
          | inr other ↦
              let first = scan_word_lem b capacity g ks before W room shaped closed c s v lt in
              let whole =
                then_loop s _ (c + 1) fuel first
                  (scan_loop_lem fuel (c + 1) first.state first.valid (omega arith)) in
              same_run s _ _ _ (rw (going, scan_loop) (rw read_it (rw (other, ◌>>=◌) refl))) whole
        ]
  ]
