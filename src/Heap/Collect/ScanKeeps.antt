-- ===== src/Heap/Collect/ScanKeeps.antt =====
-- The scanning of one word by the collector of src/mb_heap.c (erts/example/mini_beam_esp32).
use os_ii.Prelude.{
  ℕ, ◌+◌, ◌≤◌, ◌<◌, ◌≡◌, sym, ◌∙◌, ap, arith, List, set, length-set, get_or-set_self, get_or-set_ne,
}
use mathlib.Core.Path.{subst}
use native.Mathlib.Decide.{dec_lt}
use os_ii.Term.{Term}
use os_ii.Heap.{heap_words}
use os_ii.Heap.Objects.{Kind, size, total, At, at}
use os_ii.Heap.Collect.State.{State}
use os_ii.Heap.Collect.Forward.{Moved, Copied}
use os_ii.Heap.Collect.Invariant.{Invariant}

module _ (ks : List Kind) (before : List Term) (W : ℕ → Kind → Type 0) (c : ℕ) (s : State)
    (room : total ks ≤ heap_words) (v : Invariant ks before W c s) (lt : c < s.hp) (w : Term)
    (copied : Copied ks s.old (at s.new c) w) where
  -- The state after the word at `c` has been replaced by `w`.
  abbrev pub scanned : State
  scanned = record s { new = set s.new c w }

  translated :
      (i : ℕ) (k : Kind)
      → At ks 0 i k
      → Moved s.old i
      → (x : ℕ) → x < size k
      → at s.old (i + 1) + x < c + 1
      → Copied ks s.old (at before (i + x)) (at scanned.new (at s.old (i + 1) + x))
  translated i k h m x inside low = elim (dec_lt (at s.old (i + 1) + x) c) [
    | yes p ↦
        subst (λ t. Copied ks s.old (at before (i + x)) t)
          (sym (get_or-set_ne s.new c (at s.old (i + 1) + x) w 0 (λ e. absurd (omega arith))))
          (v.translated i k h m x inside p)
    | no p ↦
        let here : c ≡ at s.old (i + 1) + x = omega arith in
        subst (λ t. Copied ks s.old (at before (i + x)) t)
          (sym (get_or-set_self s.new c w 0 (omega (arith, v.size_new, v.budget)))
            ∙ ap (at scanned.new) here)
          (subst (λ t. Copied ks s.old t w)
            (ap (at s.new) here ∙ v.verbatim i k h m x inside (omega arith)) copied)
  ]

  verbatim :
      (i : ℕ) (k : Kind)
      → At ks 0 i k
      → Moved s.old i
      → (x : ℕ) → x < size k
      → c + 1 ≤ at s.old (i + 1) + x
      → at scanned.new (at s.old (i + 1) + x) ≡ at before (i + x)
  verbatim i k h m x inside high =
      get_or-set_ne s.new c (at s.old (i + 1) + x) w 0 (λ e. absurd (omega arith))
      ∙ v.verbatim i k h m x inside (omega arith)

  pub scanned-Invariant : Invariant ks before W (c + 1) scanned
  scanned-Invariant = record {
    below = omega arith;
    size_new = length-set s.new c w ∙ v.size_new;
    size_old = v.size_old;
    budget = v.budget;
    filled = v.filled;
    intact = v.intact;
    placed = v.placed;
    translated = translated;
    verbatim = verbatim;
    origin = v.origin;
    wanted = v.wanted;
  }
