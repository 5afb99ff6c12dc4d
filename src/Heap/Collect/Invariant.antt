-- ===== src/Heap/Collect/Invariant.antt =====
-- The invariant of the collector of src/mb_heap.c (erts/example/mini_beam_esp32).
use os_ii.Prelude.{ℕ, ◌+◌, ◌≤◌, ◌<◌, ◌≡◌, ◌≢◌, List, length}
use os_ii.Term.{Term, moved_marker}
use os_ii.Heap.{heap_words}
use os_ii.Heap.Objects.{Kind, size, total, At, at}
use os_ii.Heap.Collect.State.{State}
use os_ii.Heap.Collect.Forward.{Moved, Copied, pending}

-- The words of the new space below `scanned` are final. `before` are the words of the old space as
-- they were when the collection started, with the objects `ks`. `W` holds of the objects that are copied.
pub record Invariant (ks : List Kind) (before : List Term) (W : ℕ → Kind → Type 0) (scanned : ℕ)
    (s : State) : Type 0 where
  pub below : scanned ≤ s.hp
  pub size_new : length s.new ≡ heap_words
  pub size_old : length s.old ≡ heap_words
  pub budget : s.hp + pending ks 0 s.old ≡ total ks
  pub filled : total s.layout ≡ s.hp
  pub intact :
      (i : ℕ) (k : Kind)
      → At ks 0 i k
      → at s.old i ≢ moved_marker
      → (x : ℕ) → x < size k
      → at s.old (i + x) ≡ at before (i + x)
  pub placed : (i : ℕ) (k : Kind) → At ks 0 i k → Moved s.old i → At s.layout 0 (at s.old (i + 1)) k
  pub translated :
      (i : ℕ) (k : Kind)
      → At ks 0 i k
      → Moved s.old i
      → (x : ℕ) → x < size k
      → at s.old (i + 1) + x < scanned
      → Copied ks s.old (at before (i + x)) (at s.new (at s.old (i + 1) + x))
  pub verbatim :
      (i : ℕ) (k : Kind)
      → At ks 0 i k
      → Moved s.old i
      → (x : ℕ) → x < size k
      → scanned ≤ at s.old (i + 1) + x
      → at s.new (at s.old (i + 1) + x) ≡ at before (i + x)
  pub origin :
      (n : ℕ) (k : Kind)
      → At s.layout 0 n k
      → (i : ℕ) × At ks 0 i k × Moved s.old i × (at s.old (i + 1) ≡ n)
  pub wanted : (i : ℕ) (k : Kind) → At ks 0 i k → Moved s.old i → W i k
