-- ===== src/Table/Fits.antt =====
-- The table of include/mb_scheduler.h (erts/example/mini_beam_esp32) is whole, and the heaps of its
-- processes fit their arrays; a write of such a process and a delivery leave it so.
use os_ii.Prelude.{ℕ, ◌≡◌, arith, length, length-set, set}
use os_ii.Command.{Command}
use os_ii.Heap.Fits.{Fits}
use os_ii.Process.{Process, max_processes}
use os_ii.Table.{Table, entry, entry-set, deliver}
use os_ii.Table.Delivery.{here, Delivered-set, Delivered-Untouched}

-- The heap of a process fits its arrays.
pub record HeapFits (p : Process) : Type 0 where
  pub heap : Fits p.heap

pub record FitTable (procs : Table) : Type 0 where
  pub size : length procs ≡ max_processes
  pub heaps : (j : ℕ) → HeapFits (entry procs j)

-- A delivery into a table changes no heap and no count.
pub deliver-kept :
    (procs : Table) (i j : ℕ) (cmd : Command)
    → let after = entry (set procs i (deliver (entry procs i) cmd).1) j in
      (after.heap ≡ (entry procs j).heap) × (after.reductions ≡ (entry procs j).reductions)
deliver-kept procs i j cmd =
    let u = Delivered-Untouched (Delivered-set procs i j cmd {p = entry procs j} here) in
    (u.heap, u.reductions)

pub deliver-FitTable :
    (procs : Table) (i : ℕ) (cmd : Command)
    → FitTable procs
    → FitTable (set procs i (deliver (entry procs i) cmd).1)
deliver-FitTable procs i cmd h = record {
  size = omega (arith, length-set procs i (deliver (entry procs i) cmd).1, h.size);
  heaps = λ j. record { heap = rw ((deliver-kept procs i j cmd).0) ((h.heaps j).heap) };
}

pub set-FitTable :
    (procs : Table) (i : ℕ) (p : Process) → HeapFits p → FitTable procs → FitTable (set procs i p)
set-FitTable procs i p f h = record {
  size = omega (arith, length-set procs i p, h.size);
  heaps = λ j. entry-set HeapFits procs j i p f (h.heaps j);
}
