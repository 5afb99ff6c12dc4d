-- ===== src/Vm/Ends.antt =====
-- The loop of `mb_proc_run` of src/mb_vm.c (erts/example/mini_beam_esp32) ends: every round counts one
-- instruction, a `YIELD` counts all of them, and the collector's scan moves on in every round.
use os_ii.Prelude.{
  ℕ, zero, suc, ◌+◌, ◌≤◌, ◌<◌, ◌≡◌, arith, ltb, ltb→lt, Bool-cases, inl, inr, not, ◌&&◌, Bool, true,
  false, set, get_or-set_self, List,
}
use os_ii.Status.{Status, ok}
use os_ii.Run.{Run, done, Gives}
use os_ii.Term.{Term}
use os_ii.Command.{Command}
use os_ii.Heap.{Heap}
use os_ii.Heap.Gc.{gc}
use os_ii.Heap.Fits.{Fits, FitWith, make_tuple-FitWith, cons-FitWith}
use os_ii.Heap.Fits.Collect.{gc-FitWith}
use os_ii.Hal.{Hal}
use os_ii.Process.{Process, max_reductions, max_processes, zero_process}
use os_ii.Table.{Table, entry, deliver}
use os_ii.Table.Fits.{HeapFits, FitTable, deliver-kept, deliver-FitTable, set-FitTable}
use os_ii.Machine.{Machine, Caller, alone, in_table}
use os_ii.Vm.{proc_step, run_loop, proc_run}
use os_ii.Vm.Keeps.Local.{Local, Local-Rules, Both}
use os_ii.Vm.Keeps.Runs.{
  AfterRun, proc_step-AfterRun, round-AfterRun, elim-AfterRun, proc_run-AfterRun,
}

-- The heap fits its arrays, and the process has counted at least `r` instructions.
record Counted (r : ℕ) (p : Process) : Type 0 where
  heap : Fits p.heap
  count : r ≤ p.reductions

-- The running process has an entry in the table.
abbrev pub FitCaller : Caller → Type 0
FitCaller alone = Unit
FitCaller (in_table slot procs) = FitTable procs × (slot < max_processes)

heap-Counted :
    {r : ℕ} {A : Type 0} (T : Type 0) (p : Process) (regs : A → List Term) (x : Run (A × Heap))
    → Counted r p
    → FitWith x
    → Gives T (λ y. Counted r (record p { regs = regs y.0; heap = y.1 })) x
heap-Counted T p regs (done (a, h)) i f = record { heap = f; count = i.count }
heap-Counted T p regs Run.fault i f = tt
heap-Counted T p regs Run.out_of_fuel i f = absurd f

send-Counted :
    (r slot : ℕ) (procs : Table) (p : Process) (i : ℕ) (cmd : Command)
    → Counted r p
    → FitCaller (in_table slot procs)
    → let live = set procs slot p in
      let live' = set live i (deliver (entry live i) cmd).1 in
      Counted r (entry live' slot) × FitCaller (in_table slot live')
send-Counted r slot procs p i cmd c (h, inside) =
    let live = set procs slot p in
    let own : entry live slot ≡ p =
      get_or-set_self procs slot p zero_process (omega (arith, h.size)) in
    (
      record {
        heap = rw ((deliver-kept live i slot cmd).0, own) (c.heap);
        count = rw ((deliver-kept live i slot cmd).1, own) (c.count);
      },
      (
        deliver-FitTable live i cmd (set-FitTable procs slot p (record { heap = c.heap }) h),
        inside,
      ),
    )

Counted-Local : (T : Type 0) (r : ℕ) → r ≤ max_reductions → Local T (Counted r) FitCaller
Counted-Local T r le = record {
  on_error = λ p s i. record { heap = i.heap; count = i.count };
  on_pc = λ p pc i. record { heap = i.heap; count = i.count };
  on_regs = λ p regs i. record { heap = i.heap; count = i.count };
  on_yield = λ p i. record { heap = i.heap; count = le };
  on_halt = λ p i. record { heap = i.heap; count = i.count };
  on_sleep = λ p until i. record { heap = i.heap; count = i.count };
  on_pop = λ p i. record { heap = i.heap; count = i.count };
  on_block = λ p pc i e. record { heap = i.heap; count = i.count };
  on_collect =
      λ p i. heap-Counted T p (λ regs. regs) (gc p.heap p.regs) i (gc-FitWith p.heap p.regs i.heap);
  on_make_tuple =
      λ p elems i. heap-Counted T p (λ t. p.regs) _ i (make_tuple-FitWith p.heap elems i.heap);
  on_cons =
      λ p head tail i. heap-Counted T p (λ t. p.regs) _ i (cons-FitWith p.heap head tail i.heap);
  on_send = send-Counted r;
}

abbrev pub Fit : {W : Type 0} → Machine W → Type 0
Fit = Both HeapFits FitCaller

stopped :
    {W : Type 0} (a b : Bool) (x y : Run (Status × Machine W))
    → b ≡ false
    → AfterRun ⊥ Fit x
    → AfterRun ⊥ Fit (elim (a && b) [ false ↦ x | true ↦ y ])
stopped a true x y e h = cc
stopped true false x y e h = h
stopped false false x y e h = h

module _ {W : Type 0} (hal : Hal W) where
  run_loop-Ends :
      (fuel max_steps : ℕ) (m : Machine W)
      → max_steps ≤ max_reductions
      → Fit m
      → 0 < fuel
      → max_steps < fuel + m.proc.reductions
      → AfterRun ⊥ Fit (run_loop hal fuel max_steps m)
  unfolding run_loop
  run_loop-Ends zero max_steps m le f pos enough = absurd (omega arith)
  run_loop-Ends (suc fuel) max_steps m le f pos enough =
      elim (Bool-cases (ltb m.proc.reductions max_steps)) [
        | inl more ↦
            let r = m.proc.reductions in
            let lt : r < max_steps = ltb→lt r max_steps more in
            let rules = Local-Rules ⊥ (Counted r) FitCaller (Counted-Local ⊥ r (omega arith)) hal in
            elim-AfterRun ⊥ Fit (not m.proc.is_halted && ltb r max_steps) (done (ok, m)) _ f (
              round-AfterRun hal ⊥ (Both (Counted r) FitCaller) rules Fit (proc_step hal m) _
                (λ m' c. (record { heap = c.0.heap }, c.1))
                (proc_step-AfterRun hal ⊥ (Both (Counted r) FitCaller) rules m
                  (record { heap = f.0.heap; count = omega arith }, f.1))
                (λ m' c.
                  let count = c.0.count in
                  run_loop-Ends fuel max_steps
                    (record m' { proc = record (m'.proc) { reductions = m'.proc.reductions + 1 } })
                    le (record { heap = c.0.heap }, c.1) (omega arith) (omega arith)))
        | inr stop ↦ stopped (not m.proc.is_halted) _ _ _ stop f
      ]

  -- Enough fuel for `max_steps` instructions, which `MB_MAX_REDUCTIONS` bounds, is enough.
  pub proc_run-Ends :
      (fuel max_steps : ℕ) (m : Machine W)
      → max_steps ≤ max_reductions
      → max_steps < fuel
      → Fit m
      → AfterRun ⊥ Fit (proc_run hal fuel max_steps m)
  unfolding proc_run
  proc_run-Ends fuel max_steps m le enough f =
      run_loop-Ends fuel max_steps _ le (record { heap = f.0.heap }, f.1) (omega arith)
        (omega arith)

  -- With any fuel, what a run leaves fits.
  pub proc_run-Fit :
      (fuel max_steps : ℕ) (m : Machine W)
      → Fit m
      → AfterRun (Unit {0}) Fit (proc_run hal fuel max_steps m)
  proc_run-Fit fuel max_steps m f = weaken (proc_run hal fuel max_steps m) (
      proc_run-AfterRun hal (Both (Counted 0) FitCaller)
        (Local-Rules (Unit {0}) (Counted 0) FitCaller (Counted-Local (Unit {0}) 0 (omega arith))
          hal)
        (λ n m' c. (record { heap = c.0.heap; count = omega arith }, c.1)) fuel max_steps m
        (record { heap = f.0.heap; count = omega arith }, f.1))
    where
      weaken :
          (r : Run (Status × Machine W))
          → AfterRun (Unit {0}) (Both (Counted 0) FitCaller) r
          → AfterRun (Unit {0}) Fit r
      weaken (done (rc, m')) c = (record { heap = c.0.heap }, c.1)
      weaken Run.fault c = tt
      weaken Run.out_of_fuel c = tt
