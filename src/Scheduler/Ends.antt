-- ===== src/Scheduler/Ends.antt =====
-- `mb_sched_tick` of src/mb_scheduler.c (erts/example/mini_beam_esp32) ends.
use os_ii.Prelude.{
  ℕ, zero, suc, ◌+◌, ◌%◌, ◌<◌, ◌≡◌, ◌≢◌, refl, arith, List, [], ◌∷◌, length, length-replicate, set,
  map, replicate, Option, none, some,
}
use os_ii.Status.{Status, sched_idle, bad_pid}
use os_ii.Run.{Run, done, Gives, Gives->>=}
use os_ii.Command.{Command}
use os_ii.Hal.{Hal}
use os_ii.Process.{
  Process, zero_process, max_processes, max_reductions, pid_none, init as proc_init,
}
use os_ii.Table.{Table, entry, sched_proc, deliver}
use os_ii.Machine.{Machine, Caller, alone, in_table}
use os_ii.Vm.{proc_run}
use os_ii.Vm.Keeps.Runs.{AfterRun}
use os_ii.Table.Fits.{HeapFits, FitTable, set-FitTable, deliver-FitTable}
use os_ii.Vm.Ends.{FitCaller, Fit, proc_run-Ends, proc_run-Fit}
use os_ii.Scheduler.{
  Scheduler, init, first_free, spawn, send, wake, wake_sleepers, next_ready, table_after,
  write_back, run_picked, tick,
}
use os_ii.Scheduler.Reach.{Reached, started, spawned, sent, ticked}

zero_process-HeapFits : HeapFits zero_process
zero_process-HeapFits = record {
  heap = record { words_a = omega arith; words_b = omega arith; within = omega arith };
}

proc_init-HeapFits : (pid : ℕ) (program : List ℕ) → HeapFits (proc_init pid program)
unfolding proc_init
proc_init-HeapFits pid program = record {
  heap = record { words_a = omega arith; words_b = omega arith; within = omega arith };
}

entry-HeapFits : (n i : ℕ) → HeapFits (entry (replicate n zero_process) i)
entry-HeapFits zero i = zero_process-HeapFits
entry-HeapFits (suc n) zero = zero_process-HeapFits
entry-HeapFits (suc n) (suc i) = entry-HeapFits n i

pub init-FitTable : FitTable init.procs
unfolding init
init-FitTable = record {
  size = length-replicate max_processes zero_process;
  heaps = entry-HeapFits max_processes;
}

pub spawn-FitTable :
    (sched : Scheduler) (program : List ℕ)
    → FitTable sched.procs
    → FitTable (spawn sched program).1.procs
unfolding spawn
spawn-FitTable sched program h = found (first_free max_processes sched.procs 0)
  where
    found :
        (o : Option ℕ)
        → FitTable
            (elim o as (λ _. ℕ × Scheduler) [
              | none ↦ (pid_none, sched)
              | some i ↦ (
                i + 1,
                record sched {
                  procs = set sched.procs i (proc_init (i + 1) program);
                  count = (sched.count + 1) % 256;
                },
              )
            ]).1.procs
    found none = h
    found (some i) = set-FitTable sched.procs i _ (proc_init-HeapFits (i + 1) program) h

send-FitTable :
    (sched : Scheduler) (dst : ℕ) (cmd : Command)
    → FitTable sched.procs
    → FitTable (send sched dst cmd).1.procs
unfolding send
send-FitTable sched dst cmd h = found (sched_proc sched.procs dst)
  where
    found :
        (o : Option ℕ)
        → FitTable
            (elim o as (λ _. Status × Scheduler) [
              | none ↦ (bad_pid, sched)
              | some i ↦
                  let (rc, target) = deliver (entry sched.procs i) cmd in
                  (rc, record sched { procs = set sched.procs i target })
            ]).1.procs
    found none = h
    found (some i) = deliver-FitTable sched.procs i cmd h

wake-HeapFits : (now : ℕ) (p : Process) → HeapFits p → HeapFits (wake now p)
unfolding wake
wake-HeapFits now p f = ground arith

map-HeapFits :
    (now : ℕ) (procs : Table) (i : ℕ)
    → HeapFits (entry procs i)
    → HeapFits (entry (map (wake now) procs) i)
map-HeapFits now [] i h = h
map-HeapFits now (p ∷ ps) zero h = wake-HeapFits now p h
map-HeapFits now (p ∷ ps) (suc i) h = map-HeapFits now ps i h

length-map-wake : (now : ℕ) (procs : Table) → length (map (wake now) procs) ≡ length procs
length-map-wake now [] = refl
length-map-wake now (p ∷ ps) = omega (arith, length-map-wake now ps)

pub wake_sleepers-FitTable :
    (now : ℕ) (sched : Scheduler) → FitTable sched.procs → FitTable (wake_sleepers now sched).procs
unfolding wake_sleepers
wake_sleepers-FitTable now sched h = record {
  size = omega (arith, length-map-wake now sched.procs, h.size);
  heaps = λ i. map-HeapFits now sched.procs i (h.heaps i);
}

-- What `mb_sched_tick` picks is inside the table.
abbrev Inside : Option ℕ → Type 0
Inside none = Unit
Inside (some idx) = idx < max_processes

next_ready-Inside : (n : ℕ) (procs : Table) (start i : ℕ) → Inside (next_ready n procs start i)
unfolding next_ready
next_ready-Inside zero procs start i = tt
next_ready-Inside (suc n) procs start i = ground (arith, next_ready-Inside n procs start (i + 1))

write_back-FitTable :
    {W : Type 0} (sched : Scheduler) (idx : ℕ) (r : Status × Machine W)
    → FitTable sched.procs
    → Fit r.1
    → FitTable (write_back sched idx r).1.procs
unfolding write_back
write_back-FitTable sched idx (rc, m) h f = left m.caller f.1
  where
    left : (c : Caller) → FitCaller c → FitTable (set (table_after c sched.procs) idx m.proc)
    left alone q = set-FitTable sched.procs idx m.proc f.0 h
    left (in_table slot procs) q = set-FitTable procs idx m.proc f.0 q.0

-- `T` where the rounds ran out, and a whole table where the run returned.
abbrev Leaves : {W : Type 0} → Type 0 → Run (Status × Scheduler × W) → Type 0
Leaves T = Gives T (λ x. FitTable x.1.procs)

module _ {W : Type 0} (hal : Hal W) (T : Type 0) (fuel : ℕ)
    (runs : (m : Machine W) → Fit m → AfterRun T Fit (proc_run hal fuel max_reductions m)) where
  run_picked-Leaves :
      (sched : Scheduler) (world : W) (idx : ℕ)
      → FitTable sched.procs
      → idx < max_processes
      → Leaves T (run_picked hal fuel sched world idx)
  unfolding run_picked
  run_picked-Leaves sched world idx h inside =
      Gives->>= T _ _ (proc_run hal fuel max_reductions _) _ (runs _ (h.heaps idx, (h, inside)))
        (λ r f. write_back-FitTable sched idx r h f)

  pub tick-Leaves :
      (sched : Scheduler) (world : W) → FitTable sched.procs → Leaves T (tick hal fuel sched world)
  unfolding tick
  tick-Leaves sched world h =
      picked (next_ready max_processes woken.procs woken.current 0)
        (next_ready-Inside max_processes woken.procs woken.current 0)
    where
      woken : Scheduler
      woken = wake_sleepers (hal.monotonic_ms world).0 sched

      picked :
          (o : Option ℕ)
          → Inside o
          → Leaves T (elim o [
            | none ↦ done (sched_idle, woken, (hal.monotonic_ms world).1)
            | some idx ↦ run_picked hal fuel woken (hal.monotonic_ms world).1 idx
          ])
      picked none inside = wake_sleepers-FitTable (hal.monotonic_ms world).0 sched h
      picked (some idx) inside =
          run_picked-Leaves woken (hal.monotonic_ms world).1 idx
            (wake_sleepers-FitTable (hal.monotonic_ms world).0 sched h) inside

module _ {W : Type 0} (hal : Hal W) where
  pub Reached-FitTable : {sched : Scheduler} → Reached hal sched → FitTable sched.procs
  Reached-FitTable started = init-FitTable
  Reached-FitTable (spawned {sched} program r) = spawn-FitTable sched program (Reached-FitTable r)
  Reached-FitTable (sent {sched} dst cmd r) = send-FitTable sched dst cmd (Reached-FitTable r)
  Reached-FitTable (ticked {sched} fuel world world' rc r e) = rw e at (
      tick-Leaves hal (Unit {0}) fuel (proc_run-Fit hal fuel max_reductions) sched world
        (Reached-FitTable r))

  -- `mb_sched_tick` ends: in every scheduler that the calls reach, on any programs and hardware, the
  -- rounds of a tick do not run out where it is given more than 64 of them, the rounds of the
  -- collector included.
  pub Reached-tick :
      {sched : Scheduler} (fuel : ℕ) (world : W)
      → Reached hal sched
      → max_reductions < fuel
      → tick hal fuel sched world ≢ Run.out_of_fuel
  Reached-tick {sched} fuel world r enough e = rw e at (
      tick-Leaves hal ⊥ fuel (λ m f. proc_run-Ends hal fuel max_reductions m (omega arith) enough f)
        sched world (Reached-FitTable r))
