-- ===== src/Scheduler/Safe/Ticks.antt =====
-- `mb_sched_tick` of src/mb_scheduler.c (erts/example/mini_beam_esp32) on safe processes: it returns.
use os_ii.Prelude.{
  ℕ, zero, suc, ◌+◌, ◌%◌, ◌<◌, ◌≡◌, arith, Bool-cases, false, inl, inr, List, length, Option, none,
  some,
}
use os_ii.Status.{Status, sched_idle}
use os_ii.Run
use os_ii.Run.{Run, done, Secure, Secure-Gives, Secure-Returns, Gives-ends}
use os_ii.Hal.{Hal}
use os_ii.Process.{max_processes, max_reductions}
use os_ii.Table.{Table, entry, entry-set, is_free, is_ready}
use os_ii.Table.Fits.{FitTable}
use os_ii.Machine.{Machine, Caller, alone, in_table}
use os_ii.Vm.{proc_run}
use os_ii.Vm.Safe.{SafeEntry, SafeTable, SafeMachine, SafeCaller}
use os_ii.Vm.Safe.Tupleless.{NoTuples, IsSafe, safe_laws, safe_mails}
use os_ii.Vm.Safe.Runs.{SecureRun}
use os_ii.Vm.Safe.Steps.{proc_run-Secure}
use os_ii.Scheduler.{
  Scheduler, wake_sleepers, next_ready, table_after, write_back, run_picked, tick,
}
use os_ii.Scheduler.Reach.{Reached, started, spawned, sent, ticked}
use os_ii.Scheduler.Ends.{Reached-FitTable, wake_sleepers-FitTable, tick-Leaves, Reached-tick}
use os_ii.Vm.Ends.{proc_run-Fit}
use os_ii.Scheduler.Safe.{
  ready-Taken, init-SafeTable, spawn-SafeTable, send-SafeTable, wake_sleepers-SafeTable,
}

-- What `mb_sched_tick` picks is inside the table and not free.
abbrev Picked : Table → Option ℕ → Type 0
Picked procs none = Unit
Picked procs (some idx) = (idx < max_processes) × (is_free (entry procs idx).state ≡ false)

next_ready-Picked :
    (n : ℕ) (procs : Table) (start i : ℕ) → Picked procs (next_ready n procs start i)
unfolding next_ready
next_ready-Picked zero procs start i = tt
next_ready-Picked (suc n) procs start i =
    let idx = (start + i) % max_processes in
    elim (Bool-cases (is_ready (entry procs idx).state)) [
      | inl e ↦ rw e (omega arith, ready-Taken _ e)
      | inr e ↦ rw e (next_ready-Picked n procs start (i + 1))
    ]

-- A whole table of safe entries.
abbrev pub SafeSched : Scheduler → Type 0
SafeSched sched = FitTable sched.procs × SafeTable IsSafe sched.procs

abbrev pub SecureTick : {W : Type 0} → Run (Status × Scheduler × W) → Type 0
SecureTick = Secure (Unit {0}) (λ x. SafeTable IsSafe x.1.procs)

module _ {W : Type 0} where
  write_back-SafeTable :
      (sched : Scheduler) (idx : ℕ) (r : Status × Machine W)
      → SafeTable IsSafe sched.procs
      → SafeMachine IsSafe r.1
      → SafeTable IsSafe (write_back sched idx r).1.procs
  unfolding write_back
  write_back-SafeTable sched idx (rc, m) h s j =
      entry-set (SafeEntry IsSafe) (table_after m.caller sched.procs) j idx m.proc
        (s.0.mail, λ _. s.0) (left m.caller s.1 j)
    where
      left : (c : Caller) → SafeCaller IsSafe c → SafeTable IsSafe (table_after c sched.procs)
      left alone q = h
      left (in_table slot procs) q = q.1

  written :
      (sched : Scheduler) (idx : ℕ) (r : Run (Status × Machine W))
      → SafeTable IsSafe sched.procs
      → SecureRun IsSafe (Unit {0}) r
      → SecureTick (Run.◌>>=◌ r λ x. done (write_back sched idx x))
  written sched idx (done x) h s = write_back-SafeTable sched idx x h s
  written sched idx Run.fault h s = s
  written sched idx Run.out_of_fuel h s = s

module _ {W : Type 0} (hal : Hal W) where
  tick-Secure :
      (fuel : ℕ) (sched : Scheduler) (world : W)
      → FitTable sched.procs
      → SafeTable IsSafe sched.procs
      → SecureTick (tick hal fuel sched world)
  unfolding tick run_picked
  tick-Secure fuel sched world fit h =
      picked (next_ready max_processes woken.procs woken.current 0)
        (next_ready-Picked max_processes woken.procs woken.current 0)
    where
      now : ℕ
      now = (hal.monotonic_ms world).0

      woken : Scheduler
      woken = wake_sleepers now sched

      safe : SafeTable IsSafe woken.procs
      safe = wake_sleepers-SafeTable now sched h

      picked :
          (o : Option ℕ)
          → Picked woken.procs o
          → SecureTick (elim o [
            | none ↦ done (sched_idle, woken, (hal.monotonic_ms world).1)
            | some idx ↦ run_picked hal fuel woken (hal.monotonic_ms world).1 idx
          ])
      picked none p = safe
      picked (some idx) (lt, taken) =
          let within : idx < length woken.procs =
            omega (arith, (wake_sleepers-FitTable now sched fit).size) in
          written woken idx (proc_run hal fuel max_reductions _) safe
            (proc_run-Secure hal fuel max_reductions _ ((safe idx).1 taken, (within, safe)))

  -- A tick of safe processes does not fault, and leaves them safe.
  pub tick-SafeSched :
      (fuel : ℕ) (sched : Scheduler) (world : W)
      → SafeSched sched
      → Secure (Unit {0}) (λ x. SafeSched x.1) (tick hal fuel sched world)
  tick-SafeSched fuel sched world (fit, safe) = swap _ (
      Secure-Gives Unit Unit (λ x. SafeTable IsSafe x.1.procs) (λ x. FitTable x.1.procs)
        (tick hal fuel sched world) (tick-Secure fuel sched world fit safe)
        (tick-Leaves hal Unit fuel (proc_run-Fit hal fuel max_reductions) sched world fit))
    where
      swap :
          (r : Run (Status × Scheduler × W))
          → Secure (Unit {0}) (λ x. SafeTable IsSafe x.1.procs × FitTable x.1.procs) r
          → Secure (Unit {0}) (λ x. SafeSched x.1) r
      swap (done x) h = (h.1, h.0)
      swap Run.fault h = h
      swap Run.out_of_fuel h = h

  -- The programs that have been spawned.
  abbrev pub Spawned : (List ℕ → Type 0) → {sched : Scheduler} → Reached hal sched → Type 0
  Spawned P started = Unit
  Spawned P (spawned program r) = P program × Spawned P r
  Spawned P (sent dst cmd r) = Spawned P r
  Spawned P (ticked fuel world world' rc r e) = Spawned P r

  Reached-SafeTable :
      {sched : Scheduler} (r : Reached hal sched)
      → Spawned NoTuples r
      → SafeTable IsSafe sched.procs
  Reached-SafeTable started h = init-SafeTable
  Reached-SafeTable (spawned {sched} program r) h =
      spawn-SafeTable sched program h.0 (Reached-SafeTable r h.1)
  Reached-SafeTable (sent {sched} dst cmd r) h =
      send-SafeTable sched dst cmd (Reached-SafeTable r h)
  Reached-SafeTable (ticked {sched} fuel world world' rc r e) h =
      rw e at (tick-Secure fuel sched world (Reached-FitTable hal r) (Reached-SafeTable r h))

  -- `mb_sched_tick` returns: where every program that was spawned has no byte 0x50, the opcode of
  -- `MAKE_TUPLE`, a tick that is given more than 64 rounds neither faults nor uses them up, in every
  -- scheduler that spawns, sends and ticks reach, whatever the programs do and on any hardware.
  pub tick-Returns :
      {sched : Scheduler} (fuel : ℕ) (world : W) (r : Reached hal sched)
      → Spawned NoTuples r
      → max_reductions < fuel
      → (x : Status × Scheduler × W) × (tick hal fuel sched world ≡ done x)
  tick-Returns {sched} fuel world r safe enough =
      let (x, e, _) = Secure-Returns _ (tick hal fuel sched world) (
        Secure-Gives Unit ⊥ _ (λ _. Unit {0}) (tick hal fuel sched world)
          (tick-Secure fuel sched world (Reached-FitTable hal r) (Reached-SafeTable r safe))
          (Gives-ends (tick hal fuel sched world) (Reached-tick hal fuel world r enough))) in
      (x, e)
