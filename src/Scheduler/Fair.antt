-- ===== src/Scheduler/Fair.antt =====
-- How long `mb_sched_tick` of src/mb_scheduler.c (erts/example/mini_beam_esp32) passes over a process
-- that stays ready.
use os_ii.Prelude.{ℕ, suc, ◌+◌, ◌%◌, ◌≤◌, ◌<◌, ◌≡◌, ◌≢◌, refl, arith, List, set, Option, none, some}
use os_ii.Status.{Status, sched_idle, bad_pid}
use os_ii.Run
use os_ii.Run.{Run, done}
use os_ii.Command.{Command}
use os_ii.Hal.{Hal}
use mathlib.Core.Path.{subst}
use os_ii.Process.{max_processes, pid_none, init as proc_init}
use os_ii.Table.{Table, entry, sched_proc, deliver}
use os_ii.Machine.{Machine}
use os_ii.Scheduler.{
  Scheduler, first_free, spawn, send, wake_sleepers, next_ready, write_back, run_picked, tick,
}
use os_ii.Scheduler.Pick.{Ready, distance, next_ready-distance}

spawn-current :
    (sched : Scheduler) (program : List ℕ) → (spawn sched program).1.current ≡ sched.current
unfolding spawn
spawn-current sched program = found (first_free max_processes sched.procs 0)
  where
    found :
        (o : Option ℕ)
        → (elim o as (λ _. ℕ × Scheduler) [
          | none ↦ (pid_none, sched)
          | some i ↦ (
            i + 1,
            record sched {
              procs = set sched.procs i (proc_init (i + 1) program);
              count = (sched.count + 1) % 256;
            },
          )
        ]).1.current
          ≡ sched.current
    found none = refl
    found (some i) = refl

send-current :
    (sched : Scheduler) (dst : ℕ) (cmd : Command) → (send sched dst cmd).1.current ≡ sched.current
unfolding send
send-current sched dst cmd = found (sched_proc sched.procs dst)
  where
    found :
        (o : Option ℕ)
        → (elim o as (λ _. Status × Scheduler) [
          | none ↦ (bad_pid, sched)
          | some i ↦
              let (rc, target) = deliver (entry sched.procs i) cmd in
              (rc, record sched { procs = set sched.procs i target })
        ]).1.current
          ≡ sched.current
    found none = refl
    found (some i) = refl

-- The next scan starts behind entry `idx`.
abbrev Behind : {W : Type 0} → ℕ → Run (Status × Scheduler × W) → Type 0
Behind idx (done (rc, sched, w)) = sched.current ≡ (idx + 1) % max_processes
Behind idx Run.fault = Unit
Behind idx Run.out_of_fuel = Unit

written-Behind :
    {W : Type 0} (sched : Scheduler) (idx : ℕ) (r : Run (Status × Machine W))
    → Behind idx (Run.◌>>=◌ r λ x. done (write_back sched idx x))
unfolding write_back
written-Behind sched idx (done (rc, m)) = refl
written-Behind sched idx Run.fault = tt
written-Behind sched idx Run.out_of_fuel = tt

module _ {W : Type 0} (hal : Hal W) where
  -- The table in which a tick looks for a ready process.
  abbrev pub woken : W → Scheduler → Table
  woken world sched = (wake_sleepers (hal.monotonic_ms world).0 sched).procs

  tick-Behind :
      (fuel : ℕ) (sched : Scheduler) (world : W) (idx : ℕ)
      → next_ready max_processes (woken world sched) sched.current 0 ≡ some idx
      → Behind idx (tick hal fuel sched world)
  unfolding tick run_picked wake_sleepers
  tick-Behind fuel sched world idx e =
      picked (next_ready max_processes (woken world sched) sched.current 0) e
    where
      after : Scheduler
      after = wake_sleepers (hal.monotonic_ms world).0 sched

      picked :
          (o : Option ℕ)
          → o ≡ some idx
          → Behind idx (elim o [
            | none ↦ done (sched_idle, after, (hal.monotonic_ms world).1)
            | some i ↦ run_picked hal fuel after (hal.monotonic_ms world).1 i
          ])
      picked none e = absurd (cc)
      picked (some i) e =
          let same : i ≡ idx = cc in
          subst (λ k. Behind k (run_picked hal fuel after (hal.monotonic_ms world).1 i)) same
            (written-Behind after i _)

  -- The ticks that run other processes while the one in entry `j` is ready, with any spawns and sends
  -- between them: their number, from a scheduler on.
  pub data PassedOver (j : ℕ) : Scheduler → ℕ → Type 0 where
    none_yet : (sched : Scheduler) → PassedOver j sched 0
    spawned :
        (program : List ℕ) {sched : Scheduler} {n : ℕ}
        → PassedOver j (spawn sched program).1 n
        → PassedOver j sched n
    sent :
        (dst : ℕ) (cmd : Command) {sched : Scheduler} {n : ℕ}
        → PassedOver j (send sched dst cmd).1 n
        → PassedOver j sched n
    ticked :
        (fuel idx : ℕ) (world world' : W) (rc : Status) {sched sched' : Scheduler} {n : ℕ}
        → Ready (woken world sched) j
        → next_ready max_processes (woken world sched) sched.current 0 ≡ some idx
        → idx ≢ j
        → tick hal fuel sched world ≡ done (rc, sched', world')
        → PassedOver j sched' n
        → PassedOver j sched (suc n)

  -- The scheduler is fair: with both indices in range, a process that stays ready is passed over by at
  -- most seven ticks in a row, and by no more than there are entries between the place where the scan
  -- starts and its own, whatever the ticks run on any hardware and whatever is spawned and sent
  -- between them.
  pub PassedOver-le-distance :
      {j n : ℕ} {sched : Scheduler}
      → PassedOver j sched n
      → sched.current < max_processes
      → j < max_processes
      → (n ≤ distance sched.current j) × (n ≤ 7)
  PassedOver-le-distance (none_yet sched) hc hj = (omega arith, omega arith)
  PassedOver-le-distance (spawned program {sched} rest) hc hj =
      let same = spawn-current sched program in
      rw same at (PassedOver-le-distance rest (omega arith) hj)
  PassedOver-le-distance (sent dst cmd {sched} rest) hc hj =
      let same = send-current sched dst cmd in
      rw same at (PassedOver-le-distance rest (omega arith) hj)
  PassedOver-le-distance {j} (ticked fuel idx world world' rc {sched} {sched'} r e ne step rest) hc
        hj =
      let next : sched'.current ≡ (idx + 1) % max_processes =
        rw step at (tick-Behind fuel sched world idx e) in
      let ih = PassedOver-le-distance rest (omega arith) hj in
      let nearer = next_ready-distance (woken world sched) sched.current idx j hc hj r e ne in
      (omega arith, omega arith)
