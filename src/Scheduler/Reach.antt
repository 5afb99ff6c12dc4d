-- ===== src/Scheduler/Reach.antt =====
-- The schedulers that the calls of src/mb_scheduler.c (erts/example/mini_beam_esp32) reach, and what
-- holds in all of them.
use os_ii.Prelude.{
  ℕ, zero, suc, ◌+◌, ◌%◌, ◌≡◌, refl, arith, List, [], ◌∷◌, set, map, replicate, Option, none, some,
}
use os_ii.Status.{Status, sched_idle, bad_pid}
use os_ii.Run
use os_ii.Run.{Run, done}
use os_ii.Command.{Command}
use os_ii.Mailbox.Invariant.{IsValid, zero_mailbox-IsValid}
use os_ii.Hal.{Hal}
use os_ii.Process.{
  Process, waiting, zero_process, max_processes, max_reductions, pid_none, init as proc_init,
}
use os_ii.Table.{Table, entry, sched_proc, deliver}
use os_ii.Machine.{Machine, Caller, alone, in_table}
use os_ii.Vm.Keeps.Runs.{AfterRun, proc_run-AfterRun}
use os_ii.Vm.Sound.{
  IsSound, AllSound, SoundCaller, entry-IsSound, deliver-IsSound, zero_process-IsSound,
}
use os_ii.Vm.Sound.Commands.{Sound, Sound-Rules}
use os_ii.Scheduler.{
  Scheduler, init, first_free, spawn, send, wake, wake_sleepers, next_ready, write_back, run_picked,
  tick,
}

-- What a run that returns leaves.
abbrev AfterTick : {W : Type 0} → (Scheduler → Type 0) → Run (Status × Scheduler × W) → Type 0
AfterTick P (done (rc, sched, w)) = P sched
AfterTick P Run.fault = Unit
AfterTick P Run.out_of_fuel = Unit

entry-replicate : (n i : ℕ) → entry (replicate n zero_process) i ≡ zero_process
entry-replicate zero i = refl
entry-replicate (suc n) zero = refl
entry-replicate (suc n) (suc i) = entry-replicate n i

init-AllSound : AllSound init.procs
unfolding init
init-AllSound i = rw (entry-replicate max_processes i) zero_process-IsSound

proc_init-IsSound : (pid : ℕ) (program : List ℕ) → IsSound (proc_init pid program)
unfolding proc_init
proc_init-IsSound pid program = record { mail = zero_mailbox-IsValid; no_lost = λ e. cc }

set-AllSound :
    (procs : Table) (i : ℕ) (p : Process) → IsSound p → AllSound procs → AllSound (set procs i p)
set-AllSound procs i p s h j = entry-IsSound procs j i p s (h j)

spawn-AllSound :
    (sched : Scheduler) (program : List ℕ)
    → AllSound sched.procs
    → AllSound (spawn sched program).1.procs
unfolding spawn
spawn-AllSound sched program h = found (first_free max_processes sched.procs 0)
  where
    found :
        (o : Option ℕ)
        → AllSound
            (elim o as (λ _. ℕ × Scheduler) [
              | none ↦ (pid_none, sched)
              | some i ↦ (
                i + 1,
                record sched {
                  procs = set sched.procs i (proc_init (i + 1) program);
                  count = (sched.count + 1) % 256;
                },
              )
            ]).1.procs
    found none = h
    found (some i) = set-AllSound sched.procs i _ (proc_init-IsSound (i + 1) program) h

wake-IsSound : (now : ℕ) (p : Process) → IsSound p → IsSound (wake now p)
unfolding wake
wake-IsSound now p s = ground arith

map-IsSound :
    (now : ℕ) (procs : Table) (i : ℕ)
    → IsSound (entry procs i)
    → IsSound (entry (map (wake now) procs) i)
map-IsSound now [] i h = h
map-IsSound now (p ∷ ps) zero h = wake-IsSound now p h
map-IsSound now (p ∷ ps) (suc i) h = map-IsSound now ps i h

wake_sleepers-AllSound :
    (now : ℕ) (sched : Scheduler) → AllSound sched.procs → AllSound (wake_sleepers now sched).procs
unfolding wake_sleepers
wake_sleepers-AllSound now sched h i = map-IsSound now sched.procs i (h i)

send-AllSound :
    (sched : Scheduler) (dst : ℕ) (cmd : Command)
    → AllSound sched.procs
    → AllSound (send sched dst cmd).1.procs
unfolding send
send-AllSound sched dst cmd h = found (sched_proc sched.procs dst)
  where
    found :
        (o : Option ℕ)
        → AllSound
            (elim o as (λ _. Status × Scheduler) [
              | none ↦ (bad_pid, sched)
              | some i ↦
                  let (rc, target) = deliver (entry sched.procs i) cmd in
                  (rc, record sched { procs = set sched.procs i target })
            ]).1.procs
    found none = h
    found (some i) =
        set-AllSound sched.procs i _ (deliver-IsSound (entry sched.procs i) cmd (h i)) h

write_back-AllSound :
    {W : Type 0} (sched : Scheduler) (idx : ℕ) (rc : Status) (p : Process) (c : Caller) (w : W)
    → AllSound sched.procs
    → IsSound p
    → SoundCaller c
    → AfterTick
        (λ s. AllSound s.procs)
        (done (write_back sched idx (rc, record { proc = p; caller = c; world = w })))
unfolding write_back
write_back-AllSound sched idx rc p alone w h s q = set-AllSound sched.procs idx p s h
write_back-AllSound sched idx rc p (in_table slot procs) w h s q = set-AllSound procs idx p s q

run-AllSound :
    {W : Type 0} (sched : Scheduler) (idx : ℕ) (r : Run (Status × Machine W))
    → AllSound sched.procs
    → AfterRun (Unit {0}) Sound r
    → AfterTick (λ s. AllSound s.procs) (Run.◌>>=◌ r λ x. done (write_back sched idx x))
run-AllSound sched idx (done (rc, m)) h s =
    write_back-AllSound sched idx rc m.proc m.caller m.world h s.0 s.1
run-AllSound sched idx Run.fault h s = tt
run-AllSound sched idx Run.out_of_fuel h s = tt

module _ {W : Type 0} (hal : Hal W) where
  run_picked-AllSound :
      (fuel : ℕ) (sched : Scheduler) (world : W) (idx : ℕ)
      → AllSound sched.procs
      → AfterTick (λ s. AllSound s.procs) (run_picked hal fuel sched world idx)
  unfolding run_picked
  run_picked-AllSound fuel sched world idx h = run-AllSound sched idx _ h (
      proc_run-AfterRun hal Sound (Sound-Rules hal)
        (λ n m h. (record { mail = h.0.mail; no_lost = h.0.no_lost }, h.1)) fuel max_reductions _
        (h idx, h))

  tick-AllSound :
      (fuel : ℕ) (sched : Scheduler) (world : W)
      → AllSound sched.procs
      → AfterTick (λ s. AllSound s.procs) (tick hal fuel sched world)
  unfolding tick
  tick-AllSound fuel sched world h = picked (next_ready max_processes woken.procs woken.current 0)
    where
      woken : Scheduler
      woken = wake_sleepers (hal.monotonic_ms world).0 sched

      picked :
          (o : Option ℕ)
          → AfterTick
              (λ s. AllSound s.procs)
              (elim o [
                | none ↦ done (sched_idle, woken, (hal.monotonic_ms world).1)
                | some idx ↦ run_picked hal fuel woken (hal.monotonic_ms world).1 idx
              ])
      picked none = wake_sleepers-AllSound (hal.monotonic_ms world).0 sched h
      picked (some idx) =
          run_picked-AllSound fuel woken (hal.monotonic_ms world).1 idx
            (wake_sleepers-AllSound (hal.monotonic_ms world).0 sched h)

  -- What any sequence of the scheduler's calls leads to, from `mb_sched_init` on, in any order.
  pub data Reached : Scheduler → Type 0 where
    started : Reached init
    spawned :
        {sched : Scheduler} (program : List ℕ) → Reached sched → Reached (spawn sched program).1
    sent :
        {sched : Scheduler} (dst : ℕ) (cmd : Command)
        → Reached sched
        → Reached (send sched dst cmd).1
    ticked :
        {sched after : Scheduler} (fuel : ℕ) (world world' : W) (rc : Status)
        → Reached sched
        → tick hal fuel sched world ≡ done (rc, after, world')
        → Reached after

  Reached-AllSound : {sched : Scheduler} → Reached sched → AllSound sched.procs
  Reached-AllSound started = init-AllSound
  Reached-AllSound (spawned {sched} program r) = spawn-AllSound sched program (Reached-AllSound r)
  Reached-AllSound (sent {sched} dst cmd r) = send-AllSound sched dst cmd (Reached-AllSound r)
  Reached-AllSound (ticked {sched} fuel world world' rc r e) =
      rw e at (tick-AllSound fuel sched world (Reached-AllSound r))

  -- No wake-up is lost: in every scheduler that its calls reach, on any programs and hardware and in
  -- any order of spawns, sends and ticks that return, a process that waits has an empty mailbox.
  pub Reached-no_lost :
      {sched : Scheduler} (i : ℕ)
      → Reached sched
      → (entry sched.procs i).state ≡ waiting
      → (entry sched.procs i).mailbox.count ≡ 0
  Reached-no_lost i r e = (Reached-AllSound r i).no_lost e

  -- In every scheduler that its calls reach, on any programs and hardware and in any order of
  -- spawns, sends and ticks that return, every mailbox is valid: its indices are in range and every
  -- command that it holds has passed validation.
  pub Reached-IsValid :
      {sched : Scheduler} (i : ℕ) → Reached sched → IsValid (entry sched.procs i).mailbox
  Reached-IsValid i r = (Reached-AllSound r i).mail
