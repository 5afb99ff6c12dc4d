-- ===== src/Scheduler/Safe.antt =====
-- The calls of src/mb_scheduler.c (erts/example/mini_beam_esp32) on safe processes keep them safe.
pub mod Ticks
use os_ii.Prelude.{
  ℕ, zero, suc, ◌+◌, ◌%◌, ◌<◌, ◌≡◌, ◌≢◌, refl, sym, ◌∙◌, arith, Bool, Bool-cases, true, false, inl,
  inr, leb, ◌&&◌, if◌then◌else◌, List, [], ◌∷◌, length, set, map, replicate, Option, none, some,
  All,
}
use mathlib.Core.Path.{subst}
use os_ii.Status.{Status, sched_idle, bad_pid}
use os_ii.Run
use os_ii.Run.{Run, done}
use os_ii.Command.{Command}
use os_ii.Hal.{Hal}
use os_ii.Term.{Term}
use os_ii.Heap.Objects.{Sound, empty}
use os_ii.Heap.Build.{init-WellFormed}
use os_ii.Process.{
  Process, ProcState, free, ready, waiting, sleeping, halted, zero_process, max_processes,
  max_reductions, pid_none, init as proc_init,
}
use os_ii.Table.{Table, entry, entry-set, is_free, is_ready, is_sleeping, sched_proc, deliver}
use os_ii.Table.Fits.{FitTable}
use os_ii.Machine.{Machine, Caller, alone, in_table}
use os_ii.Vm.{proc_run}
use os_ii.Mailbox.Invariant.{zero_mailbox-IsValid}
use os_ii.Vm.Safe.{SafeEntry, SafeTable, SafeMachine, SafeCaller}
use os_ii.Vm.Safe.Tupleless.{NoTuples, IsSafe, IsSafe-same, safe_laws, safe_mails}
use os_ii.Vm.Safe.Messages.{deliver-SafeTable}
use os_ii.Vm.Safe.Runs.{SecureRun}
use os_ii.Vm.Safe.Steps.{proc_run-Secure}
use os_ii.Scheduler.{
  Scheduler, init, first_free, spawn, send, wake, wake_sleepers, next_ready, table_after,
  write_back, run_picked, tick,
}
use os_ii.Scheduler.Reach.{Reached, started, spawned, sent, ticked}
use os_ii.Scheduler.Ends.{Reached-FitTable, wake_sleepers-FitTable, Reached-tick}

sleeping-Taken : (s : ProcState) → is_sleeping s ≡ true → is_free s ≡ false
sleeping-Taken free e = sym e
sleeping-Taken ready e = refl
sleeping-Taken waiting e = refl
sleeping-Taken sleeping e = refl
sleeping-Taken halted e = refl

pub ready-Taken : (s : ProcState) → is_ready s ≡ true → is_free s ≡ false
ready-Taken free e = sym e
ready-Taken ready e = refl
ready-Taken waiting e = refl
ready-Taken sleeping e = refl
ready-Taken halted e = refl

pub proc_init-IsSafe :
    (pid : ℕ) (program : List ℕ) → NoTuples program → IsSafe (proc_init pid program)
unfolding proc_init
proc_init-IsSafe pid program h = record {
  healthy = ([], record { heap = init-WellFormed; sound = zeros 16; size = refl });
  program = h;
  mail = zero_mailbox-IsValid;
}
  where
    zeros : (n : ℕ) → All (Sound []) (replicate n 0)
    zeros zero = tt
    zeros (suc n) = (empty refl, zeros n)

entry-SafeEntry : (n i : ℕ) → SafeEntry IsSafe (entry (replicate n zero_process) i)
entry-SafeEntry zero i = (zero_mailbox-IsValid, λ e. absurd (ground arith))
entry-SafeEntry (suc n) zero = (zero_mailbox-IsValid, λ e. absurd (ground arith))
entry-SafeEntry (suc n) (suc i) = entry-SafeEntry n i

pub init-SafeTable : SafeTable IsSafe init.procs
unfolding init
init-SafeTable = entry-SafeEntry max_processes

pub spawn-SafeTable :
    (sched : Scheduler) (program : List ℕ)
    → NoTuples program
    → SafeTable IsSafe sched.procs
    → SafeTable IsSafe (spawn sched program).1.procs
unfolding spawn
spawn-SafeTable sched program safe h = found (first_free max_processes sched.procs 0)
  where
    found :
        (o : Option ℕ)
        → SafeTable IsSafe
            (elim o as (λ _. ℕ × Scheduler) [
              | none ↦ (pid_none, sched)
              | some i ↦ (
                i + 1,
                record sched {
                  procs = set sched.procs i (proc_init (i + 1) program);
                  count = (sched.count + 1) % 256;
                },
              )
            ]).1.procs
    found none = h
    found (some i) = λ j.
        entry-set (SafeEntry IsSafe) sched.procs j i _
          ((proc_init-IsSafe (i + 1) program safe).mail, λ _. proc_init-IsSafe (i + 1) program safe)
          (h j)

pub send-SafeTable :
    (sched : Scheduler) (dst : ℕ) (cmd : Command)
    → SafeTable IsSafe sched.procs
    → SafeTable IsSafe (send sched dst cmd).1.procs
unfolding send
send-SafeTable sched dst cmd h = found (sched_proc sched.procs dst)
  where
    found :
        (o : Option ℕ)
        → SafeTable IsSafe
            (elim o as (λ _. Status × Scheduler) [
              | none ↦ (bad_pid, sched)
              | some i ↦
                  let (rc, target) = deliver (entry sched.procs i) cmd in
                  (rc, record sched { procs = set sched.procs i target })
            ]).1.procs
    found none = h
    found (some i) = deliver-SafeTable IsSafe sched.procs i cmd h

wake-SafeEntry : (now : ℕ) (p : Process) → SafeEntry IsSafe p → SafeEntry IsSafe (wake now p)
unfolding wake
wake-SafeEntry now p h = elim (Bool-cases (is_sleeping p.state && leb p.sleep_until_ms now)) [
  | inl e ↦
      rw e (
        h.0,
        λ _. IsSafe-same p _ refl refl refl refl (h.1 (sleeping-Taken p.state (ground arith))),
      )
  | inr e ↦ rw e h
]

map-SafeEntry :
    (now : ℕ) (procs : Table) (i : ℕ)
    → SafeEntry IsSafe (entry procs i)
    → SafeEntry IsSafe (entry (map (wake now) procs) i)
map-SafeEntry now [] i h = h
map-SafeEntry now (p ∷ ps) zero h = wake-SafeEntry now p h
map-SafeEntry now (p ∷ ps) (suc i) h = map-SafeEntry now ps i h

pub wake_sleepers-SafeTable :
    (now : ℕ) (sched : Scheduler)
    → SafeTable IsSafe sched.procs
    → SafeTable IsSafe (wake_sleepers now sched).procs
unfolding wake_sleepers
wake_sleepers-SafeTable now sched h i = map-SafeEntry now sched.procs i (h i)
