-- ===== src/Scheduler.antt =====
-- src/mb_scheduler.c (erts/example/mini_beam_esp32): the cooperative round-robin scheduler.
pub mod Pick
pub mod Fair
pub mod Isolation
pub mod Reach
pub mod Ends
pub mod Spawn
pub mod Safe
pub mod Filled
mod Tests
use os_ii.Prelude.{
  ℕ, zero, suc, ◌+◌, ◌-◌, ◌%◌, ltb, leb, ◌==◌, ◌&&◌, Bool, true, false, if◌then◌else◌, List, [],
  ◌∷◌, set, replicate, map, Option, none, some,
}
use os_ii.Status.{Status, ok, bad_pid, sched_idle}
use os_ii.Run.{Run, done, ◌>>=◌}
use os_ii.Command.{Command}
use os_ii.Hal.{Hal}
use os_ii.Process.{
  Process, ProcState, free, ready, zero_process, max_processes, pid_none, max_reductions,
  init as proc_init,
}
use os_ii.Table.{Table, entry, is_free, is_ready, is_sleeping, sched_proc, deliver}
use os_ii.Machine.{Machine, Caller, alone, in_table}
use os_ii.Vm.{proc_run}

-- `mb_scheduler_t`
pub record Scheduler : Type 0 where
  pub procs : Table
  pub current : ℕ
  pub count : ℕ

unfoldable pub init : Scheduler
init = record { procs = replicate max_processes zero_process; current = 0; count = 0 }

-- The scan of `mb_sched_spawn` from entry `i` on, with `n` entries left.
unfoldable pub first_free : ℕ → Table → ℕ → Option ℕ
first_free zero procs i = none
first_free (suc n) procs i =
    if is_free (entry procs i).state then some i else first_free n procs (i + 1)

-- The pid is `pid_none` where the table is full.
unfoldable pub spawn : Scheduler → List ℕ → ℕ × Scheduler
spawn sched program = elim (first_free max_processes sched.procs 0) [
  | none ↦ (pid_none, sched)
  | some i ↦ (
    i + 1,
    record sched {
      procs = set sched.procs i (proc_init (i + 1) program);
      count = (sched.count + 1) % 256;
    },
  )
]

unfoldable pub send : Scheduler → ℕ → Command → Status × Scheduler
send sched dst cmd = elim (sched_proc sched.procs dst) [
  | none ↦ (bad_pid, sched)
  | some i ↦
      let (rc, target) = deliver (entry sched.procs i) cmd in
      (rc, record sched { procs = set sched.procs i target })
]

unfoldable pub wake : ℕ → Process → Process
wake now p =
    if is_sleeping p.state && leb p.sleep_until_ms now then record p { state = ready } else p

-- `mb_sched_wake_sleepers`, with the time that it has read.
unfoldable pub wake_sleepers : ℕ → Scheduler → Scheduler
wake_sleepers now sched = record sched { procs = map (wake now) sched.procs }

-- The scan of `mb_sched_tick` from step `i` on, with `n` steps left.
unfoldable pub next_ready : ℕ → Table → ℕ → ℕ → Option ℕ
next_ready zero procs start i = none
next_ready (suc n) procs start i =
    let idx = (start + i) % max_processes in
    if is_ready (entry procs idx).state then some idx else next_ready n procs start (i + 1)

-- The table as a run has left it; its entry of the running process is behind the process itself.
abbrev pub table_after : Caller → Table → Table
table_after alone before = before
table_after (in_table slot procs) before = procs

-- The scheduler after the run of the process at `idx`.
unfoldable pub write_back :
    {W : Type 0} → Scheduler → ℕ → Status × Machine W → Status × Scheduler × W
write_back sched idx (rc, m) = (
  rc,
  record sched {
    procs = set (table_after m.caller sched.procs) idx m.proc;
    current = (idx + 1) % max_processes;
  },
  m.world,
)

module _ {W : Type 0} (hal : Hal W) where
  -- The run of the process that was picked, in the table that it stands in.
  unfoldable pub run_picked : ℕ → Scheduler → W → ℕ → Run (Status × Scheduler × W)
  run_picked fuel sched world idx =
      proc_run hal fuel max_reductions
        (record { proc = entry sched.procs idx; caller = in_table idx sched.procs; world = world })
      >>= λ r. done (write_back sched idx r)

  -- `mb_sched_tick`
  unfoldable pub tick : ℕ → Scheduler → W → Run (Status × Scheduler × W)
  tick fuel sched world =
      let (now, world') = hal.monotonic_ms world in
      let woken = wake_sleepers now sched in
      elim (next_ready max_processes woken.procs woken.current 0) [
        | none ↦ done (sched_idle, woken, world')
        | some idx ↦ run_picked fuel woken world' idx
      ]
