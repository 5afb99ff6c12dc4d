-- ===== src/Zephyr/Enqueue/Accounting.antt =====
-- The counters of zephyr_app/src/main.c (erts/example/mini_beam_esp32) and the status that its
-- sender is told.
use os_ii.Prelude.{
  ℕ, ◌+◌, ◌-◌, ◌^◌, ◌<◌, ◌≤◌, ◌≡◌, refl, ◌≢◌, ◌⊎◌, inl, inr, arith, true, Bool-cases, if◌then◌else◌,
}
use os_ii.Status.{Status, ok, mailbox_full, bad_pid, is_ok}
use os_ii.Command.{Command, validate_command}
use os_ii.Mailbox.{push_raw}
use os_ii.Table.{push_proc, deliver}
use os_ii.Scheduler.{Scheduler, send}
use os_ii.Zephyr.Enqueue.{
  Target, Stats, is_full, sensor_cmd, count_attempt, count_pushed, count_dropped, no_room, enqueue,
  enqueue_sensor_cmd,
}

-- What an attempt that ends in `rc` adds to the counters.
abbrev pub Counted : Stats → Status → Stats → Type 0
Counted before rc after =
    (after.attempted ≡ before.attempted + 1)
    × (after.processed ≡ before.processed)
    × (((rc ≡ ok) × (after.pushed ≡ before.pushed + 1) × (after.dropped_full ≡ before.dropped_full))
        ⊎ ((rc ≡ mailbox_full)
            × (after.pushed ≡ before.pushed)
            × (after.dropped_full ≡ before.dropped_full + 1))
        ⊎ ((rc ≢ ok)
            × (rc ≢ mailbox_full)
            × (after.pushed ≡ before.pushed)
            × (after.dropped_full ≡ before.dropped_full)))

is_full→eq : (s : Status) → is_full s ≡ true → s ≡ mailbox_full
is_full→eq mailbox_full h = refl
is_full→eq s h = cc

-- The counters add up: no more pushes and drops than attempts.
abbrev pub IsAccounted : Stats → Type 0
IsAccounted s = s.pushed + s.dropped_full ≤ s.attempted

count_attempt-Counted :
    (rc : Status) (stats : Stats)
    → stats.attempted < 2 ^ 32 - 1
    → IsAccounted stats
    → let stats' =
        if is_ok rc
        then count_pushed (count_attempt stats)
        else if is_full rc
        then count_dropped (count_attempt stats)
        else count_attempt stats in
      Counted stats rc stats' × IsAccounted stats'
unfolding count_pushed count_attempt count_dropped
count_attempt-Counted ok stats lt acc = ground arith
count_attempt-Counted mailbox_full stats lt acc = ground arith
count_attempt-Counted rc stats lt acc = ground arith

-- Until the count of attempts reaches 2 ^ 32 - 1, every attempt is counted once as an attempt, and
-- once as pushed if it is told `MB_OK`, once as dropped if it is told `MB_MAILBOX_FULL`, and
-- neither otherwise; pushes and drops together are never more than the attempts.
pub enqueue-Counted :
    (sched : Scheduler) (pid : ℕ) (cmd : Command) (stats : Stats)
    → stats.attempted < 2 ^ 32 - 1
    → IsAccounted stats
    → let (rc, sched', stats') = enqueue sched pid cmd stats in
      Counted stats rc stats' × IsAccounted stats'
unfolding enqueue
enqueue-Counted sched pid cmd stats lt acc = elim (Bool-cases (no_room sched pid)) [
  | inl full ↦ rw full (count_attempt-Counted mailbox_full stats lt acc)
  | inr room ↦ rw room (count_attempt-Counted (send sched pid cmd).0 stats lt acc)
]

-- The test for a full mailbox before the send changes nothing for a valid command: the sender is
-- told what `mb_sched_send` alone would have returned.
pub enqueue-send :
    (sched : Scheduler) (pid : ℕ) (cmd : Command) (stats : Stats)
    → validate_command cmd ≡ ok
    → (enqueue sched pid cmd stats).0 ≡ (send sched pid cmd).0
unfolding enqueue no_room send deliver push_proc push_raw
enqueue-send sched pid cmd stats valid = ground arith

-- A command for a sensor on a bus up to 3, at an address up to 127, with an 8-bit register, is never
-- refused as invalid: it is accepted, or the mailbox is full, or the pid names no process.
pub enqueue_sensor_cmd_lem :
    (sched : Scheduler) (pid : ℕ) (target : Target) (stats : Stats)
    → target.bus ≤ 3
    → target.addr ≤ 127
    → target.reg ≤ 255
    → let rc = (enqueue_sensor_cmd sched pid target stats).0 in
      (rc ≡ ok) ⊎ (rc ≡ mailbox_full) ⊎ (rc ≡ bad_pid)
unfolding enqueue_sensor_cmd sensor_cmd enqueue send deliver push_proc push_raw validate_command
enqueue_sensor_cmd_lem sched pid target stats hb ha hr = ground arith
