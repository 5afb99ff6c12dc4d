-- ===== src/Zephyr/Enqueue.antt =====
-- How zephyr_app/src/main.c (erts/example/mini_beam_esp32) sends commands to a process: a new
-- command is rejected if the mailbox is full, and every attempt is counted. The build has
-- `OS2_MB_POLICY_REJECT_NEW` set.
pub mod Accounting
use os_ii.Prelude.{
  ℕ, ◌+◌, ◌%◌, leb, if◌then◌else◌, Option, none, some, pos, u32_mod, Bool, false, true,
}
use os_ii.Status.{Status, ok, mailbox_full, is_ok}
use os_ii.Command.{Command, cmd_i2c_read, cmd_pwm_set_duty}
use os_ii.Mailbox.{mailbox_capacity}
use os_ii.Table.{entry, sched_proc}
use os_ii.Scheduler.{Scheduler, send}

-- `os2_sensor_target_t`; a name is known by its place in the table of signatures.
pub record Target : Type 0 where
  pub name : ℕ
  pub id : ℕ
  pub bus : ℕ
  pub addr : ℕ
  pub reg : ℕ

-- `os2_mb_stats_t`
pub record Stats : Type 0 where
  pub attempted : ℕ
  pub pushed : ℕ
  pub dropped_full : ℕ
  pub processed : ℕ

abbrev pub is_full : Status → Bool
is_full mailbox_full = true
is_full _ = false

unfoldable pub sensor_cmd : Target → Command
sensor_cmd target = record {
  type = cmd_i2c_read;
  a = pos target.bus;
  b = pos target.addr;
  c = pos target.reg;
  d = pos target.id;
}

unfoldable pub pwm_cmd : ℕ → ℕ → ℕ → Command
pwm_cmd channel duty_permille actuator_id = record {
  type = cmd_pwm_set_duty;
  a = pos channel;
  b = pos duty_permille;
  c = pos 0;
  d = pos actuator_id;
}

unfoldable pub count_attempt : Stats → Stats
count_attempt stats = record stats { attempted = (stats.attempted + 1) % u32_mod }

unfoldable pub count_pushed : Stats → Stats
count_pushed stats = record stats { pushed = (stats.pushed + 1) % u32_mod }

unfoldable pub count_dropped : Stats → Stats
count_dropped stats = record stats { dropped_full = (stats.dropped_full + 1) % u32_mod }

-- `p != NULL && p->mailbox.count >= MB_MAILBOX_CAPACITY`
unfoldable pub no_room : Scheduler → ℕ → Bool
no_room sched pid = elim (sched_proc sched.procs pid) [
  | none ↦ false
  | some i ↦ leb mailbox_capacity (entry sched.procs i).mailbox.count
]

-- What the two functions do with the command that they have made.
unfoldable pub enqueue : Scheduler → ℕ → Command → Stats → Status × Scheduler × Stats
enqueue sched pid cmd stats =
    let stats' = count_attempt stats in
    if no_room sched pid
    then (mailbox_full, sched, count_dropped stats')
    else (let (rc, sched') = send sched pid cmd in
        (
          rc,
          sched',
          if is_ok rc
              then count_pushed stats'
              else if is_full rc
              then count_dropped stats'
              else stats',
        ))

unfoldable pub enqueue_sensor_cmd : Scheduler → ℕ → Target → Stats → Status × Scheduler × Stats
enqueue_sensor_cmd sched pid target stats = enqueue sched pid (sensor_cmd target) stats

unfoldable pub enqueue_pwm_cmd : Scheduler → ℕ → ℕ → ℕ → ℕ → Stats → Status × Scheduler × Stats
enqueue_pwm_cmd sched pid channel duty_permille actuator_id stats =
    enqueue sched pid (pwm_cmd channel duty_permille actuator_id) stats
