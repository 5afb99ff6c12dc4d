-- ===== src/Zephyr/MainLoop.antt =====
-- The endless loop of `main` in zephyr_app/src/main.c (erts/example/mini_beam_esp32): a tick of the
-- scheduler, the counters of the log line, and the watchdog. The uptime and the watchdog are Zephyr's
-- and parameters. The registers are sixteen, so the ninth is there.
pub mod Tally
mod Tests
use os_ii.Prelude.{
  is_negative, ℕ, ◌+◌, ◌-◌, ◌*◌, ◌/◌, ◌%◌, ltb, leb, ◌==◌, ◌&&◌, not, Bool, true, false,
  if◌then◌else◌, get_or, Option, none, some, ℤ, pos, negsuc, eq_ℤ, to_u32, u32_mod,
}
use os_ii.Status.{Status, ok, sched_idle, is_ok}
use os_ii.Run.{Run, done, ◌>>=◌}
use os_ii.Term.{get_smallint}
use os_ii.Mailbox.{Mailbox}
use os_ii.Hal.{Hal}
use os_ii.Process.{Process}
use os_ii.Table.{entry}
use os_ii.Scheduler.{Scheduler, tick}

-- The counters that the loop keeps.
pub record Telemetry : Type 0 where
  pub tick_count : ℕ
  pub event_count : ℕ
  pub idle_count : ℕ
  pub error_count : ℕ
  pub max_a_depth : ℕ
  pub max_s_depth : ℕ
  pub last_ts : ℕ
  pub last_stats_ts : ℕ

-- What the loop starts with.
abbrev pub fresh : Telemetry
fresh = record {
  tick_count = 0;
  event_count = 0;
  idle_count = 0;
  error_count = 0;
  max_a_depth = 0;
  max_s_depth = 0;
  last_ts = 0;
  last_stats_ts = 0;
}

abbrev pub stats_period_ms : ℕ
stats_period_ms = 5000

-- A `uint32_t` that is counted up.
abbrev pub bump : ℕ → ℕ
bump n = (n + 1) % u32_mod

abbrev is_idle : Status → Bool
is_idle sched_idle = true
is_idle _ = false

unfoldable pub count_result : Status → Telemetry → Telemetry
count_result rc t =
    let t' = record t { tick_count = bump t.tick_count } in
    if is_idle rc
    then record t' { idle_count = bump t.idle_count }
    else if not (is_ok rc)
    then record t' { error_count = bump t.error_count }
    else t'

-- The time stamp that the sensor's process has put into register 9.
unfoldable pub event_ts : Process → ℤ
event_ts proc_s = get_smallint (get_or proc_s.regs 9 0)

unfoldable pub count_event : Process → Telemetry → Telemetry
count_event proc_s t =
    let ts = event_ts proc_s in
    if not (eq_ℤ ts (pos 0)) && not (to_u32 ts == t.last_ts)
    then record t { event_count = bump t.event_count; last_ts = to_u32 ts }
    else t

unfoldable pub track_depth : Mailbox → Mailbox → Telemetry → Telemetry
track_depth actuator sensor t = record t {
  max_a_depth = if ltb t.max_a_depth actuator.count then actuator.count else t.max_a_depth;
  max_s_depth = if ltb t.max_s_depth sensor.count then sensor.count else t.max_s_depth;
}

-- The numbers of the line that starts with `STRESS`.
pub record Summary : Type 0 where
  pub ticks : ℕ
  pub events : ℕ
  pub idle : ℕ
  pub errors : ℕ
  pub ticks_per_s : ℕ
  pub events_per_s : ℕ
  pub a_depth_max : ℕ
  pub s_depth_max : ℕ
  pub a_depth_now : ℕ
  pub s_depth_now : ℕ

-- `now_ms - last_stats_ts`
abbrev pub since : ℕ → Telemetry → ℕ
since now_ms t = (now_ms + u32_mod - t.last_stats_ts) % u32_mod

unfoldable pub summary_of : ℕ → Mailbox → Mailbox → Telemetry → Summary
summary_of elapsed actuator sensor t = record {
  ticks = t.tick_count;
  events = t.event_count;
  idle = t.idle_count;
  errors = t.error_count;
  ticks_per_s = t.tick_count * 1000 % u32_mod / elapsed;
  events_per_s = t.event_count * 1000 % u32_mod / elapsed;
  a_depth_max = t.max_a_depth;
  s_depth_max = t.max_s_depth;
  a_depth_now = actuator.count;
  s_depth_now = sensor.count;
}

-- The line, where it is time for one, and the counters after it.
unfoldable pub summarize : ℕ → Mailbox → Mailbox → Telemetry → Option Summary × Telemetry
unfolding summary_of
summarize now_ms actuator sensor t =
    if leb stats_period_ms (since now_ms t)
    then (
      some (summary_of (since now_ms t) actuator sensor t),
      record t {
        last_stats_ts = now_ms;
        tick_count = 0;
        event_count = 0;
        idle_count = 0;
        error_count = 0;
        max_a_depth = 0;
        max_s_depth = 0;
      },
    )
    else (none, t)

-- What the loop works on. The pointers `proc_a` and `proc_s` are the indices of their entries.
pub record Loop (W : Type 0) : Type 0 where
  pub sched : Scheduler
  pub telemetry : Telemetry
  pub world : W

-- The loop goes on, with the line that it logged if any, or `main` returns.
pub data Next (W : Type 0) : Type 0 where
  running : Option Summary → Loop W → Next W
  returned : ℤ → Next W

-- The counters after the tick, and the line.
unfoldable pub account : ℕ → ℕ → Status → Scheduler → ℕ → Telemetry → Option Summary × Telemetry
account idx_a idx_s rc sched now_ms t =
    let proc_a = entry sched.procs idx_a in
    let proc_s = entry sched.procs idx_s in
    summarize now_ms proc_a.mailbox proc_s.mailbox
      (track_depth proc_a.mailbox proc_s.mailbox (count_event proc_s (count_result rc t)))

-- The watchdog is fed in every round.
unfoldable pub feed : {W : Type 0} → (W → ℤ × W) → Option Summary → Loop W → Next W
feed task_wdt_feed line l =
    let (rc, world) = task_wdt_feed l.world in
    if is_negative rc then returned (negsuc 0) else running line (record l { world = world })

-- One round of `while (1)`.
unfoldable pub round :
    {W : Type 0} → Hal W → (W → ℕ × W) → (W → ℤ × W) → ℕ → ℕ → ℕ → Loop W → Run (Next W)
round hal uptime task_wdt_feed idx_a idx_s fuel l =
    tick hal fuel l.sched l.world >>= λ (rc, sched, w).
    let (now_ms, w') = uptime w in
    let (line, t) = account idx_a idx_s rc sched now_ms l.telemetry in
    done (feed task_wdt_feed line (record { sched = sched; telemetry = t; world = w' }))
