-- ===== src/Zephyr/MainLoop/Tally.antt =====
-- The counters of the loop of `main` in zephyr_app/src/main.c (erts/example/mini_beam_esp32) add up.
use os_ii.Prelude.{
  is_negative, ℕ, ◌+◌, ◌*◌, ◌/◌, ◌%◌, ◌≤◌, ◌<◌, ◌≡◌, ◌≢◌, refl, arith, leb, leb→le, Bool,
  Bool-cases, inl, inr, true, false, if◌then◌else◌, Option, none, some, ℤ, negsuc, u32_mod,
}
use native.Mathlib.Nat.{mod-le, div-mul-le_self, mul-le-mul_left}
use os_ii.Status.{Status}
use os_ii.Run
use os_ii.Run.{Run, done, Gives}
use os_ii.Mailbox.{Mailbox, mailbox_capacity}
use os_ii.Hal.{Hal}
use os_ii.Process.{Process, max_reductions}
use os_ii.Table.{entry}
use os_ii.Scheduler.{Scheduler, tick}
use os_ii.Scheduler.Reach.{Reached, ticked, Reached-IsValid}
use os_ii.Scheduler.Ends.{Reached-tick}
use os_ii.Zephyr.MainLoop.{
  Telemetry, Summary, Loop, Next, running, returned, count_result, count_event, track_depth,
  summary_of, summarize, since, stats_period_ms, account, feed, round,
}

-- Every tick is idle, an error or neither, no tick is two events, and no mailbox was deeper than it can be.
pub record Tallied (t : Telemetry) : Type 0 where
  pub outcomes : t.idle_count + t.error_count ≤ t.tick_count
  pub events : t.event_count ≤ t.tick_count
  pub a_depth : t.max_a_depth ≤ mailbox_capacity
  pub s_depth : t.max_s_depth ≤ mailbox_capacity

-- What the line that is logged says.
pub record Sensible (s : Summary) : Type 0 where
  pub outcomes : s.idle + s.errors ≤ s.ticks
  pub events : s.events ≤ s.ticks
  pub rate : s.ticks_per_s * 5 ≤ s.ticks
  pub a_depth : (s.a_depth_now ≤ s.a_depth_max) × (s.a_depth_max ≤ mailbox_capacity)
  pub s_depth : (s.s_depth_now ≤ s.s_depth_max) × (s.s_depth_max ≤ mailbox_capacity)

abbrev pub Line : Option Summary → Type 0
Line none = Unit
Line (some s) = Sensible s

-- A tick and its event, counted.
counted :
    (rc : Status) (proc_s : Process) (t : Telemetry)
    → Tallied t
    → t.tick_count + 1 < u32_mod
    → let t' = count_event proc_s (count_result rc t) in
      (t'.idle_count + t'.error_count ≤ t'.tick_count)
      × (t'.event_count ≤ t'.tick_count)
      × (t'.tick_count < u32_mod)
      × (t'.max_a_depth ≡ t.max_a_depth)
      × (t'.max_s_depth ≡ t.max_s_depth)
unfolding count_event count_result
counted rc proc_s t h small = ground arith

-- The quotient by an elapsed time of at least the period.
rate_bound :
    (ticks elapsed : ℕ) → stats_period_ms ≤ elapsed → ticks * 1000 % u32_mod / elapsed * 5 ≤ ticks
rate_bound ticks elapsed le =
    let n = ticks * 1000 % u32_mod in
    omega (
      arith,
      mod-le (ticks * 1000) u32_mod,
      div-mul-le_self n elapsed,
      mul-le-mul_left (n / elapsed) le,
    )

summarize-Tallied :
    (now_ms : ℕ) (actuator sensor : Mailbox) (t : Telemetry)
    → Tallied t
    → actuator.count ≤ t.max_a_depth
    → sensor.count ≤ t.max_s_depth
    → Line (summarize now_ms actuator sensor t).0 × Tallied (summarize now_ms actuator sensor t).1
unfolding summarize summary_of
summarize-Tallied now_ms actuator sensor t h a s =
    elim (Bool-cases (leb stats_period_ms (since now_ms t))) [
      | inl due ↦ rw due (
        record {
          outcomes = h.outcomes;
          events = h.events;
          rate =
              rate_bound t.tick_count (since now_ms t)
                (leb→le stats_period_ms (since now_ms t) due);
          a_depth = (a, h.a_depth);
          s_depth = (s, h.s_depth);
        },
        record {
          outcomes = omega arith;
          events = omega arith;
          a_depth = omega arith;
          s_depth = omega arith;
        },
      )
      | inr early ↦ rw early (tt, h)
    ]

track_depth-Tallied :
    (actuator sensor : Mailbox) (t : Telemetry)
    → Tallied t
    → actuator.count ≤ mailbox_capacity
    → sensor.count ≤ mailbox_capacity
    → let after = track_depth actuator sensor t in
      Tallied after × (actuator.count ≤ after.max_a_depth) × (sensor.count ≤ after.max_s_depth)
unfolding track_depth
track_depth-Tallied actuator sensor t h a s = (
  record {
    outcomes = h.outcomes;
    events = h.events;
    a_depth = ground arith;
    s_depth = ground arith;
  },
  ground arith,
  ground arith,
)

account-Tallied :
    (idx_a idx_s : ℕ) (rc : Status) (sched : Scheduler) (now_ms : ℕ) (t : Telemetry)
    → Tallied t
    → t.tick_count + 1 < u32_mod
    → (entry sched.procs idx_a).mailbox.count ≤ mailbox_capacity
    → (entry sched.procs idx_s).mailbox.count ≤ mailbox_capacity
    → let after = account idx_a idx_s rc sched now_ms t in Line after.0 × Tallied after.1
unfolding account
account-Tallied idx_a idx_s rc sched now_ms t h small a s =
    let proc_a = entry sched.procs idx_a in
    let proc_s = entry sched.procs idx_s in
    let t1 = count_event proc_s (count_result rc t) in
    let c = counted rc proc_s t h small in
    let mid : Tallied t1 = record {
      outcomes = c.0;
      events = c.1;
      a_depth = omega (arith, h.a_depth, c.3);
      s_depth = omega (arith, h.s_depth, c.4);
    } in
    let d = track_depth-Tallied proc_a.mailbox proc_s.mailbox t1 mid a s in
    summarize-Tallied now_ms proc_a.mailbox proc_s.mailbox
      (track_depth proc_a.mailbox proc_s.mailbox t1) d.0 d.1 d.2

module _ {W : Type 0} (hal : Hal W) (uptime : W → ℕ × W) (task_wdt_feed : W → ℤ × W)
    (idx_a idx_s : ℕ) where
  -- `main` returns -1 only, and otherwise goes on with a reached scheduler and counters that add up,
  -- and so do those of the line.
  abbrev pub GoesOn : Next W → Type 0
  GoesOn (running line l) = Reached hal l.sched × Tallied l.telemetry × Line line
  GoesOn (returned rc) = rc ≡ negsuc 0

  feed-GoesOn :
      (line : Option Summary) (l : Loop W)
      → GoesOn (running line l)
      → GoesOn (feed task_wdt_feed line l)
  unfolding feed
  feed-GoesOn line l g = fed (is_negative (task_wdt_feed l.world).0)
    where
      fed :
          (b : Bool)
          → GoesOn (
              if b
              then returned (negsuc 0)
              else running line (record l { world = (task_wdt_feed l.world).1 }))
      fed true = refl
      fed false = g

  after_tick :
      (fuel : ℕ) (l : Loop W) (r : Run (Status × Scheduler × W))
      → tick hal fuel l.sched l.world ≡ r
      → Reached hal l.sched
      → Tallied l.telemetry
      → l.telemetry.tick_count + 1 < u32_mod
      → r ≢ Run.out_of_fuel
      → Gives ⊥ GoesOn (
          Run.◌>>=◌ r λ (rc, sched, w).
            let (now_ms, w') = uptime w in
            let (line, t) = account idx_a idx_s rc sched now_ms l.telemetry in
            done (feed task_wdt_feed line (record { sched = sched; telemetry = t; world = w' })))
  after_tick fuel l (done (rc, sched, w)) e reached h small ends =
      let next : Reached hal sched = ticked fuel l.world w rc reached e in
      let counts =
        account-Tallied idx_a idx_s rc sched (uptime w).0 l.telemetry h small
          ((Reached-IsValid hal idx_a next).count_in) ((Reached-IsValid hal idx_s next).count_in) in
      feed-GoesOn _ _ (next, counts.1, counts.0)
  after_tick fuel l Run.fault e reached h small ends = tt
  after_tick fuel l Run.out_of_fuel e reached h small ends = ends refl

  -- The counters of the main loop add up: where the scheduler is one that its calls reach, the
  -- counters add up and the count of ticks is not about to wrap, a round with more than 64 rounds of
  -- fuel for the tick does not run out. If it returns, then with -1 from `main`, or with a reached
  -- scheduler, counters that add up again, and a line, where one is logged, whose ticks per second are
  -- at most a fifth of its ticks and whose mailbox depths are at most 32 and cover the present ones.
  pub round-Tallied :
      (fuel : ℕ) (l : Loop W)
      → Reached hal l.sched
      → Tallied l.telemetry
      → l.telemetry.tick_count + 1 < u32_mod
      → max_reductions < fuel
      → Gives ⊥ GoesOn (round hal uptime task_wdt_feed idx_a idx_s fuel l)
  unfolding round
  round-Tallied fuel l reached h small enough =
      after_tick fuel l (tick hal fuel l.sched l.world) refl reached h small
        (Reached-tick hal fuel l.world reached enough)
