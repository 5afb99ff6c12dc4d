-- ===== src/Zephyr/Main/Boots.antt =====
-- What the boot in `main` of zephyr_app/src/main.c (erts/example/mini_beam_esp32) leaves.
use os_ii.Prelude.{
  is_negative, ℕ, ◌≤◌, ◌≡◌, refl, arith, Bool, true, false, if◌then◌else◌, List, [], ◌∷◌, Option,
  none, some, ℤ,
}
use os_ii.Run.{Run, done, Gives, ◌>>=◌, in_range}
use os_ii.Hal.{Hal}
use os_ii.Table.{sched_proc}
use os_ii.Scheduler.{Scheduler, init, spawn}
use os_ii.Scheduler.Reach.{Reached, started, spawned}
use os_ii.Zephyr.Enqueue.{Target}
use os_ii.Zephyr.Boot.{Board, spawn_sensors, spawn_flow, task_wdt_start}
use os_ii.Zephyr.Boot.Wait.{wait_dtr_lem}
use os_ii.Zephyr.Monitor.{boot_counter_next}
use os_ii.Zephyr.MainLoop.{Loop, fresh}
use os_ii.Zephyr.MainLoop.Tally.{Tallied}
use os_ii.Zephyr.Main.{Platform, Boot, head?, no_watchdog, booted, start_loop, boot_on, boot}

module _ {W : Type 0} (hal : Hal W) (z : Platform W) where
  spawn_sensors-Reached :
      (sched : Scheduler) (progs : List (List ℕ))
      → Reached hal sched
      → Reached hal (spawn_sensors sched progs).1
  unfolding spawn_sensors
  spawn_sensors-Reached sched [] h = h
  spawn_sensors-Reached sched (prog ∷ progs) h =
      spawn_sensors-Reached (spawn sched prog).1 progs (spawned prog h)

  spawn_flow-Reached :
      (sensors : List (List ℕ)) (actuator : List ℕ) → Reached hal (spawn_flow sensors actuator).2
  unfolding spawn_flow
  spawn_flow-Reached sensors actuator =
      spawned actuator (spawn_sensors-Reached init sensors started)

  -- Counters that add up, in a loop that has run for fewer rounds than wrap them.
  pub record Good (done_rounds : ℕ) (l : Loop W) : Type 0 where
    pub reached : Reached hal l.sched
    pub tallied : Tallied l.telemetry
    pub few : l.telemetry.tick_count ≤ done_rounds

  abbrev pub GoodBoot : Boot W → Type 0
  GoodBoot (no_watchdog rc) = is_negative rc ≡ true
  GoodBoot (booted idx_a idx_s targets counter l) = Good 0 l

  fresh-Tallied : Tallied fresh
  fresh-Tallied = record {
    outcomes = omega arith;
    events = omega arith;
    a_depth = omega arith;
    s_depth = omega arith;
  }

  -- Where a pointer is null `main` faults.
  actuator-GoodBoot :
      (o : Option ℕ) (idx_s : ℕ) (targets : List Target) (counter : ℕ) (l : Loop W)
      → Good 0 l
      → Gives ⊥ GoodBoot (in_range o >>= λ idx_a. done (booted idx_a idx_s targets counter l))
  actuator-GoodBoot none idx_s targets counter l h = tt
  actuator-GoodBoot (some idx_a) idx_s targets counter l h = h

  pointers-GoodBoot :
      (o : Option ℕ) (o' : Option ℕ) (targets : List Target) (counter : ℕ) (l : Loop W)
      → Good 0 l
      → Gives ⊥ GoodBoot (
          in_range o >>= λ idx_s.
          in_range o' >>= λ idx_a. done (booted idx_a idx_s targets counter l))
  pointers-GoodBoot none o' targets counter l h = tt
  pointers-GoodBoot (some idx_s) o' targets counter l h =
      actuator-GoodBoot o' idx_s targets counter l h

  sensors-GoodBoot :
      (o : Option ℕ) (o1 : ℕ → Option ℕ) (o2 : Option ℕ) (targets : List Target) (counter : ℕ)
      (l : Loop W)
      → Good 0 l
      → Gives ⊥ GoodBoot (
          in_range o >>= λ pid. in_range (o1 pid) >>= λ idx_s.
          in_range o2 >>= λ idx_a. done (booted idx_a idx_s targets counter l))
  sensors-GoodBoot none o1 o2 targets counter l h = tt
  sensors-GoodBoot (some pid) o1 o2 targets counter l h =
      pointers-GoodBoot (o1 pid) o2 targets counter l h

  loop-Good :
      (sensors : List (List ℕ)) (actuator : List ℕ) (w : W)
      → Good 0 (record { sched = (spawn_flow sensors actuator).2; telemetry = fresh; world = w })
  loop-Good sensors actuator w = record {
    reached = spawn_flow-Reached sensors actuator;
    tallied = fresh-Tallied;
    few = omega arith;
  }

  start_loop-GoodBoot :
      (sensors : List (List ℕ)) (actuator : List ℕ) (targets : List Target) (counter : ℕ) (w : W)
      → Gives ⊥ GoodBoot (start_loop sensors actuator targets counter w)
  unfolding start_loop
  start_loop-GoodBoot sensors actuator targets counter w =
      let (pids, pid_actuator, sched) = spawn_flow sensors actuator in
      sensors-GoodBoot (head? pids) (sched_proc sched.procs) (sched_proc sched.procs pid_actuator)
        targets counter (record { sched = sched; telemetry = fresh; world = w })
        (loop-Good sensors actuator w)

  boot_on-GoodBoot :
      (b : Board) (sensors : List (List ℕ)) (actuator : List ℕ) (counter : ℕ) (w : W)
      → Gives ⊥ GoodBoot (boot_on z b sensors actuator counter w)
  unfolding boot_on
  boot_on-GoodBoot b sensors actuator counter w = start_loop-GoodBoot sensors actuator _ counter _

  pub boot-GoodBoot :
      (b : Board) (sensors : List (List ℕ)) (actuator : List ℕ) (w : W)
      → Gives ⊥ GoodBoot (boot z b sensors actuator w)
  unfolding boot
  boot-GoodBoot b sensors actuator w =
      let (w1, waited) =
        wait_dtr_lem z.line_ctrl z.k_msleep 31 0 (z.usb_enable w).1 (omega arith) (omega arith) in
      let started = boot_counter_next (z.power w1) in
      let wdt =
        task_wdt_start z.task_wdt_init z.task_wdt_add
          (z.set_resetreas (z.resetreas w) (z.set_power started.1 w1)) in
      rw waited (
        choose (is_negative wdt.0) wdt.0 refl (boot_on z b sensors actuator started.0 wdt.1)
          (boot_on-GoodBoot b sensors actuator started.0 wdt.1))
    where
      choose :
          (c : Bool) (rc : ℤ)
          → is_negative rc ≡ c
          → (r : Run (Boot W)) → Gives ⊥ GoodBoot r
          → Gives ⊥ GoodBoot (if c then done (no_watchdog rc) else r)
      choose true rc e r h = e
      choose false rc e r h = h
