-- ===== src/Zephyr/Main.antt =====
-- `main` of zephyr_app/src/main.c (erts/example/mini_beam_esp32): the steps of the boot in their
-- order, and the loop, of which a number of rounds is taken. Of a build with the USB console and with
-- the watchdog. Zephyr's calls are parameters; the log lines of the boot are left out.
mod Boots
pub mod Steps
pub mod Returns
mod Tests
use os_ii.Prelude.{
  is_negative, ℕ, zero, suc, Bool, true, false, if◌then◌else◌, List, [], ◌∷◌, Option, none, some, ℤ,
}
use os_ii.Run.{Run, done, ◌>>=◌, in_range}
use os_ii.Hal.{Hal}
use os_ii.Table.{sched_proc}
use os_ii.Scheduler.{Scheduler}
use os_ii.Zephyr.Enqueue.{Target}
use os_ii.Zephyr.Monitor.{Power, boot_counter_next}
use os_ii.Zephyr.Scan.{Sig, Probe, i2c_signature_scan}
use os_ii.Zephyr.Boot.{Pin, Board, wait_dtr, task_wdt_start, try_enable_i2c_pullups, spawn_flow}
use os_ii.Zephyr.MainLoop.{Loop, Next, running, returned, fresh, round}

-- What `main` calls of Zephyr, and the registers that it reads and writes.
pub record Platform (W : Type 0) : Type 0 where
  pub usb_enable : W → ℤ × W
  pub line_ctrl : W → Bool × W
  pub k_msleep : ℕ → W → W
  pub power : W → Power
  pub set_power : Power → W → W
  pub resetreas : W → ℕ
  pub set_resetreas : ℕ → W → W
  pub task_wdt_init : W → ℤ × W
  pub task_wdt_add : ℕ → W → ℤ × W
  pub task_wdt_feed : W → ℤ × W
  pub clear_trace : W → W
  pub pin_ready : Pin → W → Bool
  pub pin_configure : Pin → W → ℤ × W
  pub probes : W → (Sig → Probe) × W
  pub uptime : W → ℕ × W

-- What the loop needs of the boot: the indices of the actuator's process and of the first sensor's,
-- and what the loop starts with. Without a watchdog `main` returns.
pub data Boot (W : Type 0) : Type 0 where
  no_watchdog : ℤ → Boot W
  booted : ℕ → ℕ → List Target → ℕ → Loop W → Boot W

abbrev pub head? : List ℕ → Option ℕ
head? [] = none
head? (p ∷ _) = some p

-- The processes, and the pointers to two of them, which the loop goes by.
unfoldable pub start_loop :
    {W : Type 0} → List (List ℕ) → List ℕ → List Target → ℕ → W → Run (Boot W)
start_loop sensors actuator targets counter w =
    let (pids, pid_actuator, sched) = spawn_flow sensors actuator in
    in_range (head? pids) >>= λ pid_sensor.
    in_range (sched_proc sched.procs pid_sensor) >>= λ idx_s.
    in_range (sched_proc sched.procs pid_actuator) >>= λ idx_a.
    done
      (booted idx_a idx_s targets counter (record { sched = sched; telemetry = fresh; world = w }))

module _ {W : Type 0} (z : Platform W) where
  -- After the watchdog is there: the power pins, the scan and the processes.
  unfoldable pub boot_on : Board → List (List ℕ) → List ℕ → ℕ → W → Run (Boot W)
  boot_on b sensors actuator counter w =
      let w1 = try_enable_i2c_pullups z.pin_ready z.pin_configure z.clear_trace b w in
      let (probe, w2) = z.probes (z.k_msleep 50 w1) in
      start_loop sensors actuator (i2c_signature_scan 6 probe).found counter w2

  -- What `main` does before its loop.
  unfoldable pub boot : Board → List (List ℕ) → List ℕ → W → Run (Boot W)
  boot b sensors actuator w = wait_dtr z.line_ctrl z.k_msleep 31 0 (z.usb_enable w).1 >>= λ w1.
      let (counter, power) = boot_counter_next (z.power w1) in
      let (channel, w2) =
        task_wdt_start z.task_wdt_init z.task_wdt_add
          (z.set_resetreas (z.resetreas w) (z.set_power power w1)) in
      if is_negative channel
      then done (no_watchdog channel)
      else boot_on b sensors actuator counter w2

  -- `n` rounds of the loop, or fewer if `main` returns. A tick has 65 rounds of fuel.
  unfoldable pub rounds : Hal W → ℕ → ℕ → ℕ → Loop W → Run (Next W)
  rounds hal zero idx_a idx_s l = done (running none l)
  rounds hal (suc n) idx_a idx_s l = round hal z.uptime z.task_wdt_feed idx_a idx_s 65 l >>= λ next.
      elim next [ returned rc ↦ done (returned rc) | running line l' ↦ rounds hal n idx_a idx_s l' ]

  -- `main`, up to the end of `n` rounds.
  unfoldable pub main : Hal W → ℕ → Board → List (List ℕ) → List ℕ → W → Run (Next W)
  main hal n b sensors actuator w = boot b sensors actuator w >>= λ end. elim end [
    | no_watchdog rc ↦ done (returned rc)
    | booted idx_a idx_s targets counter l ↦ rounds hal n idx_a idx_s l
  ]
