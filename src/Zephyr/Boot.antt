-- ===== src/Zephyr/Boot.antt =====
-- What `main` of zephyr_app/src/main.c (erts/example/mini_beam_esp32) does before its loop: the wait
-- for a terminal, the power pins, the watchdog, and the processes. The pins, the bus and the watchdog
-- are Zephyr's and parameters.
pub mod Wait
pub mod Spawns
use os_ii.Prelude.{
  is_zero, is_negative, ℕ, zero, suc, ◌+◌, ltb, ◌==◌, ◌&&◌, not, Bool, true, false, if◌then◌else◌,
  List, [], ◌∷◌, ◌++◌, Option, none, some, ℤ, pos, negsuc,
}
use os_ii.Run.{Run, done, out_of_fuel}
use os_ii.Scheduler.{Scheduler, init, spawn}
use os_ii.Mailbox.{mailbox_capacity}

-- The pins of the power rails and of the bus's pull-ups.
pub data Pin : Type 0 where
  vdd_env i2c_pullup mic_pwr : Pin

pub record Board : Type 0 where
  pub has_vdd_env_en : Bool
  pub has_i2c_pullup : Bool
  pub has_mic_pwr_en : Bool
  pub has_i2c0 : Bool
  pub has_i2c1 : Bool

pub data PowerDomain : Type 0 where
  vdd_env mic_pwr : PowerDomain

-- `OS2_POWER_DOMAINS_ATOMS`
abbrev pub power_domains : Board → List PowerDomain
power_domains b =
    (if b.has_vdd_env_en then PowerDomain.vdd_env ∷ [] else [])
    ++ (if b.has_mic_pwr_en then PowerDomain.mic_pwr ∷ [] else [])

-- `os2_caps_v1_t`, without its texts.
pub record Caps : Type 0 where
  pub caps_v : ℕ
  pub event_schema_v : ℕ
  pub i2c_buses : ℕ
  pub spi_masters : ℕ
  pub pwm_channels : ℕ
  pub adc_channels : ℕ
  pub adc_max_ksps : ℕ
  pub rtc_count : ℕ
  pub timer32_count : ℕ
  pub has_qdec : ℕ
  pub has_i2s : ℕ
  pub has_pdm : ℕ
  pub has_ble : ℕ
  pub has_easydma : ℕ
  pub mailbox_depth : ℕ
  pub wdt_timeout_ms : ℕ
  pub power_domains_atoms : List PowerDomain

abbrev pub wdt_timeout_ms : ℕ
wdt_timeout_ms = 6000

abbrev count_of : Bool → ℕ
count_of b = if b then 1 else 0

-- `os2_caps_v1`
unfoldable pub caps_v1 : Board → Caps
caps_v1 b = record {
  caps_v = 1;
  event_schema_v = 2;
  i2c_buses = count_of b.has_i2c0 + count_of b.has_i2c1;
  spi_masters = 4;
  pwm_channels = 4;
  adc_channels = 8;
  adc_max_ksps = 200;
  rtc_count = 3;
  timer32_count = 5;
  has_qdec = 1;
  has_i2s = 1;
  has_pdm = 1;
  has_ble = 1;
  has_easydma = 1;
  mailbox_depth = mailbox_capacity;
  wdt_timeout_ms = wdt_timeout_ms;
  power_domains_atoms = power_domains b;
}

-- `while (wait_ms < 3000U)`, on fuel: `line_ctrl` is whether the terminal is there.
unfoldable pub wait_dtr : {W : Type 0} → (W → Bool × W) → (ℕ → W → W) → ℕ → ℕ → W → Run W
wait_dtr line_ctrl k_msleep zero wait_ms w = out_of_fuel
wait_dtr line_ctrl k_msleep (suc fuel) wait_ms w =
    let (dtr, w') = line_ctrl w in
    elim (ltb wait_ms 3000) [
      | false ↦ done w
      | true ↦ elim dtr [
        | true ↦ done w'
        | false ↦ wait_dtr line_ctrl k_msleep fuel (wait_ms + 100) (k_msleep 100 w')
      ]
    ]

module _ {W : Type 0} (ready : Pin → W → Bool) (gpio_pin_configure_dt : Pin → W → ℤ × W) where
  -- `device_is_ready(pin.port) && gpio_pin_configure_dt(&pin, GPIO_OUTPUT_ACTIVE) == 0`
  unfoldable pub enable : Pin → W → Bool × W
  enable pin w =
      if ready pin w
      then (let (rc, w') = gpio_pin_configure_dt pin w in (is_zero rc, w'))
      else (false, w)

  -- `os2_try_enable_i2c_pullups`: a failure of the pull-ups returns before the microphone's rail.
  -- `clear_trace` is the write of 0 to `TRACECONFIG`.
  unfoldable pub try_enable_i2c_pullups : (W → W) → Board → W → W
  try_enable_i2c_pullups clear_trace b w =
      let w0 = clear_trace w in
      let w1 = if b.has_vdd_env_en then (enable Pin.vdd_env w0).1 else w0 in
      let (going, w2) = if b.has_i2c_pullup then enable i2c_pullup w1 else (true, w1) in
      if going && b.has_mic_pwr_en then (enable Pin.mic_pwr w2).1 else w2

-- The device of an I2C bus, as `os2_get_i2c_dev` gives it: `none` is `NULL`.
pub data I2cDev : Type 0 where
  i2c0 i2c1 : I2cDev

unfoldable pub get_i2c_dev : {W : Type 0} → (I2cDev → W → Bool) → Board → ℕ → W → Option I2cDev
get_i2c_dev device_is_ready b bus w =
    if bus == 0
    then (if b.has_i2c0 && device_is_ready i2c0 w then some i2c0 else none)
    else if bus == 1
    then (if b.has_i2c1 && device_is_ready i2c1 w then some i2c1 else none)
    else none

-- `os2_task_wdt_start`
unfoldable pub task_wdt_start : {W : Type 0} → (W → ℤ × W) → (ℕ → W → ℤ × W) → W → ℤ × W
task_wdt_start task_wdt_init task_wdt_add w =
    let (rc, w') = task_wdt_init w in
    if is_negative rc then (rc, w') else task_wdt_add wdt_timeout_ms w'

-- The loop over `os2_flow_sensor_progs`: the pids, in order.
unfoldable pub spawn_sensors : Scheduler → List (List ℕ) → List ℕ × Scheduler
spawn_sensors sched [] = ([], sched)
spawn_sensors sched (prog ∷ progs) =
    let (pid, sched1) = spawn sched prog in
    let (pids, sched2) = spawn_sensors sched1 progs in (pid ∷ pids, sched2)

-- The processes that `main` spawns: the pids of the sensors and of the actuator.
unfoldable pub spawn_flow : List (List ℕ) → List ℕ → List ℕ × ℕ × Scheduler
spawn_flow sensors actuator =
    let (pids, sched) = spawn_sensors init sensors in
    let (pid, sched') = spawn sched actuator in (pids, pid, sched')
