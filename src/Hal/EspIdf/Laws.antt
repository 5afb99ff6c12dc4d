-- ===== src/Hal/EspIdf/Laws.antt =====
-- What the drivers of src/mb_hal_espidf.c (erts/example/mini_beam_esp32) do with the devices that they
-- open, and how long their delay waits.
use os_ii.Prelude.{
  ℕ, zero, suc, ◌+◌, ◌-◌, ◌*◌, ◌/◌, ◌%◌, ◌^◌, ◌≤◌, ◌<◌, ◌≡◌, refl, arith, sym, ◌∙◌, ltb, ltb→lt,
  ltb→le, ◌==◌, Bool, true, false, if◌then◌else◌, List, [], ◌∷◌,
}
use os_ii.Run.{Run, done}
use os_ii.Hal.EspIdf.{
  Sdk, DeviceConfig, esp_ok, timeout_ms, u64_mod, duty_of, i2c_read_reg, i2c_write_reg, wait_until,
  delay_ms,
}

-- The number of open I2C devices, as ESP-IDF documents its calls: adding one opens it and removing one
-- closes it, each where the call succeeds, and a transfer neither opens nor closes any.
pub record Counts {H W : Type 0} (sdk : Sdk H W) (open_devices : W → ℕ) : Type 0 where
  pub added :
      (bus : ℕ) (cfg : DeviceConfig) (w : W)
      → open_devices (sdk.i2c_master_bus_add_device bus cfg w).2 ≡ (
          if (sdk.i2c_master_bus_add_device bus cfg w).0 == esp_ok
          then open_devices w + 1
          else open_devices w)
  pub removed :
      (dev : H) (w : W)
      → open_devices (sdk.i2c_master_bus_rm_device dev w).1 ≡ (
          if (sdk.i2c_master_bus_rm_device dev w).0 == esp_ok
          then open_devices w - 1
          else open_devices w)
  pub received :
      (dev : H) (reg timeout : ℕ) (w : W)
      → open_devices (sdk.i2c_master_transmit_receive dev reg timeout w).2 ≡ open_devices w
  pub transmitted :
      (dev : H) (tx : List ℕ) (timeout : ℕ) (w : W)
      → open_devices (sdk.i2c_master_transmit dev tx timeout w).1 ≡ open_devices w

-- The devices that are left open, by the codes of adding the device and of removing it.
abbrev pub left_open : ℕ → ℕ → ℕ
left_open add_err rm_err = if add_err == esp_ok then (if rm_err == esp_ok then 0 else 1) else 0

module _ {H W : Type 0} (sdk : Sdk H W) (open_devices : W → ℕ)
    (counts : Counts sdk open_devices) where
  -- A register read or write leaves as many I2C devices open as it found, whether the transfer succeeds
  -- or not, and one more exactly if the device could be added and its removal failed, a code that the
  -- functions discard. That is so if the calls of ESP-IDF open and close devices as documented.
  pub i2c_open_devices :
      (bus addr reg value : ℕ) (w : W)
      → let (add_err, dev, w1) =
          sdk.i2c_master_bus_add_device bus
            (record { device_address = addr; scl_speed_hz = 400000 })
            w in
        let got = (sdk.i2c_master_transmit_receive dev reg timeout_ms w1).2 in
        let sent = (sdk.i2c_master_transmit dev (reg ∷ value ∷ []) timeout_ms w1).1 in
        (open_devices (i2c_read_reg sdk bus addr reg w).2
          ≡ open_devices w + left_open add_err (sdk.i2c_master_bus_rm_device dev got).0)
        × (open_devices (i2c_write_reg sdk bus addr reg value w).1
            ≡ open_devices w + left_open add_err (sdk.i2c_master_bus_rm_device dev sent).0)
  unfolding i2c_read_reg i2c_write_reg
  i2c_open_devices bus addr reg value w =
      let cfg : DeviceConfig = record { device_address = addr; scl_speed_hz = 400000 } in
      let dev = (sdk.i2c_master_bus_add_device bus cfg w).1 in
      let w1 = (sdk.i2c_master_bus_add_device bus cfg w).2 in
      let got = (sdk.i2c_master_transmit_receive dev reg timeout_ms w1).2 in
      let sent = (sdk.i2c_master_transmit dev (reg ∷ value ∷ []) timeout_ms w1).1 in
      (
        ground (
          arith,
          counts.added bus cfg w,
          counts.removed dev got,
          counts.received dev reg timeout_ms w1,
        ),
        ground (
          arith,
          counts.added bus cfg w,
          counts.removed dev sent,
          counts.transmitted dev (reg ∷ value ∷ []) timeout_ms w1,
        ),
      )

-- The timer, as ESP-IDF documents it: it counts on from one reading to the next, here by at least one
-- and by less than 2 ^ 32 microseconds.
pub record Counting {H W : Type 0} (sdk : Sdk H W) (clock : W → ℕ) : Type 0 where
  pub reads : (w : W) → (sdk.esp_timer_get_time w).0 ≡ clock w % u64_mod
  pub advances : (w : W) → clock w < clock (sdk.esp_timer_get_time w).1
  pub steps : (w : W) → clock (sdk.esp_timer_get_time w).1 < clock w + 2 ^ 32

elapsed_time : (s d : ℕ) → d < u64_mod → ((s + d) % u64_mod + u64_mod - s % u64_mod) % u64_mod ≡ d
elapsed_time s d lt = omega arith

module _ {H W : Type 0} (sdk : Sdk H W) (clock : W → ℕ) (counting : Counting sdk clock) where
  -- The wait is over, and has been long enough.
  abbrev Waited : ℕ → Run W → Type 0
  Waited until r = (after : W) × (r ≡ done after) × (until < clock after)

  choose :
      (until : ℕ) (b : Bool) (w : W) (rest : Run W)
      → (b ≡ true → Waited until rest)
      → (b ≡ false → until < clock w)
      → Waited until (elim b [ false ↦ done w | true ↦ rest ])
  choose until true w rest more over = more refl
  choose until false w rest more over = (w, refl, over refl)

  wait_until-Waited :
      (fuel s d wait_us : ℕ) (w : W)
      → clock w ≡ s + d
      → d < wait_us + 2 ^ 32
      → wait_us + 2 ^ 32 < u64_mod
      → 0 < fuel
      → wait_us < fuel + d
      → Waited (s + wait_us) (wait_until sdk fuel (s % u64_mod) wait_us w)
  unfolding wait_until
  wait_until-Waited zero s d wait_us w at_d near small some_fuel enough = absurd (omega arith)
  wait_until-Waited (suc fuel) s d wait_us w at_d near small some_fuel enough =
      let w' = (sdk.esp_timer_get_time w).1 in
      let now : (sdk.esp_timer_get_time w).0 ≡ (s + d) % u64_mod =
        rw (counting.reads w, at_d) refl in
      let d' = clock w' - s in
      let same : ltb (((sdk.esp_timer_get_time w).0 + u64_mod - s % u64_mod) % u64_mod) wait_us
          ≡ ltb d wait_us =
        rw (now, elapsed_time s d (omega arith)) refl in
      choose (s + wait_us) _ w' _
        (λ more.
          wait_until-Waited fuel s d' wait_us w' (omega (arith, counting.advances w))
            (omega (arith, counting.steps w, ltb→lt d wait_us (sym same ∙ more))) small
            (omega (arith, ltb→lt d wait_us (sym same ∙ more)))
            (omega (arith, counting.advances w)))
        (λ over. omega (arith, counting.advances w, ltb→le d wait_us (sym same ∙ over)))

  -- The busy wait ends and is long enough: on a timer that counts on by at least one and less than
  -- 2 ^ 32 microseconds from reading to reading, `mb_hal_delay_ms` returns within as many rounds as
  -- it waits microseconds, and one more, and not before the time is over.
  pub delay_ms_lem :
      (fuel ms : ℕ) (w : W)
      → ms < 2 ^ 32
      → ms * 1000 < fuel
      → (after : W) × (delay_ms sdk fuel ms w ≡ done after) × (clock w + ms * 1000 < clock after)
  unfolding delay_ms
  delay_ms_lem fuel ms w word enough =
      let w' = (sdk.esp_timer_get_time w).1 in
      let ended =
        wait_until-Waited fuel (clock w) (clock w' - clock w) (ms * 1000) w'
          (omega (arith, counting.advances w)) (omega (arith, counting.steps w)) (omega arith)
          (omega arith) (omega arith) in
      rw (counting.reads w) ended

-- The duty fits the timer's 13 bits, grows with the request and is full at 1000 permille, and the
-- product of 32 bits does not wrap, for any request that `mb_hal_pwm_set_duty` does not refuse.
duty_of_bounds :
    (a b : ℕ)
    → a ≤ b
    → b ≤ 1000
    → (duty_of a ≤ duty_of b)
      × (duty_of b < 2 ^ 13)
      × (duty_of b ≡ b * 8191 / 1000)
      × (duty_of 1000 ≡ 2 ^ 13 - 1)
unfolding duty_of
duty_of_bounds a b le top = (omega arith, omega arith, omega arith, omega arith)
