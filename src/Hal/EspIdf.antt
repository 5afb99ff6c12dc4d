-- ===== src/Hal/EspIdf.antt =====
-- src/mb_hal_espidf.c (erts/example/mini_beam_esp32): the drivers for ESP32 boards, on the calls of
-- ESP-IDF, which are parameters. What a read does not store stays 0, as its callers have set it. A
-- build without `MB_USE_ESP_IDF` has the drivers `Nrf52.absent`.
pub mod Laws
mod Tests
use os_ii.Prelude.{
  ℕ, zero, suc, ◌+◌, ◌-◌, ◌*◌, ◌/◌, ◌%◌, ◌^◌, ltb, ◌==◌, Bool, true, false, not, if◌then◌else◌,
  List, [], ◌∷◌, ℤ, pos, negsuc, to_u8, u32_mod,
}
use os_ii.Run.{Run, done, out_of_fuel}

abbrev pub esp_ok : ℕ
esp_ok = 0

-- `i2c_device_config_t`, as far as it differs from call to call.
pub record DeviceConfig : Type 0 where
  pub device_address : ℕ
  pub scl_speed_hz : ℕ

-- `ledc_timer_config_t`, likewise.
pub record TimerConfig : Type 0 where
  pub duty_resolution : ℕ
  pub timer_num : ℕ
  pub freq_hz : ℕ

-- The calls of ESP-IDF, each with its error code. `H` is the type of the handles of I2C devices.
pub record Sdk (H W : Type 0) : Type 0 where
  pub gpio_set_level : ℕ → ℕ → W → ℕ × W
  pub gpio_get_level : ℕ → W → ℤ × W
  pub ledc_set_duty : ℕ → ℕ → W → ℕ × W
  pub ledc_update_duty : ℕ → W → ℕ × W
  pub ledc_timer_config : TimerConfig → W → ℕ × W
  -- The bus, which the source makes of the bus number by a cast.
  pub i2c_master_bus_add_device : ℕ → DeviceConfig → W → ℕ × H × W
  pub i2c_master_bus_rm_device : H → W → ℕ × W
  -- The register to read, the timeout, and the byte that comes back.
  pub i2c_master_transmit_receive : H → ℕ → ℕ → W → ℕ × ℕ × W
  pub i2c_master_transmit : H → List ℕ → ℕ → W → ℕ × W
  -- Microseconds since the start, as an `int64_t` that is not negative.
  pub esp_timer_get_time : W → ℕ × W

-- `err == ESP_OK ? 0 : -1`
abbrev pub rc_of : ℕ → ℤ
rc_of err = if err == esp_ok then pos 0 else negsuc 0

abbrev device_at : ℕ → DeviceConfig
device_at addr = record { device_address = addr; scl_speed_hz = 400000 }

abbrev pub timeout_ms : ℕ
timeout_ms = 20

abbrev pub u64_mod : ℕ
u64_mod = 2 ^ 64

-- `(permille * 8191U) / 1000U`
unfoldable pub duty_of : ℕ → ℕ
duty_of permille = permille * 8191 % u32_mod / 1000

module _ {H W : Type 0} (sdk : Sdk H W) where
  unfoldable pub gpio_write : ℕ → ℕ → W → ℤ × W
  gpio_write pin level w =
      let (err, w') = sdk.gpio_set_level pin (if level == 0 then 0 else 1) w in (rc_of err, w')

  unfoldable pub gpio_read : ℕ → W → ℤ × ℕ × W
  gpio_read pin w = let (level, w') = sdk.gpio_get_level pin w in (pos 0, to_u8 level, w')

  unfoldable pub pwm_set_duty : ℕ → ℕ → W → ℤ × W
  pwm_set_duty channel permille w =
      if ltb 1000 permille
      then (negsuc 0, w)
      else let (set_err, w1) = sdk.ledc_set_duty channel (duty_of permille) w in
        if not (set_err == esp_ok)
        then (negsuc 0, w1)
        else let (err, w2) = sdk.ledc_update_duty channel w1 in (rc_of err, w2)

  unfoldable pub pwm_config : ℕ → ℕ → W → ℤ × W
  pwm_config channel frequency_hz w =
      let (err, w') =
        sdk.ledc_timer_config
          (record { duty_resolution = 13; timer_num = channel; freq_hz = frequency_hz }) w in
      (rc_of err, w')

  unfoldable pub i2c_read_reg : ℕ → ℕ → ℕ → W → ℤ × ℕ × W
  i2c_read_reg bus addr reg w =
      let (add_err, dev, w1) = sdk.i2c_master_bus_add_device bus (device_at addr) w in
      if not (add_err == esp_ok)
      then (negsuc 0, 0, w1)
      else let (err, value, w2) = sdk.i2c_master_transmit_receive dev reg timeout_ms w1 in
        (rc_of err, value, (sdk.i2c_master_bus_rm_device dev w2).1)

  unfoldable pub i2c_write_reg : ℕ → ℕ → ℕ → ℕ → W → ℤ × W
  i2c_write_reg bus addr reg value w =
      let (add_err, dev, w1) = sdk.i2c_master_bus_add_device bus (device_at addr) w in
      if not (add_err == esp_ok)
      then (negsuc 0, w1)
      else let (err, w2) = sdk.i2c_master_transmit dev (reg ∷ value ∷ []) timeout_ms w1 in
        (rc_of err, (sdk.i2c_master_bus_rm_device dev w2).1)

  unfoldable pub monotonic_ms : W → ℕ × W
  monotonic_ms w = let (us, w') = sdk.esp_timer_get_time w in (us / 1000 % u32_mod, w')

  -- `while ((esp_timer_get_time() - start) < wait_us) {}`, on fuel.
  unfoldable pub wait_until : ℕ → ℕ → ℕ → W → Run W
  wait_until zero start wait_us w = out_of_fuel
  wait_until (suc fuel) start wait_us w =
      let (now, w') = sdk.esp_timer_get_time w in
      elim (ltb ((now + u64_mod - start) % u64_mod) wait_us) [
        | false ↦ done w'
        | true ↦ wait_until fuel start wait_us w'
      ]

  unfoldable pub delay_ms : ℕ → ℕ → W → Run W
  delay_ms fuel ms w =
      let (start, w') = sdk.esp_timer_get_time w in wait_until fuel start (ms * 1000) w'
