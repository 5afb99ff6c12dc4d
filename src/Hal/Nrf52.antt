-- ===== src/Hal/Nrf52.antt =====
-- src/mb_hal_nrf52.c (erts/example/mini_beam_esp32): the drivers for nRF52 boards under Zephyr, whose
-- calls are parameters. What a read does not store stays 0, as its callers have set it.
pub mod Pwm
mod Tests
use os_ii.Prelude.{
  is_zero, is_negative, ℕ, ◌*◌, ◌/◌, ◌%◌, ltb, ◌==◌, Bool, true, false, ◌||◌, not, if◌then◌else◌,
  List, [], ◌∷◌, Option, none, some, ℤ, pos, negsuc, to_u8, u32_mod, zero,
}
use os_ii.Hal.Defs.{Hal}

-- The device tree nodes that the drivers use.
pub data Device : Type 0 where
  led0 pwm0 i2c0 i2c1 : Device

pub data PinFlags : Type 0 where
  gpio_output_inactive gpio_input : PinFlags

-- The nodes that the device tree has, as the preprocessor asks for them.
pub record DeviceTree : Type 0 where
  pub has_led0 : Bool
  pub has_pwm0 : Bool
  pub has_i2c0 : Bool
  pub has_i2c1 : Bool

-- The calls of Zephyr. `i2c_write_read` gives the byte that it reads.
pub record Sdk (W : Type 0) : Type 0 where
  pub device_is_ready : Device → W → Bool
  pub gpio_pin_configure_dt : PinFlags → W → ℤ × W
  pub gpio_pin_set_dt : ℕ → W → ℤ × W
  pub gpio_pin_get_dt : W → ℤ × W
  -- The channel, the period and the pulse in nanoseconds.
  pub pwm_set : ℕ → ℕ → ℕ → W → ℤ × W
  pub i2c_write_read : Device → ℕ → ℕ → W → ℤ × ℕ × W
  pub i2c_write : Device → List ℕ → ℕ → W → ℤ × W
  pub k_uptime_get_32 : W → ℕ × W
  pub k_msleep : ℕ → W → W

abbrev pub error : ℤ
error = negsuc 0

abbrev pub period_ns : ℕ
period_ns = 20000

module _ {W : Type 0} (dts : DeviceTree) (sdk : Sdk W) where
  -- `mb_get_i2c_bus`: `none` is `NULL`.
  unfoldable pub get_i2c_bus : ℕ → W → Option Device
  get_i2c_bus bus w =
      if bus == 0
      then (if dts.has_i2c0 then (if sdk.device_is_ready i2c0 w then some i2c0 else none) else none)
      else if bus == 1
      then (if dts.has_i2c1 then (if sdk.device_is_ready i2c1 w then some i2c1 else none) else none)
      else none

  unfoldable pub gpio_write : ℕ → ℕ → W → ℤ × W
  gpio_write pin level w =
      if not dts.has_led0
      then (error, w)
      else if not (pin == 0) || not (sdk.device_is_ready led0 w)
      then (error, w)
      else let (err, w') = sdk.gpio_pin_configure_dt gpio_output_inactive w in
        if not (is_zero err)
        then (error, w')
        else sdk.gpio_pin_set_dt (if level == 0 then 0 else 1) w'

  -- The level that `gpio_pin_get_dt` returned, where that is not an error.
  unfoldable pub level_read : ℤ × W → ℤ × ℕ × W
  level_read (value, w) = if is_negative value then (error, 0, w) else (pos 0, to_u8 value, w)

  unfoldable pub gpio_read : ℕ → W → ℤ × ℕ × W
  gpio_read pin w =
      if not dts.has_led0
      then (error, 0, w)
      else if not (pin == 0) || not (sdk.device_is_ready led0 w)
      then (error, 0, w)
      else let (err, w') = sdk.gpio_pin_configure_dt gpio_input w in
        if not (is_zero err) then (error, 0, w') else level_read (sdk.gpio_pin_get_dt w')

  unfoldable pub pwm_set_duty : ℕ → ℕ → W → ℤ × W
  pwm_set_duty channel permille w =
      if not dts.has_pwm0
      then (error, w)
      else if not (sdk.device_is_ready pwm0 w) || ltb 1000 permille
      then (error, w)
      else sdk.pwm_set channel period_ns (period_ns * permille % u32_mod / 1000) w

  unfoldable pub pwm_config : ℕ → ℕ → W → ℤ × W
  pwm_config channel frequency_hz w =
      if not dts.has_pwm0
      then (error, w)
      else if (frequency_hz == 0) || not (sdk.device_is_ready pwm0 w)
      then (error, w)
      else sdk.pwm_set channel (1000000000 / frequency_hz) 0 w

  unfoldable pub i2c_read_reg : ℕ → ℕ → ℕ → W → ℤ × ℕ × W
  i2c_read_reg bus addr reg w =
      if not (dts.has_i2c0 || dts.has_i2c1) then (error, 0, w) else elim (get_i2c_bus bus w) [
        | none ↦ (error, 0, w)
        | some i2c_dev ↦ sdk.i2c_write_read i2c_dev addr reg w
      ]

  unfoldable pub i2c_write_reg : ℕ → ℕ → ℕ → ℕ → W → ℤ × W
  i2c_write_reg bus addr reg value w =
      if not (dts.has_i2c0 || dts.has_i2c1) then (error, w) else elim (get_i2c_bus bus w) [
        | none ↦ (error, w)
        | some i2c_dev ↦ sdk.i2c_write i2c_dev (reg ∷ value ∷ []) addr w
      ]

  -- The drivers of a build with `MB_USE_NRF52`.
  unfoldable pub nrf52 : Hal W
  nrf52 = record {
    gpio_write = gpio_write;
    gpio_read = gpio_read;
    pwm_set_duty = pwm_set_duty;
    pwm_config = pwm_config;
    i2c_read_reg = i2c_read_reg;
    i2c_write_reg = i2c_write_reg;
    monotonic_ms = sdk.k_uptime_get_32;
    delay_ms = sdk.k_msleep;
  }

-- The drivers of a build without it.
abbrev pub absent : {W : Type 0} → Hal W
absent = record {
  gpio_write = λ pin level w. (error, w);
  gpio_read = λ pin w. (error, 0, w);
  pwm_set_duty = λ channel permille w. (error, w);
  pwm_config = λ channel frequency_hz w. (error, w);
  i2c_read_reg = λ bus addr reg w. (error, 0, w);
  i2c_write_reg = λ bus addr reg value w. (error, w);
  monotonic_ms = λ w. (0, w);
  delay_ms = λ ms w. w;
}
