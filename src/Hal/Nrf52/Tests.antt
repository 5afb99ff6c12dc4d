-- ===== src/Hal/Nrf52/Tests.antt =====
-- The drivers of src/mb_hal_nrf52.c (erts/example/mini_beam_esp32) on a board that keeps the periods of
-- its two channels.
use os_ii.Prelude.{ℕ, ◌/◌, ◌<◌, ◌≡◌, refl, arith, true, false, pos, ◌==◌, if◌then◌else◌}
use os_ii.Hal.Nrf52.{DeviceTree, Sdk, pwm_set_duty, pwm_config}
use os_ii.Hal.Nrf52.Pwm.{SetsPeriod, pwm_set_duty-pwm_config}

abbrev nano33 : DeviceTree
nano33 = record { has_led0 = true; has_pwm0 = true; has_i2c0 = true; has_i2c1 = false }

-- The world is the period of every channel.
abbrev device : Sdk (ℕ → ℕ)
device = record {
  device_is_ready = λ dev w. true;
  gpio_pin_configure_dt = λ flags w. (pos 0, w);
  gpio_pin_set_dt = λ level w. (pos 0, w);
  gpio_pin_get_dt = λ w. (pos 1, w);
  pwm_set = λ channel period pulse w. (pos 0, λ c. if c == channel then period else w c);
  i2c_write_read = λ dev addr reg w. (pos 0, 7, w);
  i2c_write = λ dev tx addr w. (pos 0, w);
  k_uptime_get_32 = λ w. (0, w);
  k_msleep = λ ms w. w;
}

device-SetsPeriod : SetsPeriod device (λ channel w. w channel)
device-SetsPeriod = record { sets = λ channel p pulse w e. ground arith }

abbrev silent : ℕ → ℕ
silent c = 0

configured : (pwm_config nano33 device 2 1000 silent).0 ≡ pos 0
unfolding pwm_config
configured = refl

set_again : (pwm_set_duty nano33 device 2 500 (pwm_config nano33 device 2 1000 silent).1).0 ≡ pos 0
unfolding pwm_set_duty pwm_config
set_again = refl

pwm_set_duty-pwm_config_example :
    let after = (pwm_config nano33 device 2 1000 silent).1 in
    (after 2 ≡ 1000000000 / 1000)
    × ((pwm_set_duty nano33 device 2 500 after).1 2 ≡ 20000)
    × (20000 < after 2)
pwm_set_duty-pwm_config_example =
    pwm_set_duty-pwm_config nano33 device (λ channel w. w channel) device-SetsPeriod 2 1000 500
      silent (omega arith) configured set_again
