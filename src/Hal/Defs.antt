-- ===== src/Hal/Defs.antt =====
-- include/mb_hal.h (erts/example/mini_beam_esp32): the hardware as the virtual machine sees it.
-- `W` is whatever the drivers read and change; a call returns its result and the world after it.
use os_ii.Prelude.{ℕ, ℤ}

pub record Hal (W : Type 0) : Type 0 where
  pub gpio_write : ℕ → ℕ → W → ℤ × W
  -- The status, and the level stored through `out_level`.
  pub gpio_read : ℕ → W → ℤ × ℕ × W
  pub pwm_set_duty : ℕ → ℕ → W → ℤ × W
  pub pwm_config : ℕ → ℕ → W → ℤ × W
  -- The status, and the byte stored through `out_value`.
  pub i2c_read_reg : ℕ → ℕ → ℕ → W → ℤ × ℕ × W
  pub i2c_write_reg : ℕ → ℕ → ℕ → ℕ → W → ℤ × W
  pub monotonic_ms : W → ℕ × W
  pub delay_ms : ℕ → W → W
