-- ===== src/BifNumber.antt =====
-- `mb_bif_t` of erts/example/mini_beam_esp32/include/mb_vm.h.
use os_ii.Prelude.{ℕ}

abbrev pub gpio_write : ℕ
gpio_write = 1

abbrev pub pwm_set_duty : ℕ
pwm_set_duty = 2

abbrev pub i2c_read_reg : ℕ
i2c_read_reg = 3

abbrev pub monotonic_ms : ℕ
monotonic_ms = 4

abbrev pub gpio_read : ℕ
gpio_read = 5

abbrev pub i2c_write_reg : ℕ
i2c_write_reg = 6

abbrev pub pwm_config : ℕ
pwm_config = 7
