-- ===== src/Hal/Board.antt =====
-- A board behind the interface of include/mb_hal.h (erts/example/mini_beam_esp32), for runs on it.
use os_ii.Prelude.{ℕ, ◌+◌, pos}
use os_ii.Hal.Defs.{Hal}

-- A board whose clock counts its readings and whose sensors all read 7.
abbrev pub board : Hal ℕ
board = record {
  gpio_write = λ pin level w. (pos 0, w);
  gpio_read = λ pin w. (pos 0, 1, w);
  pwm_set_duty = λ channel permille w. (pos 0, w + 1000);
  pwm_config = λ channel hz w. (pos 0, w);
  i2c_read_reg = λ bus addr reg w. (pos 0, 7, w);
  i2c_write_reg = λ bus addr reg value w. (pos 0, w);
  monotonic_ms = λ w. (w, w + 1);
  delay_ms = λ ms w. w + ms;
}
