-- ===== src/Hal/Stub.antt =====
-- src/mb_hal_stub.c (erts/example/mini_beam_esp32): the drivers of the host build. The clock and
-- the sleep of the operating system are parameters; what is printed is the record of calls.
use Prim.Native.Nat.{bit_xor, bit_and}
use os_ii.Prelude.{
  ℕ, ◌+◌, ◌*◌, ◌/◌, ◌%◌, ltb, ◌==◌, ◌||◌, if◌then◌else◌, List, ◌∷◌, pos, negsuc, u32_mod,
}
use os_ii.Hal.Defs.{Hal}

-- A line that a driver prints.
pub data Printed : Type 0 where
  gpio_write : ℕ → ℕ → Printed
  gpio_read : ℕ → ℕ → Printed
  pwm_set_duty : ℕ → ℕ → Printed
  pwm_config : ℕ → ℕ → Printed
  i2c_read : ℕ → ℕ → ℕ → ℕ → Printed
  i2c_write : ℕ → ℕ → ℕ → ℕ → Printed

-- `struct timespec`
pub record Timespec : Type 0 where
  pub tv_sec : ℕ
  pub tv_nsec : ℕ

-- The lines printed so far, the latest first, and the host's clock.
pub record Host : Type 0 where
  pub printed : List Printed
  pub now : Timespec

abbrev print : Printed → Host → Host
print line w = record w { printed = line ∷ w.printed }

-- `clock_gettime` reads the clock, which may have moved on; `nanosleep` waits for a time.
module _ (clock_gettime : Timespec → Timespec) (nanosleep : Timespec → Timespec → Timespec) where
  unfoldable pub stub : Hal Host
  stub = record {
    gpio_write = λ pin level w. (pos 0, print (Printed.gpio_write pin level) w);
    gpio_read =
        λ pin w. let level = bit_and pin 1 in (pos 0, level, print (Printed.gpio_read pin level) w);
    pwm_set_duty = λ channel permille w.
        if ltb 1000 permille
        then (negsuc 0, w)
        else (pos 0, print (Printed.pwm_set_duty channel permille) w);
    pwm_config = λ channel frequency_hz w.
        if (frequency_hz == 0) || ltb 40000 frequency_hz
        then (negsuc 0, w)
        else (pos 0, print (Printed.pwm_config channel frequency_hz) w);
    i2c_read_reg = λ bus addr reg w.
        let synthetic = bit_xor (bit_xor addr reg) bus % 256 in
        (pos 0, synthetic, print (Printed.i2c_read bus addr reg synthetic) w);
    i2c_write_reg = λ bus addr reg value w. (pos 0, print (Printed.i2c_write bus addr reg value) w);
    monotonic_ms = λ w.
        let ts = clock_gettime w.now in
        ((ts.tv_sec * 1000 + ts.tv_nsec / 1000000) % u32_mod, record w { now = ts });
    delay_ms = λ ms w. record w {
      now = nanosleep (record { tv_sec = ms / 1000; tv_nsec = ms % 1000 * 1000000 }) (w.now);
    };
  }
