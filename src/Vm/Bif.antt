-- ===== src/Vm/Bif.antt =====
-- `mb_call_bif` of src/mb_vm.c (erts/example/mini_beam_esp32): the built-in functions, one function
-- for each case. The result is the status that the C function returns.
use os_ii.Prelude.{
  ℕ, ◌==◌, ◌%◌, ◌||◌, not, if◌then◌else◌, List, length, get_elem?, ℤ, pos, eq_ℤ, to_u8, to_u32,
  to_i32,
}
use os_ii.BifNumber
use os_ii.Status.{Status, ok, bad_reg, bad_bif, bad_argc, bad_argument}
use os_ii.Run.{in_range}
use os_ii.Term.{make_smallint}
use os_ii.Command.{
  validate_gpio_pin, validate_pwm_channel, validate_pwm_duty, validate_i2c_bus, validate_i2c_addr,
  validate_u8_value, validate_pwm_frequency, is_level,
}
use os_ii.Hal.{Hal}
use os_ii.Machine.{Cmd, pure, drive, lift, ◌>>=◌, ◌>>◌, reg_int, set_reg, valid_reg}

module _ {W : Type 0} where
  -- `REG_INT(argv[i])`
  unfoldable pub arg_int : List ℕ → ℕ → Cmd W ℤ
  arg_int argv i = do r ← lift (in_range (get_elem? argv i)); reg_int r

  -- `proc->regs[dst] = MB_MAKE_SMALLINT(v); return MB_OK;`
  unfoldable pub answer : ℕ → ℤ → Cmd W Status
  answer dst v = do set_reg dst (make_smallint v); pure ok

-- `(rc == 0) ? (int32_t)value : rc`
unfoldable pub value_or_rc : ℤ × ℕ → ℤ
value_or_rc (rc, value) = if eq_ℤ rc (pos 0) then pos value else rc

module _ {W : Type 0} (hal : Hal W) where
  unfoldable pub bif_gpio_write : List ℕ → ℕ → Cmd W Status
  bif_gpio_write argv dst = if not (length argv == 2) then pure bad_argc else do
    pin ← arg_int argv 0
    level ← arg_int argv 1
    if not (validate_gpio_pin pin) || not (is_level level)
        then pure bad_argument
        else do rc ← drive (hal.gpio_write (to_u8 pin) (to_u8 level)); answer dst rc

  unfoldable pub bif_gpio_read : List ℕ → ℕ → Cmd W Status
  bif_gpio_read argv dst = if not (length argv == 1) then pure bad_argc else do
    pin ← arg_int argv 0
    if not (validate_gpio_pin pin) then pure bad_argument else do
      got ← drive (λ w. let (rc, level, w') = hal.gpio_read (to_u8 pin) w in ((rc, level), w'))
      answer dst (value_or_rc got)

  unfoldable pub bif_pwm_set_duty : List ℕ → ℕ → Cmd W Status
  bif_pwm_set_duty argv dst = if not (length argv == 2) then pure bad_argc else do
    ch ← arg_int argv 0
    duty ← arg_int argv 1
    if not (validate_pwm_channel ch) || not (validate_pwm_duty duty)
        then pure bad_argument
        else do rc ← drive (hal.pwm_set_duty (to_u8 ch) (to_u32 duty % 65536)); answer dst rc

  unfoldable pub bif_pwm_config : List ℕ → ℕ → Cmd W Status
  bif_pwm_config argv dst = if not (length argv == 2) then pure bad_argc else do
    ch ← arg_int argv 0
    freq ← arg_int argv 1
    if not (validate_pwm_channel ch) || not (validate_pwm_frequency freq)
        then pure bad_argument
        else do rc ← drive (hal.pwm_config (to_u8 ch) (to_u32 freq)); answer dst rc

  unfoldable pub bif_i2c_read_reg : List ℕ → ℕ → Cmd W Status
  bif_i2c_read_reg argv dst = if not (length argv == 3) then pure bad_argc else do
    bus ← arg_int argv 0
    addr ← arg_int argv 1
    r ← arg_int argv 2
    if not (validate_i2c_bus bus) || not (validate_i2c_addr addr) || not (validate_u8_value r)
        then pure bad_argument
        else do
          got ← drive (λ w.
              let (rc, value, w') = hal.i2c_read_reg (to_u8 bus) (to_u8 addr) (to_u8 r) w in
              ((rc, value), w'))
          answer dst (value_or_rc got)

  unfoldable pub bif_i2c_write_reg : List ℕ → ℕ → Cmd W Status
  bif_i2c_write_reg argv dst = if not (length argv == 4) then pure bad_argc else do
    bus ← arg_int argv 0
    addr ← arg_int argv 1
    r ← arg_int argv 2
    val ← arg_int argv 3
    if not (validate_i2c_bus bus)
          || not (validate_i2c_addr addr)
          || not (validate_u8_value r)
          || not (validate_u8_value val)
        then pure bad_argument
        else do
          rc ← drive (hal.i2c_write_reg (to_u8 bus) (to_u8 addr) (to_u8 r) (to_u8 val))
          answer dst rc

  unfoldable pub bif_monotonic_ms : List ℕ → ℕ → Cmd W Status
  bif_monotonic_ms argv dst =
      if not (length argv == 0)
      then pure bad_argc
      else do now ← drive hal.monotonic_ms; answer dst (to_i32 now)

  -- `argv` holds the `argc` registers; a destination out of range is reported before all else.
  unfoldable pub call_bif : ℕ → List ℕ → ℕ → Cmd W Status
  call_bif bif argv dst =
      if not (valid_reg dst)
      then pure bad_reg
      else if bif == BifNumber.gpio_write
      then bif_gpio_write argv dst
      else if bif == BifNumber.gpio_read
      then bif_gpio_read argv dst
      else if bif == BifNumber.pwm_set_duty
      then bif_pwm_set_duty argv dst
      else if bif == BifNumber.pwm_config
      then bif_pwm_config argv dst
      else if bif == BifNumber.i2c_read_reg
      then bif_i2c_read_reg argv dst
      else if bif == BifNumber.i2c_write_reg
      then bif_i2c_write_reg argv dst
      else if bif == BifNumber.monotonic_ms
      then bif_monotonic_ms argv dst
      else pure bad_bif
