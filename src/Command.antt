-- ===== src/Command.antt =====
-- The commands of include/mb_types.h and the validation helpers of src/mb_vm.c
-- (both under erts/example/mini_beam_esp32).
pub mod Range
mod Examples
use os_ii.Prelude.{ℕ, Bool, true, false, ◌&&◌, ◌||◌, not, if◌then◌else◌, ℤ, pos, leb_ℤ, eq_ℤ}
use os_ii.Status.{Status, ok, bad_argument, invalid_command}

-- `mb_command_t`: five `int32_t` fields.
pub record Command : Type 0 where
  pub type : ℤ
  pub a : ℤ
  pub b : ℤ
  pub c : ℤ
  pub d : ℤ

-- `mb_command_type_t`
abbrev pub cmd_none : ℤ
cmd_none = pos 0

abbrev pub cmd_gpio_write : ℤ
cmd_gpio_write = pos 1

abbrev pub cmd_pwm_set_duty : ℤ
cmd_pwm_set_duty = pos 2

abbrev pub cmd_i2c_read : ℤ
cmd_i2c_read = pos 3

abbrev pub cmd_gpio_read : ℤ
cmd_gpio_read = pos 4

abbrev pub cmd_i2c_write : ℤ
cmd_i2c_write = pos 5

abbrev pub cmd_pwm_config : ℤ
cmd_pwm_config = pos 6

unfoldable pub validate_gpio_pin : ℤ → Bool
validate_gpio_pin pin = leb_ℤ (pos 0) pin && leb_ℤ pin (pos 39)

unfoldable pub validate_pwm_channel : ℤ → Bool
validate_pwm_channel channel = leb_ℤ (pos 0) channel && leb_ℤ channel (pos 7)

unfoldable pub validate_pwm_duty : ℤ → Bool
validate_pwm_duty permille = leb_ℤ (pos 0) permille && leb_ℤ permille (pos 1000)

unfoldable pub validate_i2c_bus : ℤ → Bool
validate_i2c_bus bus = leb_ℤ (pos 0) bus && leb_ℤ bus (pos 3)

unfoldable pub validate_i2c_addr : ℤ → Bool
validate_i2c_addr addr = leb_ℤ (pos 0) addr && leb_ℤ addr (pos 0x7f)

unfoldable pub validate_u8_value : ℤ → Bool
validate_u8_value value = leb_ℤ (pos 0) value && leb_ℤ value (pos 0xff)

unfoldable pub validate_pwm_frequency : ℤ → Bool
validate_pwm_frequency frequency_hz = leb_ℤ (pos 1) frequency_hz && leb_ℤ frequency_hz (pos 40000)

-- `(level == 0 || level == 1)`
unfoldable pub is_level : ℤ → Bool
is_level level = eq_ℤ level (pos 0) || eq_ℤ level (pos 1)

abbrev checked : Bool → Status
checked valid = if valid then ok else bad_argument

unfoldable pub validate_command : Command → Status
unfolding validate_gpio_pin validate_pwm_channel validate_pwm_duty validate_i2c_bus
    validate_i2c_addr validate_u8_value validate_pwm_frequency is_level
validate_command cmd =
    if eq_ℤ cmd.type cmd_none
    then ok
    else if eq_ℤ cmd.type cmd_gpio_write
    then checked (validate_gpio_pin cmd.a && is_level cmd.b)
    else if eq_ℤ cmd.type cmd_gpio_read
    then checked (validate_gpio_pin cmd.a)
    else if eq_ℤ cmd.type cmd_pwm_set_duty
    then checked (validate_pwm_channel cmd.a && validate_pwm_duty cmd.b)
    else if eq_ℤ cmd.type cmd_pwm_config
    then checked (validate_pwm_channel cmd.a && validate_pwm_frequency cmd.b)
    else if eq_ℤ cmd.type cmd_i2c_read
    then checked (validate_i2c_bus cmd.a && validate_i2c_addr cmd.b && validate_u8_value cmd.c)
    else if eq_ℤ cmd.type cmd_i2c_write
    then checked (
        validate_i2c_bus cmd.a
        && validate_i2c_addr cmd.b
        && validate_u8_value cmd.c
        && validate_u8_value cmd.d)
    else invalid_command
