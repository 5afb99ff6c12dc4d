-- ===== src/Command/Range.antt =====
-- Which commands the validation of src/mb_vm.c lets through, stated without its code: a command
-- of a known type with each argument in its range.
use os_ii.Prelude.{
  ℕ, ◌≡◌, refl, ◌⊎◌, ◌↔◌, ◌≤◌, arith, true, ◌&&◌, ℤ, pos, negsuc, pos_part, neg_part, leb_ℤ, inl,
  inr,
}
use os_ii.Status.{ok, bad_argument, invalid_command}
use os_ii.Command.{
  Command, validate_gpio_pin, validate_pwm_channel, validate_pwm_duty, validate_i2c_bus,
  validate_i2c_addr, validate_u8_value, validate_pwm_frequency, is_level, validate_command,
}

-- `v` is a number from `lo` to `hi`.
abbrev pub Within : ℕ → ℕ → ℤ → Type 0
Within lo hi v = (n : ℕ) × (v ≡ pos n) × (lo ≤ n) × (n ≤ hi)

-- The command table of the interface contract.
pub data Allowed : Command → Type 0 where
  none : (c : Command) → c.type ≡ pos 0 → Allowed c
  gpio_write : (c : Command) → c.type ≡ pos 1 → Within 0 39 c.a → Within 0 1 c.b → Allowed c
  pwm_set_duty : (c : Command) → c.type ≡ pos 2 → Within 0 7 c.a → Within 0 1000 c.b → Allowed c
  i2c_read :
      (c : Command)
      → c.type ≡ pos 3
      → Within 0 3 c.a
      → Within 0 127 c.b
      → Within 0 255 c.c
      → Allowed c
  gpio_read : (c : Command) → c.type ≡ pos 4 → Within 0 39 c.a → Allowed c
  i2c_write :
      (c : Command)
      → c.type ≡ pos 5
      → Within 0 3 c.a
      → Within 0 127 c.b
      → Within 0 255 c.c
      → Within 0 255 c.d
      → Allowed c
  pwm_config : (c : Command) → c.type ≡ pos 6 → Within 0 7 c.a → Within 1 40000 c.b → Allowed c

allowed→ok : {c : Command} → Allowed c → validate_command c ≡ ok
unfolding validate_command
allowed→ok (none c e) = ground arith
allowed→ok (gpio_write c e x y) = ground arith
allowed→ok (pwm_set_duty c e x y) = ground arith
allowed→ok (i2c_read c e x y z) = ground arith
allowed→ok (gpio_read c e x) = ground arith
allowed→ok (i2c_write c e x y z w) = ground arith
allowed→ok (pwm_config c e x y) = ground arith

-- An integer between two bounds, by the comparisons of the code, is a number between them.
bounds_of_leb : (lo hi : ℕ) (v : ℤ) → leb_ℤ (pos lo) v && leb_ℤ v (pos hi) ≡ true → Within lo hi v
bounds_of_leb lo hi (pos n) h = (n, refl, ground arith, ground arith)
bounds_of_leb lo hi (negsuc n) h = absurd (ground arith)

bounds_of_level : (v : ℤ) → is_level v ≡ true → Within 0 1 v
unfolding is_level
bounds_of_level (pos n) h = (n, refl, ground arith, ground arith)
bounds_of_level (negsuc n) h = absurd (ground arith)

-- What each branch of `mb_validate_command` has tested when it returns `MB_OK`.
abbrev Passed : Command → Type 0
Passed c =
    (c.type ≡ pos 0)
    ⊎ ((c.type ≡ pos 1) × (validate_gpio_pin c.a ≡ true) × (is_level c.b ≡ true))
    ⊎ ((c.type ≡ pos 2) × (validate_pwm_channel c.a ≡ true) × (validate_pwm_duty c.b ≡ true))
    ⊎ ((c.type ≡ pos 3)
        × (validate_i2c_bus c.a ≡ true)
        × (validate_i2c_addr c.b ≡ true)
        × (validate_u8_value c.c ≡ true))
    ⊎ ((c.type ≡ pos 4) × (validate_gpio_pin c.a ≡ true))
    ⊎ ((c.type ≡ pos 5)
        × (validate_i2c_bus c.a ≡ true)
        × (validate_i2c_addr c.b ≡ true)
        × (validate_u8_value c.c ≡ true)
        × (validate_u8_value c.d ≡ true))
    ⊎ ((c.type ≡ pos 6) × (validate_pwm_channel c.a ≡ true) × (validate_pwm_frequency c.b ≡ true))

ok→passed : (c : Command) → validate_command c ≡ ok → Passed c
unfolding validate_command
ok→passed c h = ground arith

passed→allowed : (c : Command) → Passed c → Allowed c
unfolding validate_gpio_pin validate_pwm_channel validate_pwm_duty validate_i2c_bus
    validate_i2c_addr validate_u8_value validate_pwm_frequency
passed→allowed c (inl e) = none c e
passed→allowed c (inr (inl (e, x, y))) =
    gpio_write c e (bounds_of_leb 0 39 c.a x) (bounds_of_level c.b y)
passed→allowed c (inr (inr (inl (e, x, y)))) =
    pwm_set_duty c e (bounds_of_leb 0 7 c.a x) (bounds_of_leb 0 1000 c.b y)
passed→allowed c (inr (inr (inr (inl (e, x, y, z))))) =
    i2c_read c e (bounds_of_leb 0 3 c.a x) (bounds_of_leb 0 127 c.b y) (bounds_of_leb 0 255 c.c z)
passed→allowed c (inr (inr (inr (inr (inl (e, x)))))) = gpio_read c e (bounds_of_leb 0 39 c.a x)
passed→allowed c (inr (inr (inr (inr (inr (inl (e, x, y, z, w))))))) =
    i2c_write c e (bounds_of_leb 0 3 c.a x) (bounds_of_leb 0 127 c.b y) (bounds_of_leb 0 255 c.c z)
      (bounds_of_leb 0 255 c.d w)
passed→allowed c (inr (inr (inr (inr (inr (inr (e, x, y))))))) =
    pwm_config c e (bounds_of_leb 0 7 c.a x) (bounds_of_leb 1 40000 c.b y)

three_results :
    (c : Command)
    → (validate_command c ≡ ok)
      ⊎ (validate_command c ≡ bad_argument)
      ⊎ (validate_command c ≡ invalid_command)
unfolding validate_command
three_results c = ground arith

type_parts : (v : ℤ) → Within 0 6 v → (neg_part v ≡ 0) × (pos_part v ≤ 6)
type_parts v (n, e, lo, hi) = rw e (refl, hi)

range_of_type : (v : ℤ) → neg_part v ≡ 0 → pos_part v ≤ 6 → Within 0 6 v
range_of_type (pos n) z h = (n, refl, omega arith, h)
range_of_type (negsuc n) z h = absurd (omega arith)

invalid→range :
    (c : Command)
    → validate_command c ≡ invalid_command
    → neg_part c.type ≡ 0
    → pos_part c.type ≤ 6
    → ⊥
unfolding validate_command
invalid→range c h z b = ground arith

range→invalid :
    (c : Command)
    → (neg_part c.type ≡ 0 → pos_part c.type ≤ 6 → ⊥)
    → validate_command c ≡ invalid_command
unfolding validate_command
range→invalid c h = ground arith

unknown_type : (c : Command) → (validate_command c ≡ invalid_command) ↔ ¬ Within 0 6 c.type
unknown_type c = (
  λ h w. let t = type_parts c.type w in invalid→range c h t.0 t.1,
  λ h. range→invalid c (λ z b. h (range_of_type c.type z b)),
)

-- `mb_validate_command` accepts exactly the commands of the table, and reports a command that it
-- does not accept as `MB_BAD_ARGUMENT` if its type is one of the seven, and as
-- `MB_INVALID_COMMAND` otherwise.
pub validate_command_lem :
    (c : Command)
    → ((validate_command c ≡ ok) ↔ Allowed c)
      × ((validate_command c ≡ invalid_command) ↔ ¬ Within 0 6 c.type)
      × ((validate_command c ≡ ok)
          ⊎ (validate_command c ≡ bad_argument)
          ⊎ (validate_command c ≡ invalid_command))
validate_command_lem c =
    ((λ h. passed→allowed c (ok→passed c h), allowed→ok), unknown_type c, three_results c)
