-- ===== src/Command/Examples.antt =====
-- The validation of a concrete command.
use os_ii.Prelude.{◌≡◌, ◌⊎◌, ◌↔◌, pos}
use os_ii.Status.{ok, bad_argument, invalid_command}
use os_ii.Command.{Command, validate_command}
use os_ii.Command.Range.{Within, Allowed, validate_command_lem}

abbrev fast_pwm : Command
fast_pwm = record { type = pos 6; a = pos 7; b = pos 40000; c = pos 0; d = pos 0 }

validate_command_lem_example :
    ((validate_command fast_pwm ≡ ok) ↔ Allowed fast_pwm)
    × ((validate_command fast_pwm ≡ invalid_command) ↔ ¬ Within 0 6 (pos 6))
    × ((validate_command fast_pwm ≡ ok)
        ⊎ (validate_command fast_pwm ≡ bad_argument)
        ⊎ (validate_command fast_pwm ≡ invalid_command))
validate_command_lem_example = validate_command_lem fast_pwm
