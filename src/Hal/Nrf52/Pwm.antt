-- ===== src/Hal/Nrf52/Pwm.antt =====
-- The two pulse-width calls of src/mb_hal_nrf52.c (erts/example/mini_beam_esp32) together.
use os_ii.Prelude.{
  ℕ, ◌*◌, ◌/◌, ◌%◌, ◌≤◌, ◌<◌, ◌≡◌, arith, ltb, ltb→le, Bool-cases, inl, inr, ℤ, pos, u32_mod,
}
use native.Mathlib.Nat.{le-div_iff_mul-le}
use os_ii.Hal.Nrf52.{DeviceTree, Sdk, period_ns, pwm_set_duty, pwm_config}

-- The period of a channel, as Zephyr documents `pwm_set`: a call that returns 0 has set it.
pub record SetsPeriod {W : Type 0} (sdk : Sdk W) (period : ℕ → W → ℕ) : Type 0 where
  pub sets :
      (channel p pulse : ℕ) (w : W)
      → (sdk.pwm_set channel p pulse w).0 ≡ pos 0
      → period channel (sdk.pwm_set channel p pulse w).1 ≡ p

-- A duty that is accepted asks for a pulse inside the period, `permille` thousandths of it.
abbrev Asked : {W : Type 0} → Sdk W → ℕ → ℕ → W → ℤ × W → Type 0
Asked sdk channel permille w r =
    (r ≡ sdk.pwm_set channel period_ns (permille * 20) w) × (permille * 20 ≤ period_ns)

module _ {W : Type 0} (dts : DeviceTree) (sdk : Sdk W) where
  pwm_set_duty-Asked :
      (channel permille : ℕ) (w : W)
      → (pwm_set_duty dts sdk channel permille w).0 ≡ pos 0
      → Asked sdk channel permille w (pwm_set_duty dts sdk channel permille w)
  unfolding pwm_set_duty
  pwm_set_duty-Asked channel permille w e = elim (Bool-cases (ltb 1000 permille)) [
    | inl above ↦ absurd (ground arith)
    | inr within ↦
        let top : permille ≤ 1000 = ltb→le 1000 permille within in
        let scaled : period_ns * permille % u32_mod / 1000 ≡ permille * 20 = omega arith in
        ground arith
  ]

  -- A frequency that is accepted is not 0, and asks for its period.
  pwm_config-Asked :
      (channel frequency_hz : ℕ) (w : W)
      → (pwm_config dts sdk channel frequency_hz w).0 ≡ pos 0
      → (pwm_config dts sdk channel frequency_hz w
          ≡ sdk.pwm_set channel (1000000000 / frequency_hz) 0 w)
        × (0 < frequency_hz)
  unfolding pwm_config
  pwm_config-Asked channel frequency_hz w e = ground arith

module _ {W : Type 0} (dts : DeviceTree) (sdk : Sdk W) (period : ℕ → W → ℕ)
    (sets : SetsPeriod sdk period) where
  -- A configured frequency does not survive the next duty: where both calls return 0 and the frequency
  -- is at most 40000, as the interpreter requires, the channel has the period of that frequency after
  -- the first, and the shorter one of 20000 nanoseconds after the second, whatever the frequency, if
  -- `pwm_set` sets the period where it returns 0.
  pub pwm_set_duty-pwm_config :
      (channel frequency_hz permille : ℕ) (w : W)
      → let configured = (pwm_config dts sdk channel frequency_hz w).1 in
        frequency_hz ≤ 40000
        → (pwm_config dts sdk channel frequency_hz w).0 ≡ pos 0
        → (pwm_set_duty dts sdk channel permille configured).0 ≡ pos 0
        → (period channel configured ≡ 1000000000 / frequency_hz)
          × (period channel (pwm_set_duty dts sdk channel permille configured).1 ≡ 20000)
          × (20000 < period channel configured)
  pwm_set_duty-pwm_config channel frequency_hz permille w le first second =
      let configured = (pwm_config dts sdk channel frequency_hz w).1 in
      let asked = pwm_config-Asked dts sdk channel frequency_hz w first in
      let again = (pwm_set_duty-Asked dts sdk channel permille configured second).0 in
      let kept : period channel configured ≡ 1000000000 / frequency_hz =
        rw asked.0 (sets.sets channel (1000000000 / frequency_hz) 0 w (rw asked.0 at first)) in
      (
        kept,
        rw again (sets.sets channel period_ns (permille * 20) configured (rw again at second)),
        rw kept ((le-div_iff_mul-le {x = 20001} asked.1).1 (omega arith)),
      )
