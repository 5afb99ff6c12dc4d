-- ===== src/Zephyr/Boot/Wait.antt =====
-- The wait for a terminal in `main` of zephyr_app/src/main.c (erts/example/mini_beam_esp32) ends.
use os_ii.Prelude.{ℕ, zero, suc, ◌+◌, ◌*◌, ◌<◌, ◌≡◌, refl, arith, ltb, ltb→lt, Bool, true, false}
use os_ii.Run.{Run, done}
use os_ii.Zephyr.Boot.{wait_dtr}

module _ {W : Type 0} (line_ctrl : W → Bool × W) (k_msleep : ℕ → W → W) where
  abbrev Ends : Run W → Type 0
  Ends r = (after : W) × (r ≡ done after)

  choose :
      (c dtr : Bool) (w w' : W) (rest : Run W)
      → (c ≡ true → Ends rest)
      → Ends (elim c [ false ↦ done w | true ↦ elim dtr [ true ↦ done w' | false ↦ rest ] ])
  choose false dtr w w' rest h = (w, refl)
  choose true true w w' rest h = (w', refl)
  choose true false w w' rest h = h refl

  -- The wait for a terminal ends, whether one comes or not: given more than no round, and 100
  -- milliseconds for each of them that reach, with the time waited already, at least 3100, it returns.
  pub wait_dtr_lem :
      (fuel wait_ms : ℕ) (w : W)
      → 0 < fuel
      → 3099 < wait_ms + 100 * fuel
      → (after : W) × (wait_dtr line_ctrl k_msleep fuel wait_ms w ≡ done after)
  unfolding wait_dtr
  wait_dtr_lem zero wait_ms w some_fuel enough = absurd (omega arith)
  wait_dtr_lem (suc fuel) wait_ms w some_fuel enough =
      choose (ltb wait_ms 3000) (line_ctrl w).0 w (line_ctrl w).1 _ λ more.
        let lt : wait_ms < 3000 = ltb→lt wait_ms 3000 more in
        wait_dtr_lem fuel (wait_ms + 100) (k_msleep 100 (line_ctrl w).1) (omega arith) (omega arith)
