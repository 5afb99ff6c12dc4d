-- ===== src/Zephyr/Main/Tests.antt =====
-- `main` of zephyr_app/src/main.c (erts/example/mini_beam_esp32) with the flow compiler's programs, on a
-- board whose bus answers nothing and whose terminal is there.
use os_ii.Prelude.{ℕ, ◌+◌, ◌≡◌, refl, [], ◌∷◌, arith, pos, true, false}
use os_ii.Run.{Gives, done}
use os_ii.Hal.Board.{board}
use os_ii.Zephyr.Flow.{
  sensor_prog_1, sensor_prog_2, sensor_prog_3, sensor_prog_4, sensor_progs, actuator_prog,
}
use os_ii.Zephyr.Boot.{Board}
use os_ii.Zephyr.Scan.{timed_out}
use os_ii.Zephyr.Main.{Platform, main}
use os_ii.Vm.Safe.Tupleless.{tupleless-NoTuples}
use os_ii.Zephyr.MainLoop.{Next}
use os_ii.Zephyr.Main.Returns.{main-Returns}
use os_ii.Zephyr.Main.Steps.{Keeps, main-Keeps}

abbrev quiet : Platform ℕ
quiet = record {
  usb_enable = λ w. (pos 0, w);
  line_ctrl = λ w. (true, w);
  k_msleep = λ ms w. w + ms;
  power = λ w. record { gpregret = 0; gpregret2 = 0 };
  set_power = λ p w. w;
  resetreas = λ w. 4;
  set_resetreas = λ r w. w;
  task_wdt_init = λ w. (pos 0, w);
  task_wdt_add = λ ms w. (pos 3, w);
  task_wdt_feed = λ w. (pos 0, w);
  clear_trace = λ w. w;
  pin_ready = λ p w. true;
  pin_configure = λ p w. (pos 0, w);
  probes = λ w. ((λ s. timed_out), w);
  uptime = λ w. (w, w + 1);
}

abbrev nano : Board
nano = record {
  has_vdd_env_en = true;
  has_i2c_pullup = true;
  has_mic_pwr_en = false;
  has_i2c0 = true;
  has_i2c1 = true;
}

main-Keeps_example :
    Gives ⊥ (Keeps board quiet) (main quiet board 1000 nano sensor_progs actuator_prog 0)
main-Keeps_example = main-Keeps board quiet 1000 nano sensor_progs actuator_prog 0 (omega arith)

main-Returns_example :
    (end : Next ℕ) × (main quiet board 1000 nano sensor_progs actuator_prog 0 ≡ done end)
    × Keeps board quiet end
main-Returns_example =
    main-Returns board quiet 1000 nano sensor_prog_1
      (sensor_prog_2 ∷ sensor_prog_3 ∷ sensor_prog_4 ∷ []) actuator_prog 0 (omega arith)
      (
        tupleless-NoTuples sensor_prog_1 refl,
        (
          tupleless-NoTuples sensor_prog_2 refl,
          (tupleless-NoTuples sensor_prog_3 refl, (tupleless-NoTuples sensor_prog_4 refl, tt)),
        ),
      )
      (tupleless-NoTuples actuator_prog refl) (omega arith)
