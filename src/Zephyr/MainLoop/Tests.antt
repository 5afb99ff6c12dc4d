-- ===== src/Zephyr/MainLoop/Tests.antt =====
-- A round of the loop of `main` in zephyr_app/src/main.c (erts/example/mini_beam_esp32) on the
-- scheduler that it has booted, with the flow compiler's programs.
use os_ii.Prelude.{ℕ, ◌+◌, ◌≡◌, refl, arith, [], ◌∷◌, pos, ℤ}
use os_ii.Run.{Gives}
use os_ii.Process.{init as proc_init}
use os_ii.Scheduler.{init, spawn, first_free}
use os_ii.Scheduler.Reach.{Reached, started, spawned}
use os_ii.Hal.Board.{board}
use os_ii.Zephyr.Flow.{sensor_prog_1, sensor_progs, actuator_prog}
use os_ii.Zephyr.Boot.{spawn_sensors, spawn_flow}
use os_ii.Zephyr.MainLoop.{Loop, fresh, round}
use os_ii.Zephyr.MainLoop.Tally.{Tallied, GoesOn, round-Tallied}

-- The pid that the sensors' programs send to is the actuator's.
flow_pids : (spawn_flow sensor_progs actuator_prog).0 ≡ 1 ∷ 2 ∷ 3 ∷ 4 ∷ []
unfolding spawn_flow spawn_sensors spawn init first_free proc_init
flow_pids = refl

flow_actuator : (spawn_flow sensor_progs actuator_prog).1 ≡ 5
unfolding spawn_flow spawn_sensors spawn init first_free proc_init
flow_actuator = refl

abbrev booted : Loop ℕ
booted = record {
  sched = (spawn (spawn init sensor_prog_1).1 actuator_prog).1;
  telemetry = fresh;
  world = 0;
}

booted-Reached : Reached board booted.sched
booted-Reached = spawned actuator_prog (spawned sensor_prog_1 started)

fresh-Tallied : Tallied fresh
fresh-Tallied = record {
  outcomes = omega arith;
  events = omega arith;
  a_depth = omega arith;
  s_depth = omega arith;
}

abbrev uptime : ℕ → ℕ × ℕ
uptime w = (w, w + 1)

abbrev fed : ℕ → ℤ × ℕ
fed w = (pos 0, w)

round-Tallied_example : Gives ⊥ (GoesOn board uptime fed 1 0) (round board uptime fed 1 0 65 booted)
round-Tallied_example =
    round-Tallied board uptime fed 1 0 65 booted booted-Reached fresh-Tallied (omega arith)
      (omega arith)
