-- ===== src/Demos/Flow.antt =====
-- src/main_flow_host.c (erts/example/mini_beam_esp32): the two programs that the flow compiler writes,
-- which are parameters, under the scheduler of the host. What it prints is left out.
use os_ii.Prelude.{ℕ, ◌+◌, ◌==◌, if◌then◌else◌, List, pos, Option, none, some}
use os_ii.Run.{Run, done, ◌>>=◌}
use os_ii.Term.{get_smallint}
use os_ii.Hal.{Hal}
use os_ii.Scheduler.{Scheduler, init, spawn}
use os_ii.Regression.Check.{check_int, check_num, proc_at, reg_of}
use os_ii.Demos.Multiproc.{tick_while}

-- The checks of the actuator after the loop, with those of the pids.
unfoldable pub flow_checks : ℕ → ℕ → Scheduler → Run ℕ
flow_checks pid_sensor pid_actuator sched = do
  ps ← proc_at sched pid_sensor
  pa ← proc_at sched pid_actuator
  s7 ← reg_of ps 7
  s9 ← reg_of ps 9
  a0 ← reg_of pa 0
  a1 ← reg_of pa 1
  a2 ← reg_of pa 2
  a5 ← reg_of pa 5
  done (
      check_num 1 pid_sensor
      + check_num 2 pid_actuator
      + check_int (pos 2) (get_smallint a0)
      + check_int (pos 0) (get_smallint a1)
      + check_int (pos 170) (get_smallint a2))

unfoldable pub flow_status : ℕ → ℕ → Option Scheduler → Run ℕ
flow_status pid_sensor pid_actuator none = done 1
flow_status pid_sensor pid_actuator (some sched) =
    flow_checks pid_sensor pid_actuator sched >>= λ failures. done (if failures == 0 then 0 else 1)

-- `main`: its exit status.
unfoldable pub flow_host : {W : Type 0} → Hal W → List ℕ → List ℕ → W → Run ℕ
flow_host hal sensor_prog actuator_prog w =
    let (pid_sensor, sched_s) = spawn init sensor_prog in
    let (pid_actuator, sched) = spawn sched_s actuator_prog in
    tick_while hal 200 sched w >>= λ end. flow_status pid_sensor pid_actuator end
