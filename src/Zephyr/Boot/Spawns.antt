-- ===== src/Zephyr/Boot/Spawns.antt =====
-- The processes that `main` of zephyr_app/src/main.c (erts/example/mini_beam_esp32) spawns: there is room
-- for them, they are found, and they are safe.
use os_ii.Prelude.{ℕ, ◌+◌, ◌≤◌, ◌<◌, ◌≡◌, refl, arith, List, [], ◌∷◌, length, All, some}
use mathlib.Core.Path.{subst}
use os_ii.Process.{max_processes}
use os_ii.Table.{sched_proc}
use os_ii.Scheduler.{Scheduler, init, spawn}
use os_ii.Scheduler.Ends.{init-FitTable, spawn-FitTable}
use os_ii.Scheduler.Safe.{init-SafeTable, spawn-SafeTable}
use os_ii.Scheduler.Safe.Ticks.{SafeSched}
use os_ii.Scheduler.Filled.{Filled, init-Filled, Filled-sched_proc, spawn-Filled}
use os_ii.Vm.Safe.Tupleless.{NoTuples}
use os_ii.Zephyr.Boot.{spawn_sensors, spawn_flow}

-- The scheduler after `k` spawns of safe programs.
abbrev Stage : ℕ → Scheduler → Type 0
Stage k sched = SafeSched sched × Filled k sched.procs

init-Stage : Stage 0 init
init-Stage = ((init-FitTable, init-SafeTable), init-Filled)

spawn-Stage :
    (k : ℕ) (sched : Scheduler) (program : List ℕ)
    → k < max_processes
    → NoTuples program
    → Stage k sched
    → ((spawn sched program).0 ≡ k + 1) × Stage (k + 1) (spawn sched program).1
spawn-Stage k sched program lt tupleless ((fit, safe), f) =
    let (pid, f') = spawn-Filled k sched program fit.size lt f in
    (pid, ((spawn-FitTable sched program fit, spawn-SafeTable sched program tupleless safe), f'))

spawn_sensors-Stage :
    (k n : ℕ) (sched : Scheduler) (progs : List (List ℕ))
    → n ≡ k + length progs
    → n ≤ max_processes
    → All NoTuples progs
    → Stage k sched
    → Stage n (spawn_sensors sched progs).1
unfolding spawn_sensors
spawn_sensors-Stage k n sched [] e le tupleless st =
    let same : k ≡ n = omega arith in subst (λ x. Stage x sched) same st
spawn_sensors-Stage k n sched (prog ∷ progs) e le tupleless st =
    let (_, st') = spawn-Stage k sched prog (omega arith) tupleless.0 st in
    spawn_sensors-Stage (k + 1) n (spawn sched prog).1 progs (omega arith) le tupleless.1 st'

-- The pids of the first sensor's process and of the actuator's are found in the table.
pub record Placed (sensors : List (List ℕ)) (actuator : List ℕ) (pid : ℕ) (pids : List ℕ)
    : Type 0 where
  pub sensor : (spawn_flow sensors actuator).0 ≡ pid ∷ pids
  pub found : sched_proc (spawn_flow sensors actuator).2.procs pid ≡ some 0
  pub actuator_found :
      sched_proc (spawn_flow sensors actuator).2.procs (spawn_flow sensors actuator).1
      ≡ some (length sensors)
  pub safe : SafeSched (spawn_flow sensors actuator).2

pub spawn_flow-Placed :
    (sensor : List ℕ) (sensors : List (List ℕ)) (actuator : List ℕ)
    → length (sensor ∷ sensors) < max_processes
    → All NoTuples (sensor ∷ sensors)
    → NoTuples actuator
    → (pid : ℕ) × (pids : List ℕ) × Placed (sensor ∷ sensors) actuator pid pids
unfolding spawn_flow spawn_sensors
spawn_flow-Placed sensor sensors actuator lt tupleless tupleless' =
    let n = length (sensor ∷ sensors) in
    let (first, st) = spawn-Stage 0 init sensor (omega arith) tupleless.0 init-Stage in
    let sched1 = (spawn init sensor).1 in
    let st' = spawn_sensors-Stage 1 n sched1 sensors (omega arith) (omega arith) tupleless.1 st in
    let sched2 = (spawn_sensors sched1 sensors).1 in
    let (last, st'') = spawn-Stage n sched2 actuator lt tupleless' st' in
    let procs = (spawn sched2 actuator).1.procs in
    (
      (spawn init sensor).0,
      (spawn_sensors sched1 sensors).0,
      record {
        sensor = refl;
        found = rw first (Filled-sched_proc (n + 1) 0 procs st''.1 (omega arith) (omega arith));
        actuator_found =
            rw last (Filled-sched_proc (n + 1) n procs st''.1 (omega arith) (omega arith));
        safe = st''.0;
      },
    )
