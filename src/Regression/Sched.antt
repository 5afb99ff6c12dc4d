-- ===== src/Regression/Sched.antt =====
-- The tests of the scheduler in src/main_regression_host.c (erts/example/mini_beam_esp32). A tick has 65
-- rounds of fuel.
use os_ii.Prelude.{ℕ, zero, suc, ◌+◌, List, [], ◌∷◌, ◌++◌, pos}
use os_ii.Status.{ok, sched_idle, bad_pid}
use os_ii.Run.{Run, done, ◌>>=◌}
use os_ii.Term.{get_smallint, make_pid}
use os_ii.Command.{cmd_gpio_write}
use os_ii.Hal.{Hal}
use os_ii.Process.{ready, waiting, halted, max_processes, pid_none}
use os_ii.Scheduler.{Scheduler, init, spawn, send, tick}
use os_ii.Regression.Check.{i32le, check_int, check_num, check_rc, check_state, proc_at, reg_of}
use os_ii.Regression.Compat.{command}

abbrev halt_prog : List ℕ
halt_prog = 0xFF ∷ []

-- The spawns of the loop, from pid `i + 1` on: the failures, and the scheduler after them.
unfoldable pub fill_table : ℕ → ℕ → Scheduler → ℕ × Scheduler
fill_table zero i sched = (0, sched)
fill_table (suc n) i sched =
    let (pid, sched1) = spawn sched halt_prog in
    let (failures, sched2) = fill_table n (i + 1) sched1 in
    (check_num (i + 1) pid + failures, sched2)

unfoldable pub test_sched_full_table : ℕ
test_sched_full_table =
    let (failures, sched) = fill_table max_processes 0 init in
    failures + check_num pid_none (spawn sched halt_prog).0

unfoldable pub test_sched_send_bad_pid : ℕ
test_sched_send_bad_pid = check_rc bad_pid (send init 99 (command cmd_gpio_write (pos 2) (pos 1))).0

module _ {W : Type 0} (hal : Hal W) (w : W) where
  unfoldable pub test_sched_spawn_and_halt : Run (ℕ × W)
  test_sched_spawn_and_halt = do
    let (pid, sched) = spawn init halt_prog
    (rc, sched1, w1) ← tick hal 65 sched w
    p ← proc_at sched1 pid
    (rc2, sched2, w2) ← tick hal 65 sched1 w1
    done (
      check_num 1 pid
          + check_num 1 sched.count
          + check_rc ok rc
          + check_state halted p.state
          + check_rc sched_idle rc2,
      w2,
    )

  unfoldable pub test_sched_send_ext : Run (ℕ × W)
  test_sched_send_ext = do
    let (pid, sched) = spawn init (0x20 ∷ 0 ∷ 1 ∷ 2 ∷ 3 ∷ 4 ∷ 0xFF ∷ [])
    (rc, sched1, w1) ← tick hal 65 sched w
    p1 ← proc_at sched1 pid
    (rc2, sched2, w2) ← tick hal 65 sched1 w1
    let (rc3, sched3) = send sched2 pid (command cmd_gpio_write (pos 2) (pos 1))
    p3 ← proc_at sched3 pid
    (rc4, sched4, w4) ← tick hal 65 sched3 w2
    p4 ← proc_at sched4 pid
    r0 ← reg_of p4 0
    r1 ← reg_of p4 1
    done (
      check_rc ok rc
          + check_state waiting p1.state
          + check_rc sched_idle rc2
          + check_rc ok rc3
          + check_state ready p3.state
          + check_rc ok rc4
          + check_int cmd_gpio_write (get_smallint r0)
          + check_int (pos 2) (get_smallint r1)
          + check_state halted p4.state,
      w4,
    )

  unfoldable pub test_self_opcode : Run (ℕ × W)
  test_self_opcode = do
    let (pid, sched) = spawn init (0x22 ∷ 0 ∷ 0xFF ∷ [])
    (rc, sched1, w1) ← tick hal 65 sched w
    p ← proc_at sched1 pid
    r0 ← reg_of p 0
    done (check_rc ok rc + check_num (make_pid pid) r0, w1)

  unfoldable pub test_yield_opcode : Run (ℕ × W)
  test_yield_opcode = do
    let (pid, sched) = spawn init (0x23 ∷ 0x01 ∷ 0 ∷ (i32le (pos 42) ++ (0xFF ∷ [])))
    (rc, sched1, w1) ← tick hal 65 sched w
    p1 ← proc_at sched1 pid
    (rc2, sched2, w2) ← tick hal 65 sched1 w1
    p2 ← proc_at sched2 pid
    r0 ← reg_of p2 0
    done (
      check_rc ok rc
          + check_state ready p1.state
          + check_rc ok rc2
          + check_int (pos 42) (get_smallint r0)
          + check_state halted p2.state,
      w2,
    )

  -- The loop of at most ten ticks: the failures, and the scheduler and the world after them.
  unfoldable pub ten_ticks : ℕ → Scheduler → W → Run (ℕ × Scheduler × W)
  ten_ticks zero sched v = done (0, sched, v)
  ten_ticks (suc n) sched v = tick hal 65 sched v >>= λ (rc, sched1, v1). elim rc [
    | sched_idle ↦ done (0, sched1, v1)
    | other ↦ ten_ticks n sched1 v1 >>= λ (failures, sched2, v2).
        done (check_rc ok other + failures, sched2, v2)
  ]

  unfoldable pub test_two_process_round_robin : Run (ℕ × W)
  test_two_process_round_robin = do
    let (pid_a, sched_a) = spawn init (0x01 ∷ 0 ∷ (i32le (pos 100) ++ (0xFF ∷ [])))
    let (pid_b, sched_b) = spawn sched_a (0x01 ∷ 0 ∷ (i32le (pos 200) ++ (0xFF ∷ [])))
    (failures, sched, w') ← ten_ticks 10 sched_b w
    a ← proc_at sched pid_a
    b ← proc_at sched pid_b
    r_a ← reg_of a 0
    r_b ← reg_of b 0
    done (
      failures
          + check_int (pos 100) (get_smallint r_a)
          + check_int (pos 200) (get_smallint r_b)
          + check_state halted a.state
          + check_state halted b.state,
      w',
    )
