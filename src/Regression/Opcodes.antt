-- ===== src/Regression/Opcodes.antt =====
-- The tests of the heap's opcodes in src/main_regression_host.c (erts/example/mini_beam_esp32), and its
-- `main`. The ticks until the scheduler is idle have fuel for ten.
use os_ii.Prelude.{ℕ, ◌+◌, ◌==◌, true, if◌then◌else◌, List, [], ◌∷◌, ◌++◌, set, pos}
use os_ii.Status.{sched_idle}
use os_ii.Run.{Run, done, ◌>>=◌}
use os_ii.Term.{Term, make_smallint, get_smallint, is_boxed, is_cons, make_atom}
use os_ii.Hal.{Hal}
use os_ii.Process.{ready, halted}
use os_ii.Table.{entry}
use os_ii.Scheduler.{Scheduler, init, spawn}
use os_ii.Regression.Check.{
  i32le, check_int, check_bool, check_rc, check_state, proc_at, reg_of, run_until_idle,
}
use os_ii.Regression.Compat.{
  test_invalid_command_rejected, test_bad_argument_rejected, test_mailbox_full, test_invalid_opcode,
  test_bad_register_decode, test_recv_empty_is_nonfatal,
}
use os_ii.Regression.Sched.{
  test_sched_spawn_and_halt, test_sched_full_table, test_sched_send_ext, test_sched_send_bad_pid,
  test_self_opcode, test_yield_opcode, test_two_process_round_robin,
}
use os_ii.Regression.Terms.{
  test_smallint_roundtrip, test_atom_roundtrip, test_pid_roundtrip, test_boxed_cons_roundtrip,
  test_tuple_header,
}
use os_ii.Regression.Heaps.{
  test_heap_alloc_basic, test_heap_make_tuple, test_heap_cons, test_gc_survives_live_data,
  test_gc_reclaims_dead_data, test_gc_nested_structures,
}

abbrev nil : Term
nil = make_atom 0

abbrev tuple_prog : List ℕ
tuple_prog =
    (0x01 ∷ 0 ∷ i32le (pos 10))
    ++ ((0x01 ∷ 1 ∷ i32le (pos 20))
        ++ ((0x01 ∷ 2 ∷ i32le (pos 30))
            ++ (0x50 ∷ 3 ∷ 3 ∷ 0 ∷ 1 ∷ 2 ∷ 0x51 ∷ 4 ∷ 3 ∷ 0 ∷ 0x51 ∷ 5 ∷ 3 ∷ 1 ∷ 0x51 ∷ 6 ∷ 3 ∷ 2
                ∷ 0xFF ∷ [])))

abbrev cons_prog : List ℕ
cons_prog =
    0x52 ∷ 2 ∷ 0 ∷ 1 ∷ 0x52 ∷ 4 ∷ 3 ∷ 2 ∷ 0x53 ∷ 5 ∷ 4 ∷ 0x54 ∷ 6 ∷ 4 ∷ 0x53 ∷ 7 ∷ 6 ∷ 0x54 ∷ 8 ∷ 6
    ∷ 0xFF ∷ []

-- The process as the test sets it up by hand, in the entry of its pid.
unfoldable pub with_cons_prog : Scheduler → Scheduler
with_cons_prog sched =
    let p = entry sched.procs 0 in
    let regs = set (set (set p.regs 0 (make_smallint (pos 1))) 1 nil) 3 (make_smallint (pos 2)) in
    record sched {
      procs =
          set sched.procs 0 (record p { program = cons_prog; pc = 0; state = ready; regs = regs });
    }

module _ {W : Type 0} (hal : Hal W) where
  unfoldable pub test_opcode_make_tuple_and_elem : W → Run (ℕ × W)
  test_opcode_make_tuple_and_elem w = do
    let (pid, sched) = spawn init tuple_prog
    (rc, after, w') ← run_until_idle hal 10 65 sched w
    p ← proc_at after pid
    r3 ← reg_of p 3
    r4 ← reg_of p 4
    r5 ← reg_of p 5
    r6 ← reg_of p 6
    done (
      check_rc sched_idle rc
          + check_state halted p.state
          + check_bool true (is_boxed r3)
          + check_int (pos 10) (get_smallint r4)
          + check_int (pos 20) (get_smallint r5)
          + check_int (pos 30) (get_smallint r6),
      w',
    )

  unfoldable pub test_opcode_cons_head_tail : W → Run (ℕ × W)
  test_opcode_cons_head_tail w = do
    let (pid, sched) = spawn init []
    (rc, after, w') ← run_until_idle hal 10 65 (with_cons_prog sched) w
    p ← proc_at after pid
    r2 ← reg_of p 2
    r4 ← reg_of p 4
    r5 ← reg_of p 5
    r6 ← reg_of p 6
    r7 ← reg_of p 7
    r8 ← reg_of p 8
    done (
      check_rc sched_idle rc
          + check_state halted p.state
          + check_bool true (is_cons r2)
          + check_bool true (is_cons r4)
          + check_int (pos 2) (get_smallint r5)
          + check_bool true (is_cons r6)
          + check_int (pos 1) (get_smallint r7)
          + check_bool true (r8 == nil),
      w',
    )

  -- The failures of the tests that `main` runs, in its order, each in the world that the one before left.
  unfoldable pub failures : W → Run (ℕ × W)
  failures w = do
    (c1, w1) ← test_invalid_opcode hal w
    (c2, w2) ← test_bad_register_decode hal w1
    (c3, w3) ← test_recv_empty_is_nonfatal hal w2
    (s1, w4) ← test_sched_spawn_and_halt hal w3
    (s2, w5) ← test_sched_send_ext hal w4
    (s3, w6) ← test_self_opcode hal w5
    (s4, w7) ← test_yield_opcode hal w6
    (s5, w8) ← test_two_process_round_robin hal w7
    h1 ← test_heap_make_tuple
    h2 ← test_heap_cons
    h3 ← test_gc_survives_live_data
    h4 ← test_gc_reclaims_dead_data
    h5 ← test_gc_nested_structures
    (o1, w9) ← test_opcode_make_tuple_and_elem w8
    (o2, w10) ← test_opcode_cons_head_tail w9
    done (
      test_invalid_command_rejected
          + test_bad_argument_rejected
          + test_mailbox_full
          + (c1 + c2 + c3)
          + (s1 + test_sched_full_table + s2 + test_sched_send_bad_pid + s3 + s4 + s5)
          + (test_smallint_roundtrip + test_atom_roundtrip + test_pid_roundtrip
              + test_boxed_cons_roundtrip + test_tuple_header)
          + (test_heap_alloc_basic + h1 + h2 + h3 + h4 + h5)
          + (o1 + o2),
      w10,
    )

  -- The exit status of `main`.
  unfoldable pub main : W → Run ℕ
  main w = failures w >>= λ (n, w'). done (if n == 0 then 0 else 1)
