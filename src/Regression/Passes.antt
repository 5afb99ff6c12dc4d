-- ===== src/Regression/Passes.antt =====
-- The tests of src/main_regression_host.c (erts/example/mini_beam_esp32) together.
pub mod Compat
pub mod Sched
pub mod Terms
pub mod Heaps
pub mod Opcodes
use os_ii.Prelude.{ℕ, ◌≡◌, refl}
use os_ii.Run.{Run, done}
use os_ii.Hal.{Hal}
use os_ii.Regression.Opcodes.{failures, main}
use Compat.{
  test_invalid_command_rejected_lem, test_bad_argument_rejected_lem, test_mailbox_full_lem,
  test_invalid_opcode_lem, test_bad_register_decode_lem, test_recv_empty_is_nonfatal_lem,
}
use Sched.{
  test_sched_full_table_lem, test_sched_send_bad_pid_lem, test_sched_spawn_and_halt_lem,
  test_sched_send_ext_lem, test_self_opcode_lem, test_yield_opcode_lem,
  test_two_process_round_robin_lem,
}
use Terms.{
  test_smallint_roundtrip_lem, test_atom_roundtrip_lem, test_pid_roundtrip_lem,
  test_boxed_cons_roundtrip_lem, test_tuple_header_lem,
}
use Heaps.{
  test_heap_alloc_basic_lem, test_heap_make_tuple_lem, test_heap_cons_lem,
  test_gc_survives_live_data_lem, test_gc_reclaims_dead_data_lem, test_gc_nested_structures_lem,
}
use Opcodes.{test_opcode_make_tuple_and_elem_lem, test_opcode_cons_head_tail_lem}

failures_lem : {W : Type 0} (hal : Hal W) (w : W) → (w' : W) × (failures hal w ≡ done (0, w'))
unfolding failures
failures_lem hal w =
    let (w1, e1) = test_invalid_opcode_lem hal w in
    let (w2, e2) = test_bad_register_decode_lem hal w1 in
    let (w3, e3) = test_recv_empty_is_nonfatal_lem hal w2 in
    let (w4, e4) = test_sched_spawn_and_halt_lem hal w3 in
    let (w5, e5) = test_sched_send_ext_lem hal w4 in
    let (w6, e6) = test_self_opcode_lem hal w5 in
    let (w7, e7) = test_yield_opcode_lem hal w6 in
    let (w8, e8) = test_two_process_round_robin_lem hal w7 in
    let (w9, e9) = test_opcode_make_tuple_and_elem_lem hal w8 in
    let (w10, e10) = test_opcode_cons_head_tail_lem hal w9 in
    (
      w10,
      rw
          (
            test_invalid_command_rejected_lem, test_bad_argument_rejected_lem,
            test_mailbox_full_lem, test_sched_full_table_lem, test_sched_send_bad_pid_lem,
            test_smallint_roundtrip_lem, test_atom_roundtrip_lem, test_pid_roundtrip_lem,
            test_boxed_cons_roundtrip_lem, test_tuple_header_lem, test_heap_alloc_basic_lem,
            test_heap_make_tuple_lem, test_heap_cons_lem, test_gc_survives_live_data_lem,
            test_gc_reclaims_dead_data_lem, test_gc_nested_structures_lem, e1, e2, e3, e4, e5, e6,
            e7, e8, e9, e10,
          )
          refl,
    )

-- The regression tests pass on any hardware: `main` returns 0, whatever the drivers and the world that
-- they work on.
main_lem : {W : Type 0} (hal : Hal W) (w : W) → main hal w ≡ done 0
unfolding main
main_lem hal w = let (w', e) = failures_lem hal w in rw e refl
