-- ===== src/Regression/Passes/Opcodes.antt =====
-- The tests of the heap's opcodes in src/main_regression_host.c (erts/example/mini_beam_esp32)
-- pass.
use os_ii.Prelude.{◌≡◌, refl}
use os_ii.Run.{done}
use os_ii.Hal.{Hal}
use os_ii.Scheduler.{
  init as sched_init, first_free, spawn, send, wake, wake_sleepers, next_ready, write_back,
  run_picked, tick,
}
use os_ii.Regression.Check.{
  i32le, check_int, check_num, check_rc, check_bool, state_code, check_state, proc_at, reg_of,
  run_until_idle,
}
use os_ii.Regression.Opcodes.{
  with_cons_prog, test_opcode_make_tuple_and_elem, test_opcode_cons_head_tail,
}
use os_ii.Term.{
  tag, is_smallint, is_atom, is_pid, is_boxed, is_cons, is_immediate, make_smallint, get_smallint,
  make_atom, get_atom, make_pid, get_pid, make_boxed, get_boxed, make_cons, get_cons,
  make_tuple_hdr, get_tuple_arity, is_tuple_hdr, is_moved,
}
use os_ii.Machine.{
  ◌>>=◌, get_proc, put_proc, get_caller, drive, crash, set_error, fail, fetch_u8, i32_of_bytes,
  valid_reg, valid_regs, or_eof, need_u8, need_i32, check_regs, reg, reg_int, set_reg,
}
use os_ii.Vm.{finish, has_yielded, dispatch, execute, proc_step, run_loop, proc_run}
use os_ii.Vm.Bif.{
  arg_int, answer, value_or_rc, bif_gpio_write, bif_gpio_read, bif_pwm_set_duty, bif_pwm_config,
  bif_i2c_read_reg, bif_i2c_write_reg, bif_monotonic_ms, call_bif,
}
use os_ii.Vm.Ops.{
  op_const_i32, op_move_add_sub, fetch_regs, set_five, recv_empty, recv_some, recv_got, recv_with,
  op_recv_cmd, send_to, send_found, send_by, send_with, op_send, op_self, op_yield, jump, op_jmp,
  op_jmp_if_zero, op_halt, op_call_bif, sleep_by, sleep_for, op_sleep_ms,
}
use os_ii.Vm.Data.{
  fetch_elems, collect, try_tuple, op_make_tuple, op_tuple_elem, try_cons, op_cons, op_cell_word,
}
use os_ii.Heap.{read, write, init as heap_init, alloc, write_elems, make_tuple, cons}
use os_ii.Process.{init as proc_init}
use os_ii.Table.{sched_proc, push_proc, deliver}

pub test_opcode_make_tuple_and_elem_lem :
    {W : Type 0} (hal : Hal W) (w : W)
    → (w' : W) × (test_opcode_make_tuple_and_elem hal w ≡ done (0, w'))
unfolding test_opcode_make_tuple_and_elem sched_init first_free spawn send wake wake_sleepers
    next_ready write_back run_picked tick i32le check_int check_num check_rc check_bool state_code
    check_state proc_at reg_of run_until_idle with_cons_prog tag is_smallint is_atom is_pid is_boxed
    is_cons is_immediate make_smallint get_smallint make_atom get_atom make_pid get_pid make_boxed
    get_boxed make_cons get_cons make_tuple_hdr get_tuple_arity is_tuple_hdr is_moved ◌>>=◌ get_proc
    put_proc get_caller drive crash set_error fail fetch_u8 i32_of_bytes valid_reg valid_regs or_eof
    need_u8 need_i32 check_regs reg reg_int set_reg finish has_yielded dispatch execute proc_step
    run_loop proc_run arg_int answer value_or_rc bif_gpio_write bif_gpio_read bif_pwm_set_duty
    bif_pwm_config bif_i2c_read_reg bif_i2c_write_reg bif_monotonic_ms call_bif op_const_i32
    op_move_add_sub fetch_regs set_five recv_empty recv_some recv_got recv_with op_recv_cmd send_to
    send_found send_by send_with op_send op_self op_yield jump op_jmp op_jmp_if_zero op_halt
    op_call_bif sleep_by sleep_for op_sleep_ms fetch_elems collect try_tuple op_make_tuple
    op_tuple_elem try_cons op_cons op_cell_word read write heap_init alloc write_elems make_tuple
    cons proc_init sched_proc push_proc deliver
test_opcode_make_tuple_and_elem_lem hal w = (_, refl)

pub test_opcode_cons_head_tail_lem :
    {W : Type 0} (hal : Hal W) (w : W)
    → (w' : W) × (test_opcode_cons_head_tail hal w ≡ done (0, w'))
unfolding test_opcode_cons_head_tail sched_init first_free spawn send wake wake_sleepers next_ready
    write_back run_picked tick i32le check_int check_num check_rc check_bool state_code check_state
    proc_at reg_of run_until_idle with_cons_prog tag is_smallint is_atom is_pid is_boxed is_cons
    is_immediate make_smallint get_smallint make_atom get_atom make_pid get_pid make_boxed get_boxed
    make_cons get_cons make_tuple_hdr get_tuple_arity is_tuple_hdr is_moved ◌>>=◌ get_proc put_proc
    get_caller drive crash set_error fail fetch_u8 i32_of_bytes valid_reg valid_regs or_eof need_u8
    need_i32 check_regs reg reg_int set_reg finish has_yielded dispatch execute proc_step run_loop
    proc_run arg_int answer value_or_rc bif_gpio_write bif_gpio_read bif_pwm_set_duty bif_pwm_config
    bif_i2c_read_reg bif_i2c_write_reg bif_monotonic_ms call_bif op_const_i32 op_move_add_sub
    fetch_regs set_five recv_empty recv_some recv_got recv_with op_recv_cmd send_to send_found
    send_by send_with op_send op_self op_yield jump op_jmp op_jmp_if_zero op_halt op_call_bif
    sleep_by sleep_for op_sleep_ms fetch_elems collect try_tuple op_make_tuple op_tuple_elem
    try_cons op_cons op_cell_word read write heap_init alloc write_elems make_tuple cons proc_init
    sched_proc push_proc deliver
test_opcode_cons_head_tail_lem hal w = (_, refl)
