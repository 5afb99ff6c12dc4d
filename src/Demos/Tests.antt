-- ===== src/Demos/Tests.antt =====
-- The producer and the consumer of src/main_stability_host.c after thirty slices on a board, and
-- src/main_multiproc_host.c on the host's drivers (both under erts/example/mini_beam_esp32).
use os_ii.Prelude.{[], ℕ, ℤ, ◌≡◌, refl, pos}
use os_ii.Run.{Run, done, ◌>>=◌}
use os_ii.Status.{code, bad_pid}
use os_ii.Hal.Board.{board}
use os_ii.Demos.Stability.{prog_producer, prog_consumer}
use os_ii.Hal.{Hal}
use os_ii.Hal.Stub.{Host, stub}
use os_ii.Demos.Multiproc.{checks, exit_status, next_round, tick_while, multiproc}
use os_ii.Machine
use os_ii.Command.{
  validate_gpio_pin, validate_pwm_channel, validate_pwm_duty, validate_i2c_bus, validate_i2c_addr,
  validate_u8_value, validate_pwm_frequency, is_level, validate_command,
}
use os_ii.Mailbox.{push_raw, pop_raw}
use os_ii.Scheduler.{
  init as sched_init, first_free, spawn, send, wake, wake_sleepers, next_ready, write_back,
  run_picked, tick,
}
use os_ii.Regression.Check.{
  i32le, check_int, check_num, check_rc, check_bool, state_code, check_state, proc_at, reg_of,
  run_until_idle,
}
use os_ii.Demos.Stability.{after_tick, tick_loop}
use os_ii.Heap.Gc.{
  copy_words, move_object, copy_boxed, copy_cons, copy_term, copy_roots, scan_word, scan_words,
  scan_loop, gc,
}
use os_ii.Term.{
  tag, is_smallint, is_atom, is_pid, is_boxed, is_cons, is_immediate, make_smallint, get_smallint,
  make_atom, get_atom, make_pid, get_pid, make_boxed, get_boxed, make_cons, get_cons,
  make_tuple_hdr, get_tuple_arity, is_tuple_hdr, is_moved,
}
use os_ii.Machine.{
  get_proc, put_proc, get_caller, drive, crash, set_error, fail, fetch_u8, i32_of_bytes, valid_reg,
  valid_regs, or_eof, need_u8, need_i32, check_regs, reg, reg_int, set_reg,
}
use os_ii.Vm.{finish, has_yielded, dispatch, execute, proc_step, run_loop, proc_run}
use os_ii.Vm.Bif.{
  arg_int, answer, value_or_rc, bif_gpio_write, bif_gpio_read, bif_pwm_set_duty, bif_pwm_config,
  bif_i2c_read_reg, bif_i2c_write_reg, bif_monotonic_ms, call_bif,
}
use os_ii.Vm.Ops.{
  op_const_i32, op_move_add_sub, fetch_regs, set_five, recv_empty, recv_some, recv_got, recv_with,
  op_recv_cmd, send_to, send_found, send_by, send_with, op_send, op_self, op_yield, jump, op_jmp,
  op_jmp_if_zero, op_halt, op_call_bif, sleep_by, sleep_for, op_sleep_ms,
}
use os_ii.Vm.Data.{
  fetch_elems, collect, try_tuple, op_make_tuple, op_tuple_elem, try_cons, op_cons, op_cell_word,
}
use os_ii.Heap.{read, write, init as heap_init, alloc, write_elems, make_tuple, cons}
use os_ii.Process.{init as proc_init}
use os_ii.Table.{sched_proc, push_proc, deliver}

-- The processed count of the consumer, the commands in its mailbox, and what the producer's register
-- of the pid holds.
abbrev after_slices : Run (ℤ × ℕ × ℤ)
after_slices =
    tick_loop board 30 100 0 0 (spawn (spawn sched_init prog_producer).1 prog_consumer).1 0
    >>= λ end. proc_at end.sched 1 >>= λ pa. proc_at end.sched 2 >>= λ pb. reg_of pa 2 >>= λ pid.
        reg_of pb 1 >>= λ r. done (get_smallint r, pb.mailbox.count, get_smallint pid)

-- Fifteen are counted, none is there, and the last was refused.
after_slices_lem : after_slices ≡ done (pos 15, 0, pos (code bad_pid))
unfolding Machine.◌>>=◌ validate_gpio_pin validate_pwm_channel validate_pwm_duty validate_i2c_bus
    validate_i2c_addr validate_u8_value validate_pwm_frequency is_level validate_command push_raw
    pop_raw sched_init first_free spawn send wake wake_sleepers next_ready write_back run_picked
    tick i32le check_int check_num check_rc check_bool state_code check_state proc_at reg_of
    run_until_idle after_tick tick_loop copy_words move_object copy_boxed copy_cons copy_term
    copy_roots scan_word scan_words scan_loop gc tag is_smallint is_atom is_pid is_boxed is_cons
    is_immediate make_smallint get_smallint make_atom get_atom make_pid get_pid make_boxed get_boxed
    make_cons get_cons make_tuple_hdr get_tuple_arity is_tuple_hdr is_moved get_proc put_proc
    get_caller drive crash set_error fail fetch_u8 i32_of_bytes valid_reg valid_regs or_eof need_u8
    need_i32 check_regs reg reg_int set_reg finish has_yielded dispatch execute proc_step run_loop
    proc_run arg_int answer value_or_rc bif_gpio_write bif_gpio_read bif_pwm_set_duty bif_pwm_config
    bif_i2c_read_reg bif_i2c_write_reg bif_monotonic_ms call_bif op_const_i32 op_move_add_sub
    fetch_regs set_five recv_empty recv_some recv_got recv_with op_recv_cmd send_to send_found
    send_by send_with op_send op_self op_yield jump op_jmp op_jmp_if_zero op_halt op_call_bif
    sleep_by sleep_for op_sleep_ms fetch_elems collect try_tuple op_make_tuple op_tuple_elem
    try_cons op_cons op_cell_word read write heap_init alloc write_elems make_tuple cons proc_init
    sched_proc push_proc deliver
after_slices_lem = refl

-- The host's drivers, with a clock that stands still.
abbrev host : Hal Host
host = stub (λ now. now) (λ wait now. now)

multiproc_passes :
    multiproc host (record { printed = []; now = record { tv_sec = 0; tv_nsec = 0 } }) ≡ done 0
unfolding stub Machine.◌>>=◌ validate_gpio_pin validate_pwm_channel validate_pwm_duty
    validate_i2c_bus validate_i2c_addr validate_u8_value validate_pwm_frequency is_level
    validate_command push_raw pop_raw sched_init first_free spawn send wake wake_sleepers next_ready
    write_back run_picked tick i32le check_int check_num check_rc check_bool state_code check_state
    proc_at reg_of run_until_idle tag is_smallint is_atom is_pid is_boxed is_cons is_immediate
    make_smallint get_smallint make_atom get_atom make_pid get_pid make_boxed get_boxed make_cons
    get_cons make_tuple_hdr get_tuple_arity is_tuple_hdr is_moved get_proc put_proc get_caller drive
    crash set_error fail fetch_u8 i32_of_bytes valid_reg valid_regs or_eof need_u8 need_i32
    check_regs reg reg_int set_reg finish has_yielded dispatch execute proc_step run_loop proc_run
    arg_int answer value_or_rc bif_gpio_write bif_gpio_read bif_pwm_set_duty bif_pwm_config
    bif_i2c_read_reg bif_i2c_write_reg bif_monotonic_ms call_bif op_const_i32 op_move_add_sub
    fetch_regs set_five recv_empty recv_some recv_got recv_with op_recv_cmd send_to send_found
    send_by send_with op_send op_self op_yield jump op_jmp op_jmp_if_zero op_halt op_call_bif
    sleep_by sleep_for op_sleep_ms fetch_elems collect try_tuple op_make_tuple op_tuple_elem
    try_cons op_cons op_cell_word read write heap_init alloc write_elems make_tuple cons proc_init
    sched_proc push_proc deliver checks exit_status next_round tick_while multiproc
multiproc_passes = refl
