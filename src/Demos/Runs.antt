-- ===== src/Demos/Runs.antt =====
-- The programs of Demos on the host's drivers of erts/example/mini_beam_esp32/src/mb_hal_stub.c, with a
-- clock that stands still.
use os_ii.Prelude.{◌≡◌, refl, pos, [], ◌∷◌}
use os_ii.Run.{Run, done, ◌>>=◌}
use os_ii.Status.{bad_opcode, invalid_command}
use os_ii.Hal.{Hal}
use os_ii.Hal.Stub.{Host, stub}
use os_ii.Demos.Single.{Report, received, vm_failed, values}
use os_ii.Machine
use os_ii.Command.{
  validate_gpio_pin, validate_pwm_channel, validate_pwm_duty, validate_i2c_bus, validate_i2c_addr,
  validate_u8_value, validate_pwm_frequency, is_level, validate_command,
}
use os_ii.Mailbox.{push_raw, pop_raw}
use os_ii.Scheduler.{
  init as sched_init, first_free, spawn, send, wake, wake_sleepers, next_ready, write_back,
  run_picked, tick,
}
use os_ii.Regression.Check.{
  i32le, check_int, check_num, check_rc, check_bool, state_code, check_state, proc_at, reg_of,
  run_until_idle,
}
use os_ii.Demos.Single.{
  jump_on, app_program, int_of, exit_code, run_then, host_main, mailbox_main, app_main,
}
use os_ii.Demos.Flow.{flow_checks, flow_status, flow_host}
use os_ii.Demos.Multiproc.{checks, exit_status, next_round, tick_while, multiproc}
use os_ii.Compat.{
  to_proc, from_proc, init as vm_init, mailbox_push, mailbox_pop, step as vm_step, run as vm_run,
}
use os_ii.Term.{
  tag, is_smallint, is_atom, is_pid, is_boxed, is_cons, is_immediate, make_smallint, get_smallint,
  make_atom, get_atom, make_pid, get_pid, make_boxed, get_boxed, make_cons, get_cons,
  make_tuple_hdr, get_tuple_arity, is_tuple_hdr, is_moved,
}
use os_ii.Machine.{
  get_proc, put_proc, get_caller, drive, crash, set_error, fail, fetch_u8, i32_of_bytes, valid_reg,
  valid_regs, or_eof, need_u8, need_i32, check_regs, reg, reg_int, set_reg,
}
use os_ii.Vm.{finish, has_yielded, dispatch, execute, proc_step, run_loop, proc_run}
use os_ii.Vm.Bif.{
  arg_int, answer, value_or_rc, bif_gpio_write, bif_gpio_read, bif_pwm_set_duty, bif_pwm_config,
  bif_i2c_read_reg, bif_i2c_write_reg, bif_monotonic_ms, call_bif,
}
use os_ii.Vm.Ops.{
  op_const_i32, op_move_add_sub, fetch_regs, set_five, recv_empty, recv_some, recv_got, recv_with,
  op_recv_cmd, send_to, send_found, send_by, send_with, op_send, op_self, op_yield, jump, op_jmp,
  op_jmp_if_zero, op_halt, op_call_bif, sleep_by, sleep_for, op_sleep_ms,
}
use os_ii.Vm.Data.{
  fetch_elems, collect, try_tuple, op_make_tuple, op_tuple_elem, try_cons, op_cons, op_cell_word,
}
use os_ii.Heap.{read, write, init as heap_init, alloc, write_elems, make_tuple, cons}
use os_ii.Process.{init as proc_init}
use os_ii.Table.{sched_proc, push_proc, deliver}

abbrev host : Hal Host
host = stub (λ now. now) (λ wait now. now)

abbrev start : Host
start = record { printed = []; now = record { tv_sec = 0; tv_nsec = 0 } }

abbrev report : Run (Report × Host) → Run Report
report r = r >>= λ x. done (x.0)

host_main_lem : report (host_main host start) ≡ done (values (pos 29 ∷ pos 0 ∷ []))
unfolding Machine.◌>>=◌ stub validate_gpio_pin validate_pwm_channel validate_pwm_duty
    validate_i2c_bus validate_i2c_addr validate_u8_value validate_pwm_frequency is_level
    validate_command push_raw pop_raw sched_init first_free spawn send wake wake_sleepers next_ready
    write_back run_picked tick i32le check_int check_num check_rc check_bool state_code check_state
    proc_at reg_of run_until_idle jump_on app_program int_of exit_code run_then host_main
    mailbox_main app_main flow_checks flow_status flow_host checks exit_status next_round tick_while
    multiproc to_proc from_proc vm_init mailbox_push mailbox_pop vm_step vm_run tag is_smallint
    is_atom is_pid is_boxed is_cons is_immediate make_smallint get_smallint make_atom get_atom
    make_pid get_pid make_boxed get_boxed make_cons get_cons make_tuple_hdr get_tuple_arity
    is_tuple_hdr is_moved get_proc put_proc get_caller drive crash set_error fail fetch_u8
    i32_of_bytes valid_reg valid_regs or_eof need_u8 need_i32 check_regs reg reg_int set_reg finish
    has_yielded dispatch execute proc_step run_loop proc_run arg_int answer value_or_rc
    bif_gpio_write bif_gpio_read bif_pwm_set_duty bif_pwm_config bif_i2c_read_reg bif_i2c_write_reg
    bif_monotonic_ms call_bif op_const_i32 op_move_add_sub fetch_regs set_five recv_empty recv_some
    recv_got recv_with op_recv_cmd send_to send_found send_by send_with op_send op_self op_yield
    jump op_jmp op_jmp_if_zero op_halt op_call_bif sleep_by sleep_for op_sleep_ms fetch_elems
    collect try_tuple op_make_tuple op_tuple_elem try_cons op_cons op_cell_word read write heap_init
    alloc write_elems make_tuple cons proc_init sched_proc push_proc deliver
host_main_lem = refl

mailbox_main_lem :
    report (mailbox_main host start)
    ≡ done (received (pos 5 ∷ pos 0 ∷ pos 0x68 ∷ pos 0x75 ∷ pos 0x1C ∷ []) invalid_command)
unfolding Machine.◌>>=◌ stub validate_gpio_pin validate_pwm_channel validate_pwm_duty
    validate_i2c_bus validate_i2c_addr validate_u8_value validate_pwm_frequency is_level
    validate_command push_raw pop_raw sched_init first_free spawn send wake wake_sleepers next_ready
    write_back run_picked tick i32le check_int check_num check_rc check_bool state_code check_state
    proc_at reg_of run_until_idle jump_on app_program int_of exit_code run_then host_main
    mailbox_main app_main flow_checks flow_status flow_host checks exit_status next_round tick_while
    multiproc to_proc from_proc vm_init mailbox_push mailbox_pop vm_step vm_run tag is_smallint
    is_atom is_pid is_boxed is_cons is_immediate make_smallint get_smallint make_atom get_atom
    make_pid get_pid make_boxed get_boxed make_cons get_cons make_tuple_hdr get_tuple_arity
    is_tuple_hdr is_moved get_proc put_proc get_caller drive crash set_error fail fetch_u8
    i32_of_bytes valid_reg valid_regs or_eof need_u8 need_i32 check_regs reg reg_int set_reg finish
    has_yielded dispatch execute proc_step run_loop proc_run arg_int answer value_or_rc
    bif_gpio_write bif_gpio_read bif_pwm_set_duty bif_pwm_config bif_i2c_read_reg bif_i2c_write_reg
    bif_monotonic_ms call_bif op_const_i32 op_move_add_sub fetch_regs set_five recv_empty recv_some
    recv_got recv_with op_recv_cmd send_to send_found send_by send_with op_send op_self op_yield
    jump op_jmp op_jmp_if_zero op_halt op_call_bif sleep_by sleep_for op_sleep_ms fetch_elems
    collect try_tuple op_make_tuple op_tuple_elem try_cons op_cons op_cell_word read write heap_init
    alloc write_elems make_tuple cons proc_init sched_proc push_proc deliver
mailbox_main_lem = refl

-- The command is to set a pin, and the program does not get there.
app_main_lem : report (app_main host start) ≡ done (vm_failed bad_opcode 68)
unfolding Machine.◌>>=◌ stub validate_gpio_pin validate_pwm_channel validate_pwm_duty
    validate_i2c_bus validate_i2c_addr validate_u8_value validate_pwm_frequency is_level
    validate_command push_raw pop_raw sched_init first_free spawn send wake wake_sleepers next_ready
    write_back run_picked tick i32le check_int check_num check_rc check_bool state_code check_state
    proc_at reg_of run_until_idle jump_on app_program int_of exit_code run_then host_main
    mailbox_main app_main flow_checks flow_status flow_host checks exit_status next_round tick_while
    multiproc to_proc from_proc vm_init mailbox_push mailbox_pop vm_step vm_run tag is_smallint
    is_atom is_pid is_boxed is_cons is_immediate make_smallint get_smallint make_atom get_atom
    make_pid get_pid make_boxed get_boxed make_cons get_cons make_tuple_hdr get_tuple_arity
    is_tuple_hdr is_moved get_proc put_proc get_caller drive crash set_error fail fetch_u8
    i32_of_bytes valid_reg valid_regs or_eof need_u8 need_i32 check_regs reg reg_int set_reg finish
    has_yielded dispatch execute proc_step run_loop proc_run arg_int answer value_or_rc
    bif_gpio_write bif_gpio_read bif_pwm_set_duty bif_pwm_config bif_i2c_read_reg bif_i2c_write_reg
    bif_monotonic_ms call_bif op_const_i32 op_move_add_sub fetch_regs set_five recv_empty recv_some
    recv_got recv_with op_recv_cmd send_to send_found send_by send_with op_send op_self op_yield
    jump op_jmp op_jmp_if_zero op_halt op_call_bif sleep_by sleep_for op_sleep_ms fetch_elems
    collect try_tuple op_make_tuple op_tuple_elem try_cons op_cons op_cell_word read write heap_init
    alloc write_elems make_tuple cons proc_init sched_proc push_proc deliver
app_main_lem = refl
