-- ===== src/Vm/Ops.antt =====
-- The cases of `mb_proc_step` of src/mb_vm.c (erts/example/mini_beam_esp32) that move numbers,
-- jump, call, sleep and pass messages. The cases on heap data are in Vm/Data.antt.
use os_ii.Prelude.{
  not, ℕ, zero, suc, ◌+◌, ◌-◌, ◌%◌, ltb, ◌==◌, true, if◌then◌else◌, List, [], ◌∷◌, length, set,
  Option, none, some, ℤ, pos, pos_part, neg_part, ◌+ℤ◌, ◌-ℤ◌, to_u8, to_u32, u32_mod,
}
use os_ii.Status.{Status, ok, eof, bad_argc, mailbox_empty, bad_argument, bad_pid, is_ok, code}
use os_ii.Term.{make_smallint, make_pid}
use os_ii.Command.{Command, validate_command, cmd_none}
use os_ii.Mailbox.{pop_raw, push_in_range, pop_in_range}
use os_ii.Hal.{Hal}
use os_ii.Process.{Process, waiting, sleeping, halted, max_reductions}
use os_ii.Table.{Table, entry, sched_proc, deliver}
use os_ii.Opcode
use os_ii.Machine.{
  Flow, crash, Caller, alone, in_table, Cmd, next, pure, ◌>>=◌, ◌>>◌, get_proc, put_proc,
  get_caller, drive, set_error, fail, need_u8, need_i32, check_regs, reg, reg_int, set_reg,
}
use os_ii.Vm.Bif.{call_bif}

-- What the program sees where there is no command: `MB_CMD_NONE` with a code in its first field.
abbrev pub no_command : Status → Command
no_command s = record { type = cmd_none; a = pos (code s); b = pos 0; c = pos 0; d = pos 0 }

-- The table with the running process's present state in its own entry.
abbrev pub live : ℕ → Table → Process → Table
live slot procs p = set procs slot p

module _ {W : Type 0} where
  unfoldable pub op_const_i32 : Cmd W (Unit {0})
  op_const_i32 = do
    dst ← need_u8
    val ← need_i32
    check_regs (dst ∷ [])
    set_reg dst (make_smallint val)

  -- The three cases share their operands: `MOVE` reads `b` and does not use it.
  unfoldable pub op_move_add_sub : ℕ → Cmd W (Unit {0})
  op_move_add_sub op = do
    dst ← need_u8
    a ← need_u8
    b ← need_u8
    check_regs (dst ∷ a ∷ b ∷ [])
    if op == Opcode.move then (do t ← reg a; set_reg dst t) else do
      x ← reg_int a
      y ← reg_int b
      set_reg dst (make_smallint (if op == Opcode.add then x +ℤ y else x -ℤ y))

  -- `for (i = 0; i < argc; i++)`: the registers of the arguments, each tested as it is read.
  unfoldable pub fetch_regs : ℕ → Cmd W (List ℕ)
  fetch_regs zero = pure []
  fetch_regs (suc n) = do r ← need_u8; check_regs (r ∷ []); rs ← fetch_regs n; pure (r ∷ rs)

  -- The five registers that a received command is written to.
  unfoldable pub set_five : ℕ → ℕ → ℕ → ℕ → ℕ → Command → Cmd W (Unit {0})
  set_five r_type r_a r_b r_c r_d cmd = do
    set_reg r_type (make_smallint cmd.type)
    set_reg r_a (make_smallint cmd.a)
    set_reg r_b (make_smallint cmd.b)
    set_reg r_c (make_smallint cmd.c)
    set_reg r_d (make_smallint cmd.d)

  -- With a scheduler an empty mailbox blocks: the program counter goes back to the instruction.
  unfoldable pub recv_empty : Caller → ℕ → ℕ → ℕ → ℕ → ℕ → ℕ → Cmd W (Unit {0})
  recv_empty (in_table slot procs) pre_op_pc r_type r_a r_b r_c r_d = do
    p ← get_proc
    put_proc (record p { pc = pre_op_pc; state = waiting })
  recv_empty alone pre_op_pc r_type r_a r_b r_c r_d = do
    set_five r_type r_a r_b r_c r_d (no_command mailbox_empty)
    set_error mailbox_empty

  unfoldable pub recv_some : Command → ℕ → ℕ → ℕ → ℕ → ℕ → Cmd W (Unit {0})
  recv_some cmd r_type r_a r_b r_c r_d =
      let rc = validate_command cmd in
      if is_ok rc
      then set_five r_type r_a r_b r_c r_d cmd >> set_error ok
      else set_five r_type r_a r_b r_c r_d (no_command rc) >> set_error rc

  unfoldable pub recv_got : Option Command → ℕ → ℕ → ℕ → ℕ → ℕ → ℕ → Cmd W (Unit {0})
  recv_got (some cmd) pre_op_pc r_type r_a r_b r_c r_d = recv_some cmd r_type r_a r_b r_c r_d
  recv_got none pre_op_pc r_type r_a r_b r_c r_d = do
    sched ← get_caller
    recv_empty sched pre_op_pc r_type r_a r_b r_c r_d

  -- `RECV_CMD` behind the test of its registers.
  unfoldable pub recv_with : ℕ → ℕ → ℕ → ℕ → ℕ → ℕ → Cmd W (Unit {0})
  recv_with pre_op_pc r_type r_a r_b r_c r_d = do
    p ← get_proc
    if not (pop_in_range p.mailbox) then crash else do
      let (got, mailbox) = pop_raw p.mailbox
      put_proc (record p { mailbox = mailbox })
      recv_got got pre_op_pc r_type r_a r_b r_c r_d

  unfoldable pub op_recv_cmd : ℕ → Cmd W (Unit {0})
  op_recv_cmd pre_op_pc = do
    r_type ← need_u8
    r_a ← need_u8
    r_b ← need_u8
    r_c ← need_u8
    r_d ← need_u8
    check_regs (r_type ∷ r_a ∷ r_b ∷ r_c ∷ r_d ∷ [])
    recv_with pre_op_pc r_type r_a r_b r_c r_d

  -- The push into entry `i` of the table, in which entry `slot` is the running process itself. The
  -- two may be one, so the running process is read back from the table.
  unfoldable pub send_to : ℕ → Table → ℕ → Command → Cmd W Status
  send_to slot live i cmd m =
      if not (push_in_range (entry live i).mailbox cmd)
      then Flow.fault
      else (let (rc, target) = deliver (entry live i) cmd in
          let live' = set live i target in
          next rc (record m { proc = entry live' slot; caller = in_table slot live' }))

  -- The command in the registers, to the process that was looked up.
  unfoldable pub send_found : Option ℕ → ℕ → Table → ℕ → ℕ → ℕ → ℕ → ℕ → ℕ → Cmd W (Unit {0})
  send_found none slot procs r_pid r_type r_a r_b r_c r_d =
      set_reg r_pid (make_smallint (pos (code bad_pid)))
  send_found (some i) slot procs r_pid r_type r_a r_b r_c r_d = do
    type ← reg_int r_type
    a ← reg_int r_a
    b ← reg_int r_b
    c ← reg_int r_c
    d ← reg_int r_d
    rc ← send_to slot procs i (record { type = type; a = a; b = b; c = c; d = d })
    set_reg r_pid (make_smallint (pos (code rc)))

  unfoldable pub send_by : Caller → ℕ → ℕ → ℕ → ℕ → ℕ → ℕ → Cmd W (Unit {0})
  send_by alone r_pid r_type r_a r_b r_c r_d =
      set_reg r_pid (make_smallint (pos (code bad_argument)))
  send_by (in_table slot procs) r_pid r_type r_a r_b r_c r_d = do
    pid ← reg_int r_pid
    p ← get_proc
    let table = live slot procs p
    send_found (sched_proc table (to_u8 pid)) slot table r_pid r_type r_a r_b r_c r_d

  -- `SEND` behind the test of its registers.
  unfoldable pub send_with : ℕ → ℕ → ℕ → ℕ → ℕ → ℕ → Cmd W (Unit {0})
  send_with r_pid r_type r_a r_b r_c r_d = do
    sched ← get_caller
    send_by sched r_pid r_type r_a r_b r_c r_d

  unfoldable pub op_send : Cmd W (Unit {0})
  op_send = do
    r_pid ← need_u8
    r_type ← need_u8
    r_a ← need_u8
    r_b ← need_u8
    r_c ← need_u8
    r_d ← need_u8
    check_regs (r_pid ∷ r_type ∷ r_a ∷ r_b ∷ r_c ∷ r_d ∷ [])
    send_with r_pid r_type r_a r_b r_c r_d

  unfoldable pub op_self : Cmd W (Unit {0})
  op_self = do
    r_dst ← need_u8
    check_regs (r_dst ∷ [])
    p ← get_proc
    set_reg r_dst (make_pid p.pid)

  unfoldable pub op_yield : Cmd W (Unit {0})
  op_yield = do p ← get_proc; put_proc (record p { reductions = max_reductions })

  -- `pc` is below 2 ^ 31, so the offset -2 ^ 31, whose negation overflows in C, is refused too. The
  -- program counter that is past the end is stored before it is reported.
  unfoldable pub jump : ℤ → Cmd W (Unit {0})
  jump offset = do
    p ← get_proc
    if ltb p.pc (neg_part offset) then fail eof else do
      let pc = p.pc + pos_part offset - neg_part offset
      put_proc (record p { pc = pc })
      if ltb (length p.program) pc then fail eof else pure tt

  unfoldable pub op_jmp : Cmd W (Unit {0})
  op_jmp = do offset ← need_i32; jump offset

  unfoldable pub op_jmp_if_zero : Cmd W (Unit {0})
  op_jmp_if_zero = do
    r ← need_u8
    offset ← need_i32
    check_regs (r ∷ [])
    t ← reg r
    if t == make_smallint (pos 0) then jump offset else pure tt

  unfoldable pub op_halt : Cmd W (Unit {0})
  op_halt = do p ← get_proc; put_proc (record p { is_halted = true; state = halted })

module _ {W : Type 0} (hal : Hal W) where
  -- The status of the built-in function becomes `last_error`, `MB_OK` included.
  unfoldable pub op_call_bif : Cmd W (Unit {0})
  op_call_bif = do
    bif ← need_u8
    argc ← need_u8
    if ltb 8 argc then fail bad_argc else do
      args ← fetch_regs argc
      dst ← need_u8
      rc ← call_bif hal bif args dst
      if is_ok rc then set_error ok else fail rc

  -- `SLEEP_MS` with the time in milliseconds: `mb_hal_monotonic_ms() + (uint32_t)ms` wraps.
  unfoldable pub sleep_by : Caller → ℤ → Cmd W (Unit {0})
  sleep_by (in_table slot procs) ms = do
    now ← drive hal.monotonic_ms
    p ← get_proc
    put_proc (record p { sleep_until_ms = (now + to_u32 ms) % u32_mod; state = sleeping })
  sleep_by alone ms = drive (λ w. (tt, hal.delay_ms (to_u32 ms) w))

  unfoldable pub sleep_for : ℤ → Cmd W (Unit {0})
  sleep_for ms = do sched ← get_caller; sleep_by sched ms

  unfoldable pub op_sleep_ms : Cmd W (Unit {0})
  op_sleep_ms = do r ← need_u8; check_regs (r ∷ []); ms ← reg_int r; sleep_for ms
