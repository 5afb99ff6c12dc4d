-- ===== src/Vm.antt =====
-- The interpreter of src/mb_vm.c (erts/example/mini_beam_esp32): `mb_proc_step` with one function
-- for each case of its switch, and `mb_proc_run`. A case of the switch that fetches several bytes
-- fetches them one after the other, and each that is missing returns `MB_EOF`.
pub mod Bif
pub mod Ops
pub mod Data
pub mod Keeps
pub mod Ends
pub mod OfCaller
pub mod Resend
pub mod Healthy
pub mod Safe
mod Tests
pub mod Sound
use os_ii.Prelude.{ℕ, zero, suc, ◌+◌, ltb, ◌==◌, ◌&&◌, ◌||◌, not, Bool, true, false, if◌then◌else◌}
use os_ii.Status.{Status, ok, bad_opcode, is_ok}
use os_ii.Run
use os_ii.Run.{Run, done}
use os_ii.Hal.{Hal}
use os_ii.Process.{Process}
use os_ii.Table.{is_ready}
use os_ii.Opcode
use os_ii.Machine.{
  Machine, Caller, alone, in_table, Flow, Cmd, next, stop, pure, ◌>>=◌, fail, need_u8,
}
use Ops.{
  op_const_i32, op_move_add_sub, op_call_bif, op_recv_cmd, op_send, op_self, op_yield, op_jmp,
  op_jmp_if_zero, op_sleep_ms, op_halt,
}
use Data.{op_make_tuple, op_tuple_elem, op_cons, op_cell_word}

-- The result of a case: falling off its end is `return MB_OK`.
unfoldable pub finish : {W : Type 0} → Flow W (Unit {0}) → Run (Status × Machine W)
finish (next u m) = done (ok, m)
finish (stop s m) = done (s, m)
finish Flow.fault = Run.fault
finish Flow.out_of_fuel = Run.out_of_fuel

-- `sched != NULL && proc->state != MB_PROC_READY`
unfoldable pub has_yielded : {W : Type 0} → Machine W → Bool
has_yielded m = elim m.caller [ alone ↦ false | in_table slot procs ↦ not (is_ready m.proc.state) ]

module _ {W : Type 0} (hal : Hal W) where
  -- The switch on the opcode.
  unfoldable pub dispatch : ℕ → ℕ → Cmd W (Unit {0})
  dispatch pre_op_pc op =
      if op == Opcode.nop
      then pure tt
      else if op == Opcode.const_i32
      then op_const_i32
      else if (op == Opcode.move) || (op == Opcode.add) || (op == Opcode.sub)
      then op_move_add_sub op
      else if op == Opcode.call_bif
      then op_call_bif hal
      else if op == Opcode.recv_cmd
      then op_recv_cmd pre_op_pc
      else if op == Opcode.send
      then op_send
      else if op == Opcode.self
      then op_self
      else if op == Opcode.yield
      then op_yield
      else if op == Opcode.jmp
      then op_jmp
      else if op == Opcode.jmp_if_zero
      then op_jmp_if_zero
      else if op == Opcode.sleep_ms
      then op_sleep_ms hal
      else if op == Opcode.make_tuple
      then op_make_tuple
      else if op == Opcode.tuple_elem
      then op_tuple_elem
      else if op == Opcode.cons
      then op_cons
      else if op == Opcode.head
      then op_cell_word 0
      else if op == Opcode.tail
      then op_cell_word 1
      else if op == Opcode.halt
      then op_halt
      else fail bad_opcode

  -- The body of `mb_proc_step` behind its test of `halted`.
  unfoldable pub execute : Cmd W (Unit {0})
  execute m = (need_u8 >>= λ op. dispatch m.proc.pc op) m

  -- `mb_proc_step`
  unfoldable pub proc_step : Machine W → Run (Status × Machine W)
  proc_step m = if m.proc.is_halted then done (ok, m) else finish (execute m)

  -- The `while` of `mb_proc_run`, on fuel. `reductions` is below `max_steps` where it is counted up,
  -- so the `uint32_t` does not wrap.
  unfoldable pub run_loop : ℕ → ℕ → Machine W → Run (Status × Machine W)
  run_loop zero max_steps m = Run.out_of_fuel
  run_loop (suc fuel) max_steps m = elim (not m.proc.is_halted && ltb m.proc.reductions max_steps) [
    | false ↦ done (ok, m)
    | true ↦ Run.◌>>=◌ (proc_step m) λ (rc, m').
        if not (is_ok rc)
        then done (rc, m')
        else if has_yielded m'
        then done (ok, m')
        else run_loop fuel max_steps
            (record m' { proc = record (m'.proc) { reductions = m'.proc.reductions + 1 } })
  ]

  -- `mb_proc_run`
  unfoldable pub proc_run : ℕ → ℕ → Machine W → Run (Status × Machine W)
  proc_run fuel max_steps m =
      run_loop fuel max_steps (record m { proc = record (m.proc) { reductions = 0 } })
