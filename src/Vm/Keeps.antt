-- ===== src/Vm/Keeps.antt =====
-- Invariants of the interpreter of src/mb_vm.c (erts/example/mini_beam_esp32): what it is for a
-- command to keep a property of the machine, and what the primitives must keep.
pub mod Cases
pub mod Local
pub mod Runs
use os_ii.Prelude.{
  ℕ, zero, suc, Bool, true, false, if◌then◌else◌, List, [], ◌∷◌, get_elem?, ℤ, not, ◌&&◌, ltb,
  Option, none, some,
}
use os_ii.Status.{Status, ok, is_ok}
use os_ii.Run
use os_ii.Run.{Run, done, in_range}
use os_ii.Term.{Term}
use os_ii.Heap.{Heap, Space, words, read}
use os_ii.Hal.{Hal}
use os_ii.Machine.{
  Machine, Flow, Cmd, next, stop, pure, and_then, ◌>>=◌, lift, get_proc, get_caller, drive, crash,
  give_up, set_error, fail, need_u8, need_i32, check_regs, reg, reg_int, set_reg,
}
use os_ii.Vm.{finish, dispatch, execute, proc_step, has_yielded, run_loop, proc_run}
use os_ii.Vm.Bif.{
  arg_int, answer, bif_gpio_write, bif_gpio_read, bif_pwm_set_duty, bif_pwm_config,
  bif_i2c_read_reg, bif_i2c_write_reg, bif_monotonic_ms, call_bif,
}
use os_ii.Vm.Ops.{
  op_const_i32, op_move_add_sub, fetch_regs, recv_with, op_recv_cmd, send_with, op_send, op_self,
  op_yield, jump, op_jmp, op_jmp_if_zero, op_halt, op_call_bif, sleep_for, op_sleep_ms,
}
use os_ii.Vm.Data.{
  fetch_elems, collect, try_tuple, op_make_tuple, op_tuple_elem, try_cons, op_cons, op_cell_word,
}

-- `P` holds where the command goes on and where it returns early, and `T` where a loop of it ran out
-- of fuel.
abbrev pub After : {W A : Type 0} → Type 0 → (Machine W → Type 0) → Flow W A → Type 0
After T P (next a m) = P m
After T P (stop s m) = P m
After T P Flow.fault = Unit
After T P Flow.out_of_fuel = T

pub record Keeps {W A : Type 0} (T : Type 0) (P : Machine W → Type 0) (c : Cmd W A) : Type 0 where
  pub at : (m : Machine W) → P m → After T P (c m)

module _ {W : Type 0} {T : Type 0} {P : Machine W → Type 0} where
  pub Keeps-pure : {A : Type 0} (a : A) → Keeps T P (pure a)
  Keeps-pure a = record { at = λ m h. h }

  After-and_then :
      {A B : Type 0} (fl : Flow W A) (k : A → Cmd W B)
      → After T P fl
      → ((a : A) → Keeps T P (k a))
      → After T P (and_then fl k)
  After-and_then (next a m) k h kk = (kk a).at m h
  After-and_then (stop s m) k h kk = h
  After-and_then Flow.fault k h kk = tt
  After-and_then Flow.out_of_fuel k h kk = h

  pub Keeps-bind :
      {A B : Type 0} (c : Cmd W A) (k : A → Cmd W B)
      → Keeps T P c
      → ((a : A) → Keeps T P (k a))
      → Keeps T P (c >>= k)
  unfolding ◌>>=◌
  Keeps-bind c k kc kk = record { at = λ m h. After-and_then (c m) k (kc.at m h) kk }

  pub Keeps-if :
      {A : Type 0} (b : Bool) (c d : Cmd W A)
      → Keeps T P c
      → Keeps T P d
      → Keeps T P (if b then c else d)
  Keeps-if true c d kc kd = kc
  Keeps-if false c d kc kd = kd

  pub Keeps-in_range : {A : Type 0} (o : Option A) → Keeps T P (lift (in_range o))
  Keeps-in_range none = record { at = λ m h. tt }
  Keeps-in_range (some a) = record { at = λ m h. h }

  pub Keeps-read : (heap : Heap) (p : Space) (off : ℕ) → Keeps T P (lift (read heap p off))
  unfolding read
  Keeps-read heap p off = Keeps-in_range (get_elem? (words heap p) off)

  pub Keeps-get_proc : Keeps T P get_proc
  unfolding get_proc
  Keeps-get_proc = record { at = λ m h. h }

  pub Keeps-get_caller : Keeps T P get_caller
  unfolding get_caller
  Keeps-get_caller = record { at = λ m h. h }

  pub Keeps-crash : {A : Type 0} → Keeps {A = A} T P crash
  unfolding crash
  Keeps-crash = record { at = λ m h. tt }

  pub Keeps-give_up : {A : Type 0} (s : Status) → Keeps {A = A} T P (give_up s)
  Keeps-give_up s = record { at = λ m h. h }

  pub Keeps-reg : (r : ℕ) → Keeps T P (reg r)
  unfolding reg
  Keeps-reg r = Keeps-bind _ _ Keeps-get_proc (λ p. Keeps-in_range (get_elem? p.regs r))

  pub Keeps-reg_int : (r : ℕ) → Keeps T P (reg_int r)
  unfolding reg_int
  Keeps-reg_int r = Keeps-bind (reg r) _ (Keeps-reg r) (λ t. Keeps-pure _)

pub ruleset keeps_rules = (
  Keeps-pure, Keeps-bind, Keeps-if, Keeps-in_range, Keeps-read, Keeps-get_proc, Keeps-get_caller,
  Keeps-crash, Keeps-give_up, Keeps-reg, Keeps-reg_int,
)

-- What the primitives must keep. `recv`, `send` and `sleep` are the instructions of these names
-- behind the test of their registers.
pub record Rules {W : Type 0} (hal : Hal W) (T : Type 0) (P : Machine W → Type 0) : Type 1 where
  pub fetch : Keeps T P need_u8
  pub failing : (s : Status) → Keeps {A = Unit {0}} T P (fail s)
  pub writing : (r : ℕ) (t : Term) → Keeps T P (set_reg r t)
  pub error : (s : Status) → Keeps T P (set_error s)
  pub driving : {A : Type 0} (f : W → A × W) → Keeps T P (drive f)
  pub yielding : Keeps T P op_yield
  pub jumping : (offset : ℤ) → Keeps T P (jump offset)
  pub halting : Keeps T P op_halt
  pub receiving : (pc r_type r_a r_b r_c r_d : ℕ) → Keeps T P (recv_with pc r_type r_a r_b r_c r_d)
  pub sending :
      (r_pid r_type r_a r_b r_c r_d : ℕ) → Keeps T P (send_with r_pid r_type r_a r_b r_c r_d)
  pub sleeping : (ms : ℤ) → Keeps T P (sleep_for hal ms)
  pub collecting : Keeps T P collect
  pub tupling : (elems : List Term) → Keeps T P (try_tuple elems)
  pub consing : (r_head r_tail : ℕ) → Keeps T P (try_cons r_head r_tail)
