-- ===== src/Vm/Safe/Runs.antt =====
-- `mb_proc_step` and `mb_proc_run` of src/mb_vm.c (erts/example/mini_beam_esp32) on processes with a
-- property that obeys the laws, given the cases that look at the heap.
use os_ii.Prelude.{
  ◌<◌, ℕ, zero, suc, refl, Bool, true, false, not, ◌&&◌, ◌||◌, ◌==◌, ltb, if◌then◌else◌, ==→eq,
  arith,
}
use os_ii.Status.{Status, ok, bad_opcode, is_ok}
use os_ii.Run
use os_ii.Run.{Run, done, Secure}
use os_ii.Hal.{Hal}
use os_ii.Opcode
use os_ii.Machine.{fail, Machine, Flow, next, stop}
use os_ii.Vm.{finish, dispatch, execute, proc_step, has_yielded, run_loop, proc_run}
use os_ii.Vm.Safe.{Laws, MailLaws, SafeMachine, Post, Safely, Any}
use os_ii.Process.{Process}
use mathlib.Core.Path.{subst}
use os_ii.Vm.Ops.{op_halt}
use os_ii.Vm.Data.{op_make_tuple, op_tuple_elem, op_cons, op_cell_word}
use os_ii.Vm.Safe.Rules.{Safely-bind, Safely-pure, Safely-if, Safely-fail, Safely-need_u8}
use os_ii.Vm.Safe.Ops.{
  Safely-op_const_i32, Safely-op_move_add_sub, Safely-op_call_bif, Safely-op_self, Safely-op_yield,
  Safely-op_jmp, Safely-op_jmp_if_zero, Safely-op_sleep_ms, Safely-op_halt,
}
use os_ii.Vm.Safe.Messages.{Safely-op_recv_cmd, Safely-op_send}

-- The cases on tuples and cells, which look at the heap.
pub record Cases (G : Process → Type 0) ⦃laws : Laws G⦄ (W : Type 0) : Type 0 where
  pub tuple : laws.Op Opcode.make_tuple → Safely {W = W} G Any op_make_tuple
  pub elem : Safely {W = W} G Any op_tuple_elem
  pub cons : Safely {W = W} G Any op_cons
  pub word : (n : ℕ) → n < 2 → Safely {W = W} G Any (op_cell_word n)

abbrev pub SecureRun :
    {W : Type 0} → (Process → Type 0) → Type 0 → Run (Status × Machine W) → Type 0
SecureRun G T = Secure T (λ x. SafeMachine G x.1)

module _ (G : Process → Type 0) ⦃laws : Laws G⦄ ⦃mails : MailLaws G⦄ {W : Type 0}
    (cases : Cases G W) (hal : Hal W) where
  -- The opcodes from `MAKE_TUPLE` on.
  on_heap :
      (op : ℕ)
      → laws.Op op
      → Safely {W = W} G Any (
          if op == Opcode.make_tuple
          then op_make_tuple
          else if op == Opcode.tuple_elem
          then op_tuple_elem
          else if op == Opcode.cons
          then op_cons
          else if op == Opcode.head
          then op_cell_word 0
          else if op == Opcode.tail
          then op_cell_word 1
          else if op == Opcode.halt
          then op_halt
          else fail bad_opcode)
  on_heap op h =
      Safely-if (op == Opcode.make_tuple)
        (λ e. cases.tuple (subst laws.Op (==→eq op Opcode.make_tuple e) h))
        λ _.
          Safely-if (op == Opcode.tuple_elem) (λ _. cases.elem)
            λ _.
              Safely-if (op == Opcode.cons) (λ _. cases.cons)
                λ _.
                  Safely-if (op == Opcode.head) (λ _. cases.word 0 (omega arith))
                    λ _.
                      Safely-if (op == Opcode.tail) (λ _. cases.word 1 (omega arith))
                        λ _.
                          Safely-if (op == Opcode.halt) (λ _. Safely-op_halt)
                            (λ _. Safely-fail bad_opcode)

  Safely-dispatch : (pc op : ℕ) → laws.Op op → Safely G Any (dispatch hal pc op)
  unfolding dispatch
  Safely-dispatch pc op h =
      Safely-if (op == Opcode.nop) (λ _. Safely-pure tt)
        λ _.
          Safely-if (op == Opcode.const_i32) (λ _. Safely-op_const_i32)
            λ _.
              Safely-if ((op == Opcode.move) || (op == Opcode.add) || (op == Opcode.sub))
                (λ _. Safely-op_move_add_sub op)
                λ _.
                  Safely-if (op == Opcode.call_bif) (λ _. Safely-op_call_bif hal)
                    λ _.
                      Safely-if (op == Opcode.recv_cmd) (λ _. Safely-op_recv_cmd pc)
                        λ _.
                          Safely-if (op == Opcode.send) (λ _. Safely-op_send)
                            λ _.
                              Safely-if (op == Opcode.self) (λ _. Safely-op_self)
                                λ _.
                                  Safely-if (op == Opcode.yield) (λ _. Safely-op_yield)
                                    λ _.
                                      Safely-if (op == Opcode.jmp) (λ _. Safely-op_jmp)
                                        λ _.
                                          Safely-if (op == Opcode.jmp_if_zero)
                                            (λ _. Safely-op_jmp_if_zero)
                                            λ _.
                                              Safely-if (op == Opcode.sleep_ms)
                                                (λ _. Safely-op_sleep_ms hal) λ _. on_heap op h

  Safely-execute : Safely G Any (execute hal)
  unfolding execute
  Safely-execute = record {
    at = λ m h.
        (Safely-bind {G = G} {R = Any} {k = λ op. dispatch hal m.proc.pc op} Safely-need_u8
            (λ op op_h. Safely-dispatch m.proc.pc op op_h)).at
          m h;
  }

  finish-Secure : (fl : Flow W (Unit {0})) → Post G Any fl → SecureRun G ⊥ (finish fl)
  unfolding finish
  finish-Secure (next u m) h = h.1
  finish-Secure (stop rc m) h = h
  finish-Secure Flow.fault h = h
  finish-Secure Flow.out_of_fuel h = h

  if-Secure :
      {A : Type 0} (T : Type 0) (P : A → Type 0) (b : Bool) (x y : Run A)
      → Secure T P x
      → Secure T P y
      → Secure T P (if b then x else y)
  if-Secure T P true x y hx hy = hx
  if-Secure T P false x y hx hy = hy

  pub step-Secure : (m : Machine W) → SafeMachine G m → SecureRun G ⊥ (proc_step hal m)
  unfolding proc_step
  step-Secure m h =
      if-Secure _ _ m.proc.is_halted _ _ h (finish-Secure (execute hal m) (Safely-execute.at m h))

  round-Secure :
      (r : Run (Status × Machine W)) (f : Machine W → Run (Status × Machine W))
      → SecureRun G ⊥ r
      → ((m : Machine W) → SafeMachine G m → SecureRun G (Unit {0}) (f m))
      → SecureRun G (Unit {0}) (
          Run.◌>>=◌ r λ (rc, m').
            if not (is_ok rc)
            then done (rc, m')
            else if has_yielded m'
            then done (ok, m')
            else f m')
  round-Secure (done (rc, m)) f h k =
      if-Secure _ _ (not (is_ok rc)) _ _ h (if-Secure _ _ (has_yielded m) _ _ h (k m h))
  round-Secure Run.fault f h k = absurd h
  round-Secure Run.out_of_fuel f h k = absurd h

  counted :
      (n : ℕ) (m : Machine W)
      → SafeMachine G m
      → SafeMachine G (record m { proc = record (m.proc) { reductions = n } })
  counted n m h = (laws.same m.proc _ refl refl refl refl h.0, h.1)

  run_loop-Secure :
      (fuel max_steps : ℕ) (m : Machine W)
      → SafeMachine G m
      → SecureRun G (Unit {0}) (run_loop hal fuel max_steps m)
  unfolding run_loop
  run_loop-Secure zero max_steps m h = tt
  run_loop-Secure (suc fuel) max_steps m h =
      chosen (not m.proc.is_halted && ltb m.proc.reductions max_steps) _ _ h (
        round-Secure (proc_step hal m) _ (step-Secure m h)
          (λ m' h'. run_loop-Secure fuel max_steps _ (counted _ m' h')))
    where
      chosen :
          (b : Bool) (x y : Run (Status × Machine W))
          → SecureRun G (Unit {0}) x
          → SecureRun G (Unit {0}) y
          → SecureRun G (Unit {0}) (elim b [ false ↦ x | true ↦ y ])
      chosen true x y hx hy = hy
      chosen false x y hx hy = hx

  pub run-Secure :
      (fuel max_steps : ℕ) (m : Machine W)
      → SafeMachine G m
      → SecureRun G (Unit {0}) (proc_run hal fuel max_steps m)
  unfolding proc_run
  run-Secure fuel max_steps m h = run_loop-Secure fuel max_steps _ (counted 0 m h)
