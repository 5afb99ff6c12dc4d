-- ===== src/Vm/Safe/Ops.antt =====
-- The cases of `mb_proc_step` of src/mb_vm.c (erts/example/mini_beam_esp32) on numbers, jumps, calls and
-- sleep, on processes with a property that obeys the laws.
use os_ii.Prelude.{ℕ, zero, suc, refl, ltb, ◌==◌, [], ◌∷◌, ℤ, neg_part}
use os_ii.Status.{ok, eof, bad_argc, is_ok}
use os_ii.Hal.{Hal}
use os_ii.Process.{Process}
use os_ii.Opcode
use os_ii.Machine.{Caller, alone, in_table}
use os_ii.Vm.Ops.{
  op_const_i32, op_move_add_sub, fetch_regs, op_self, op_yield, jump, op_jmp, op_jmp_if_zero,
  op_halt, op_call_bif, sleep_by, sleep_for, op_sleep_ms,
}
use os_ii.Vm.Safe.{Laws, Safely, Any}
use os_ii.Vm.Safe.Rules.{
  Safely-move, Regs, Safely-bind, Safely-pure, Safely-if, Safely-get_proc, Safely-put_proc,
  Safely-get_caller, Safely-drive, Safely-set_error, Safely-fail, Safely-need_u8, Safely-need_i32,
  Safely-check_regs, Safely-reg, Safely-reg_int, Safely-set_int, Safely-set_pid,
}
use os_ii.Vm.Safe.Bifs.{Safely-call_bif}

module _ {G : Process → Type 0} ⦃laws : Laws G⦄ {W : Type 0} where
  pub Safely-op_const_i32 : Safely {W = W} G Any op_const_i32
  unfolding op_const_i32
  Safely-op_const_i32 = Safely-bind Safely-need_u8 λ dst _.
      Safely-bind Safely-need_i32
        λ val _. Safely-bind (Safely-check_regs (dst ∷ [])) λ _ rs. Safely-set_int dst val rs.0

  pub Safely-op_move_add_sub : (op : ℕ) → Safely {W = W} G Any (op_move_add_sub op)
  unfolding op_move_add_sub
  Safely-op_move_add_sub op = Safely-bind Safely-need_u8 λ dst _. Safely-bind Safely-need_u8 λ a _.
      Safely-bind Safely-need_u8 λ b _.
        Safely-bind (Safely-check_regs (dst ∷ a ∷ b ∷ [])) λ _ (in_dst, (in_a, (in_b, _))).
          Safely-if (op == Opcode.move) (λ _. Safely-move dst a in_dst in_a)
            λ _.
              Safely-bind (Safely-reg_int a in_a)
                λ x _. Safely-bind (Safely-reg_int b in_b) λ y _. Safely-set_int dst _ in_dst

  Safely-fetch_regs : (n : ℕ) → Safely {W = W} G Regs (fetch_regs n)
  unfolding fetch_regs
  Safely-fetch_regs zero = Safely-pure tt
  Safely-fetch_regs (suc n) = Safely-bind Safely-need_u8 λ r _.
      Safely-bind (Safely-check_regs (r ∷ []))
        λ _ in_r. Safely-bind (Safely-fetch_regs n) λ rs in_rs. Safely-pure (in_r.0, in_rs)

  pub Safely-op_self : Safely {W = W} G Any op_self
  unfolding op_self
  Safely-op_self = Safely-bind Safely-need_u8 λ r_dst _.
      Safely-bind (Safely-check_regs (r_dst ∷ []))
        λ _ rs. Safely-bind Safely-get_proc λ p _. Safely-set_pid r_dst p.pid rs.0

  pub Safely-op_yield : Safely {W = W} G Any op_yield
  unfolding op_yield
  Safely-op_yield =
      Safely-bind Safely-get_proc λ p s. Safely-put_proc _ (laws.same p _ refl refl refl refl s)

  Safely-jump : (offset : ℤ) → Safely {W = W} G Any (jump offset)
  unfolding jump
  Safely-jump offset = Safely-bind Safely-get_proc λ p s.
      Safely-if (ltb p.pc (neg_part offset)) (λ _. Safely-fail eof)
        λ _.
          Safely-bind (Safely-put_proc _ (laws.same p _ refl refl refl refl s))
            λ _ _. Safely-if _ (λ _. Safely-fail eof) (λ _. Safely-pure tt)

  pub Safely-op_jmp : Safely {W = W} G Any op_jmp
  unfolding op_jmp
  Safely-op_jmp = Safely-bind Safely-need_i32 λ offset _. Safely-jump offset

  pub Safely-op_jmp_if_zero : Safely {W = W} G Any op_jmp_if_zero
  unfolding op_jmp_if_zero
  Safely-op_jmp_if_zero = Safely-bind Safely-need_u8 λ r _. Safely-bind Safely-need_i32 λ offset _.
      Safely-bind (Safely-check_regs (r ∷ [])) λ _ rs.
        Safely-bind (Safely-reg r rs.0)
          λ t _. Safely-if _ (λ _. Safely-jump offset) (λ _. Safely-pure tt)

  pub Safely-op_halt : Safely {W = W} G Any op_halt
  unfolding op_halt
  Safely-op_halt =
      Safely-bind Safely-get_proc λ p s. Safely-put_proc _ (laws.same p _ refl refl refl refl s)

module _ {G : Process → Type 0} ⦃laws : Laws G⦄ {W : Type 0} (hal : Hal W) where
  pub Safely-op_call_bif : Safely G Any (op_call_bif hal)
  unfolding op_call_bif
  Safely-op_call_bif = Safely-bind Safely-need_u8 λ bif _. Safely-bind Safely-need_u8 λ argc _.
      Safely-if (ltb 8 argc) (λ _. Safely-fail bad_argc)
        λ _. Safely-bind (Safely-fetch_regs argc) λ args rs. Safely-bind Safely-need_u8 λ dst _.
          Safely-bind (Safely-call_bif hal bif args dst rs)
            λ rc _. Safely-if (is_ok rc) (λ _. Safely-set_error ok) (λ _. Safely-fail rc)

  Safely-sleep_by : (c : Caller) (ms : ℤ) → Safely G Any (sleep_by hal c ms)
  unfolding sleep_by
  Safely-sleep_by alone ms = Safely-drive _
  Safely-sleep_by (in_table slot procs) ms = Safely-bind (Safely-drive hal.monotonic_ms) λ now _.
      Safely-bind Safely-get_proc λ p s. Safely-put_proc _ (laws.same p _ refl refl refl refl s)

  pub Safely-op_sleep_ms : Safely G Any (op_sleep_ms hal)
  unfolding op_sleep_ms sleep_for
  Safely-op_sleep_ms = Safely-bind Safely-need_u8 λ r _.
      Safely-bind (Safely-check_regs (r ∷ [])) λ _ rs.
        Safely-bind (Safely-reg_int r rs.0)
          λ ms _. Safely-bind Safely-get_caller λ c _. Safely-sleep_by c ms
