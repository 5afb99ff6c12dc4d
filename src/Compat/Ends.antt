-- ===== src/Compat/Ends.antt =====
-- Whether `mb_vm_run` of src/mb_vm.c (erts/example/mini_beam_esp32) returns: up to 64 instructions it
-- does, and beyond 66 a program that yields in a loop keeps it for ever.
use os_ii.Prelude.{
  ℕ, zero, suc, ◌+◌, ◌≤◌, ◌<◌, ◌≡◌, ◌≢◌, refl, arith, lt→ltb, false, List, [], ◌∷◌, ◌∙◌,
}
use os_ii.Status.{Status, ok}
use os_ii.Run.{Run, done, Gives->>=}
use os_ii.Hal.{Hal}
use os_ii.Process.{Process, max_reductions}
use os_ii.Machine.{
  Machine, alone, ◌>>=◌, get_proc, put_proc, need_u8, need_i32, fetch_u8, or_eof, i32_of_bytes,
}
use os_ii.Vm.{proc_step, run_loop, proc_run, execute, dispatch, finish, has_yielded}
use os_ii.Vm.Ops.{op_yield, op_jmp, jump}
use os_ii.Table.Fits.{HeapFits}
use os_ii.Vm.Ends.{Fit, proc_run-Ends}
use os_ii.Compat.{Vm, to_proc, from_proc, run}

to_proc-HeapFits : (vm : Vm) → HeapFits (to_proc vm)
unfolding to_proc
to_proc-HeapFits vm = record {
  heap = record { words_a = omega arith; words_b = omega arith; within = omega arith };
}

module _ {W : Type 0} (hal : Hal W) where
  -- `mb_vm_run` ends: for at most 64 instructions its rounds do not run out where it is given more of
  -- them than instructions, whatever the program, the state and the hardware.
  pub run_ends :
      (fuel : ℕ) (vm : Vm) (max_steps : ℕ) (world : W)
      → max_steps ≤ max_reductions
      → max_steps < fuel
      → run hal fuel vm max_steps world ≢ Run.out_of_fuel
  unfolding run
  run_ends fuel vm max_steps world le enough e =
      let m : Machine W = record { proc = to_proc vm; caller = alone; world = world } in
      rw e at (
        Gives->>= ⊥ (λ x. Fit x.1) (λ (x : Status × Vm × W). Unit {0})
          (proc_run hal fuel max_steps m) (λ r. done (r.0, from_proc r.1.proc vm, r.1.world))
          (proc_run-Ends hal fuel max_steps m le enough (to_proc-HeapFits vm, tt)) (λ r f. tt))

-- `loop: YIELD; JMP loop`
abbrev pub yield_loop : List ℕ
yield_loop = 0x23 ∷ 0x30 ∷ 0xFA ∷ 0xFF ∷ 0xFF ∷ 0xFF ∷ []

abbrev at_pc : {W : Type 0} → Process → ℕ → ℕ → W → Machine W
at_pc p pc reductions world = record {
  proc = record p { program = yield_loop; pc = pc; is_halted = false; reductions = reductions };
  caller = alone;
  world = world;
}

module _ {W : Type 0} (hal : Hal W) where
  proc_step_yield :
      (p : Process) (r : ℕ) (world : W)
      → proc_step hal (at_pc p 0 r world) ≡ done (ok, at_pc p 1 max_reductions world)
  unfolding proc_step execute need_u8 ◌>>=◌ get_proc put_proc fetch_u8 or_eof dispatch op_yield
      finish
  proc_step_yield p r world = refl

  proc_step_jmp :
      (p : Process) (r : ℕ) (world : W)
      → proc_step hal (at_pc p 1 r world) ≡ done (ok, at_pc p 0 r world)
  unfolding proc_step execute need_u8 need_i32 ◌>>=◌ get_proc put_proc fetch_u8 or_eof dispatch
      op_jmp jump i32_of_bytes finish
  proc_step_jmp p r world = refl

  round_yield :
      (fuel max_steps : ℕ) (p : Process) (r : ℕ) (world : W)
      → r < max_steps
      → run_loop hal (suc fuel) max_steps (at_pc p 0 r world)
        ≡ run_loop hal fuel max_steps (at_pc p 1 (max_reductions + 1) world)
  unfolding run_loop has_yielded
  round_yield fuel max_steps p r world lt =
      rw (run_loop, lt→ltb r max_steps lt, proc_step_yield p r world) refl

  round_jmp :
      (fuel max_steps : ℕ) (p : Process) (r : ℕ) (world : W)
      → r < max_steps
      → run_loop hal (suc fuel) max_steps (at_pc p 1 r world)
        ≡ run_loop hal fuel max_steps (at_pc p 0 (r + 1) world)
  unfolding run_loop has_yielded
  round_jmp fuel max_steps p r world lt =
      simp (run_loop, lt→ltb r max_steps lt, proc_step_jmp p r world)

  loop_spins :
      (fuel max_steps : ℕ) (p : Process) (r : ℕ) (world : W)
      → r < max_steps
      → max_reductions + 2 < max_steps
      → run_loop hal fuel max_steps (at_pc p 0 r world) ≡ Run.out_of_fuel
  unfolding run_loop
  loop_spins zero max_steps p r world lt many = refl
  loop_spins (suc zero) max_steps p r world lt many =
      unfold run_loop in round_yield zero max_steps p r world lt
  loop_spins (suc (suc fuel)) max_steps p r world lt many =
      round_yield (suc fuel) max_steps p r world lt
      ∙ round_jmp fuel max_steps p (max_reductions + 1) world (omega arith)
      ∙ loop_spins fuel max_steps p (max_reductions + 2) world many many

  -- A `YIELD` in a loop keeps `mb_vm_run` for ever: with more than 66 instructions allowed, the program
  -- `loop: YIELD; JMP loop` at its start, not halted, uses up any number of rounds, whatever the
  -- registers, the mailbox and the hardware.
  pub run_spins :
      (fuel : ℕ) (vm : Vm) (max_steps : ℕ) (world : W)
      → max_reductions + 2 < max_steps
      → run hal fuel (record vm { program = yield_loop; pc = 0; is_halted = false }) max_steps world
        ≡ Run.out_of_fuel
  unfolding run to_proc proc_run
  run_spins fuel vm max_steps world many =
      rw
        (loop_spins fuel max_steps (to_proc (record vm { is_halted = false })) 0 world (omega arith)
          many)
        refl
