-- ===== src/Compat/Tests.antt =====
-- The single-process interface of src/mb_vm.c (erts/example/mini_beam_esp32) on a fresh machine.
use os_ii.Prelude.{ℕ, List, ◌∷◌, ◌≡◌, ◌≢◌, false, arith, []}
use os_ii.Run.{out_of_fuel, done}
use os_ii.Hal.Board.{board}
use os_ii.Status.{Status}
use os_ii.Compat.Flat.Returns.{init-IsFlatVm, IsSafeVm, init-IsSafeVm, run-Returns, no_objects}
use os_ii.Compat.Flat.Cases.{Stops}
use os_ii.Vm.Data.{op_make_tuple, op_tuple_elem, op_cons, op_cell_word}
use os_ii.Machine.{Machine, alone}
use os_ii.Compat.{Vm, to_proc, init, run}
use os_ii.Compat.Ends.{yield_loop, run_ends, run_spins}

run_ends_example : run board 65 (init yield_loop) 64 0 ≢ out_of_fuel
run_ends_example = run_ends board 65 (init yield_loop) 64 0 (omega arith) (omega arith)

run_spins_example :
    run board 1000 (record (init []) { program = yield_loop; pc = 0; is_halted = false }) 128 0
    ≡ out_of_fuel
run_spins_example = run_spins board 1000 (init []) 128 0 (omega arith)

-- `MAKE_TUPLE`, `CONS` and `HEAD`, on registers that were never written.
abbrev building : List ℕ
building = 0x50 ∷ 0x03 ∷ 0x01 ∷ 0x02 ∷ 0x52 ∷ 0x04 ∷ 0x03 ∷ 0x03 ∷ 0x53 ∷ 0x05 ∷ 0x04 ∷ 0xFF ∷ []

run-Returns_example :
    (x : Status × Vm × ℕ) × (run board 65 (init building) 64 0 ≡ done x) × IsSafeVm x.1
run-Returns_example =
    run-Returns board 65 (init building) 64 0 (init-IsSafeVm building) (omega arith) (omega arith)

abbrev new_machine : Machine ℕ
new_machine = record {
  proc = to_proc (init (0x03 ∷ 0x02 ∷ 0x01 ∷ 0x02 ∷ []));
  caller = alone;
  world = 0;
}

no_objects_example :
    Stops (op_make_tuple new_machine)
    × Stops (op_tuple_elem new_machine)
    × Stops (op_cons new_machine)
    × Stops (op_cell_word 0 new_machine)
    × Stops (op_cell_word 1 new_machine)
no_objects_example = no_objects (init (0x03 ∷ 0x02 ∷ 0x01 ∷ 0x02 ∷ [])) 0 (init-IsFlatVm _)
