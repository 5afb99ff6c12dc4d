-- ===== src/Vm/Safe/Steps.antt =====
-- `mb_proc_step` and `mb_proc_run` of src/mb_vm.c (erts/example/mini_beam_esp32) on processes that build no
-- tuple.
use os_ii.Prelude.{ℕ, refl}
use os_ii.Hal.{Hal}
use os_ii.Machine.{Machine}
use os_ii.Vm.{proc_step, proc_run}
use os_ii.Vm.Safe.{SafeMachine}
use os_ii.Vm.Safe.Tupleless.{IsSafe, safe_laws, safe_mails}
use os_ii.Vm.Safe.Data.{Safely-op_tuple_elem, Safely-op_cell_word}
use os_ii.Vm.Safe.Cons.{Safely-op_cons}
use os_ii.Vm.Safe.Runs.{Cases, SecureRun, step-Secure, run-Secure}

safe_cases : {W : Type 0} → Cases IsSafe W
safe_cases = record {
  tuple = λ ne. absurd (ne refl);
  elem = Safely-op_tuple_elem;
  cons = Safely-op_cons;
  word = Safely-op_cell_word;
}

module _ {W : Type 0} (hal : Hal W) where
  -- An instruction is type-safe: on a process with a well-formed heap, registers that hold terms of it,
  -- a valid mailbox and no byte 0x50, the opcode of `MAKE_TUPLE`, in its program, alone or at its index
  -- of a table in which every mailbox is valid and every entry that is not free is such a process,
  -- `mb_proc_step` neither faults nor uses up the collector's rounds. Whatever status it returns, the
  -- process and the table that it leaves are such ones again.
  pub proc_step-Secure :
      (m : Machine W) → SafeMachine IsSafe m → SecureRun IsSafe ⊥ (proc_step hal m)
  proc_step-Secure m h = step-Secure IsSafe safe_cases hal m h

  pub proc_run-Secure :
      (fuel max_steps : ℕ) (m : Machine W)
      → SafeMachine IsSafe m
      → SecureRun IsSafe (Unit {0}) (proc_run hal fuel max_steps m)
  proc_run-Secure fuel max_steps m h = run-Secure IsSafe safe_cases hal fuel max_steps m h
