-- ===== src/Compat/Flat/Returns.antt =====
-- `mb_vm_step` and `mb_vm_run` of src/mb_vm.c (erts/example/mini_beam_esp32) on machines as `mb_vm_init`
-- makes them.
use os_ii.Prelude.{ℕ, zero, suc, ◌≤◌, ◌<◌, ◌≡◌, refl, List, [], replicate, length, All}
use os_ii.Status.{Status}
use os_ii.Run.{Run, done, ◌>>=◌, Secure, Secure->>=, Secure-Gives, Secure-Returns, Gives-ends}
use os_ii.Hal.{Hal}
use os_ii.Process.{max_reductions, reg_count}
use os_ii.Heap.Objects.{Sound, empty}
use os_ii.Machine.{Machine, alone}
use os_ii.Vm.{proc_step, proc_run}
use os_ii.Vm.Safe.{SafeMachine}
use os_ii.Vm.Safe.Runs.{step-Secure, run-Secure}
use os_ii.Compat.{Vm, to_proc, from_proc, init, step, run}
use os_ii.Compat.Ends.{run_ends}
use os_ii.Mailbox.{Mailbox}
use os_ii.Mailbox.Invariant.{IsValid, zero_mailbox-IsValid}
use os_ii.Compat.Flat.{IsFlat, flat_laws, flat_mails}
use os_ii.Compat.Flat.Cases.{flat_cases, Stops, heap_cases-Stops}
use os_ii.Vm.Data.{op_make_tuple, op_tuple_elem, op_cons, op_cell_word}

-- What `mb_vm_init` makes and the other functions keep: sixteen registers, each of which holds an
-- immediate term or the 0 that it started with.
pub record IsFlatVm (vm : Vm) : Type 0 where
  pub flat : All (Sound []) vm.regs
  pub size : length vm.regs ≡ reg_count

zeros : (n : ℕ) → All (Sound []) (replicate n 0)
zeros zero = tt
zeros (suc n) = (empty refl, zeros n)

pub init-IsFlatVm : (program : List ℕ) → IsFlatVm (init program)
unfolding init
init-IsFlatVm program = record { flat = zeros reg_count; size = refl }

-- Such registers, and a valid mailbox.
pub record IsSafeVm (vm : Vm) : Type 0 where
  pub registers : IsFlatVm vm
  pub mail : IsValid vm.mailbox

pub init-IsSafeVm : (program : List ℕ) → IsSafeVm (init program)
unfolding init
init-IsSafeVm program = record { registers = init-IsFlatVm program; mail = zero_mailbox-IsValid }

to_proc-IsFlat :
    {M : Mailbox → Type 0} (vm : Vm) → IsFlatVm vm → M vm.mailbox → IsFlat M (to_proc vm)
unfolding to_proc
to_proc-IsFlat vm f m = record {
  heap = record { from_null = refl; to_null = refl; capacity_zero = refl; hp_zero = refl };
  flat = f.flat;
  size = f.size;
  mail = m;
}

module _ {W : Type 0} (hal : Hal W) where
  -- What both functions do with what the interpreter has left.
  copied_back :
      (T : Type 0) (vm : Vm) (r : Run (Status × Machine W))
      → Secure T (λ x. SafeMachine (IsFlat IsValid) x.1) r
      → Secure T
          (λ (x : Status × Vm × W). IsSafeVm x.1)
          (r >>= λ (rc, m). done (rc, from_proc m.proc vm, m.world))
  unfolding from_proc
  copied_back T vm r h =
      Secure->>= T (λ x. SafeMachine (IsFlat IsValid) x.1) _ r _ h
        (λ (rc, m) f. record {
          registers = record { flat = f.0.flat; size = f.0.size };
          mail = f.0.mail;
        })

  -- `mb_vm_step` returns on a machine with a valid mailbox and such registers, and leaves one, for every
  -- program.
  pub step-Returns :
      (vm : Vm) (world : W)
      → IsSafeVm vm
      → (x : Status × Vm × W) × (step hal vm world ≡ done x) × IsSafeVm x.1
  unfolding step
  step-Returns vm world f = Secure-Returns _ _ (
      copied_back ⊥ vm (proc_step hal _) (
        step-Secure (IsFlat IsValid) (flat_cases IsValid) hal _
          (to_proc-IsFlat vm f.registers f.mail, tt)))

  run-Flat :
      (fuel : ℕ) (vm : Vm) (max_steps : ℕ) (world : W)
      → IsSafeVm vm
      → Secure (Unit {0}) (λ x. IsSafeVm x.1) (run hal fuel vm max_steps world)
  unfolding run
  run-Flat fuel vm max_steps world f = copied_back Unit vm (proc_run hal fuel max_steps _) (
      run-Secure (IsFlat IsValid) (flat_cases IsValid) hal fuel max_steps _
        (to_proc-IsFlat vm f.registers f.mail, tt))

  -- The single-process interface is safe for every program, `MAKE_TUPLE` included: on a machine with a
  -- valid mailbox, whose sixteen registers hold immediate terms or the 0 that they started with,
  -- `mb_vm_run` with at most 64 instructions and more rounds than those neither faults nor uses the
  -- rounds up, and it leaves such a machine.
  pub run-Returns :
      (fuel : ℕ) (vm : Vm) (max_steps : ℕ) (world : W)
      → IsSafeVm vm
      → max_steps ≤ max_reductions
      → max_steps < fuel
      → (x : Status × Vm × W) × (run hal fuel vm max_steps world ≡ done x) × IsSafeVm x.1
  run-Returns fuel vm max_steps world f le enough =
      let (x, e, both) = Secure-Returns _ (run hal fuel vm max_steps world) (
        Secure-Gives Unit ⊥ (λ x. IsSafeVm x.1) (λ _. Unit {0}) (run hal fuel vm max_steps world)
          (run-Flat fuel vm max_steps world f)
          (Gives-ends (run hal fuel vm max_steps world)
            (run_ends hal fuel vm max_steps world le enough))) in
      (x, e, both.0)

-- In the single-process interface no instruction on tuples and cells gets to its end, since the heap is
-- not initialised: `MAKE_TUPLE`, `TUPLE_ELEM`, `CONS`, `HEAD` and `TAIL` return early with a status,
-- whatever the program and the operands, on a machine whose sixteen registers hold immediate terms or
-- the 0 that they started with.
pub no_objects :
    {W : Type 0} (vm : Vm) (world : W)
    → IsFlatVm vm
    → let m : Machine W = record { proc = to_proc vm; caller = alone; world = world } in
      Stops (op_make_tuple m)
      × Stops (op_tuple_elem m)
      × Stops (op_cons m)
      × Stops (op_cell_word 0 m)
      × Stops (op_cell_word 1 m)
no_objects vm world f = heap_cases-Stops (λ _. Unit {0}) _ (to_proc-IsFlat vm f tt, tt)
