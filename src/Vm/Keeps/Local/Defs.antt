-- ===== src/Vm/Keeps/Local/Defs.antt =====
-- What the assignments of the interpreter of src/mb_vm.c (erts/example/mini_beam_esp32) have to keep of
-- the running process and of the table it stands in.
use os_ii.Prelude.{ℕ, ◌≡◌, set, List, true}
use os_ii.Status.{Status}
use os_ii.Run.{Gives}
use os_ii.Term.{Term}
use os_ii.Command.{Command}
use os_ii.Heap.{make_tuple, cons}
use os_ii.Heap.Gc.{gc}
use os_ii.Mailbox.{pop_raw}
use os_ii.Process.{Process, waiting, sleeping, halted, max_reductions}
use os_ii.Table.{Table, entry, deliver}
use os_ii.Machine.{Machine, Caller, in_table}

-- `I` is kept of the process, and `C` of the caller; `T` if the collector's scan ran out of fuel.
pub record Local (T : Type 0) (I : Process → Type 0) (C : Caller → Type 0) : Type 0 where
  pub on_error : (p : Process) (s : Status) → I p → I (record p { last_error = s })
  pub on_pc : (p : Process) (pc : ℕ) → I p → I (record p { pc = pc })
  pub on_regs : (p : Process) (regs : List Term) → I p → I (record p { regs = regs })
  pub on_yield : (p : Process) → I p → I (record p { reductions = max_reductions })
  pub on_halt : (p : Process) → I p → I (record p { is_halted = true; state = halted })
  pub on_sleep :
      (p : Process) (until : ℕ) → I p → I (record p { sleep_until_ms = until; state = sleeping })
  pub on_pop : (p : Process) → I p → I (record p { mailbox = (pop_raw p.mailbox).1 })
  pub on_block :
      (p : Process) (pc : ℕ) → I p → p.mailbox.count ≡ 0 → I (record p { pc = pc; state = waiting })
  pub on_collect :
      (p : Process)
      → I p
      → Gives T (λ x. I (record p { regs = x.0; heap = x.1 })) (gc p.heap p.regs)
  pub on_make_tuple :
      (p : Process) (elems : List Term)
      → I p
      → Gives T (λ x. I (record p { heap = x.1 })) (make_tuple p.heap elems)
  pub on_cons :
      (p : Process) (head tail : Term)
      → I p
      → Gives T (λ x. I (record p { heap = x.1 })) (cons p.heap head tail)
  pub on_send :
      (slot : ℕ) (procs : Table) (p : Process) (i : ℕ) (cmd : Command)
      → I p
      → C (in_table slot procs)
      → let live = set procs slot p in
        let live' = set live i (deliver (entry live i) cmd).1 in
        I (entry live' slot) × C (in_table slot live')

-- `C` may hold of the table as the running process was last written into it, as `on_send` has it.
abbrev pub Both : {W : Type 0} → (Process → Type 0) → (Caller → Type 0) → Machine W → Type 0
Both I C m = I m.proc × C m.caller
