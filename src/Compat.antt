-- ===== src/Compat.antt =====
-- The single-process interface of include/mb_vm.h and src/mb_vm.c (erts/example/mini_beam_esp32):
-- a call copies the state into a process, steps or runs that with no scheduler, and copies back.
-- The process's heap is not initialised.
pub mod Ends
pub mod Flat
mod Tests
use os_ii.Prelude.{ℕ, Bool, false, if◌then◌else◌, List, replicate, Option}
use os_ii.Status.{Status, ok}
use os_ii.Run.{Run, done, ◌>>=◌}
use os_ii.Term.{Term}
use os_ii.Command.{Command}
use os_ii.Mailbox.{Mailbox, zero_mailbox, push_raw, pop_raw}
use os_ii.Hal.{Hal}
use os_ii.Process.{Process, ready, halted, zero_process, pid_none, reg_count}
use os_ii.Machine.{alone}
use os_ii.Vm.{proc_step, proc_run}

-- `mb_vm_t`
pub record Vm : Type 0 where
  pub program : List ℕ
  pub pc : ℕ
  pub regs : List Term
  pub mailbox : Mailbox
  pub is_halted : Bool
  pub last_error : Status

unfoldable pub to_proc : Vm → Process
to_proc vm = record zero_process {
  pid = pid_none;
  state = if vm.is_halted then halted else ready;
  program = vm.program;
  pc = vm.pc;
  regs = vm.regs;
  mailbox = vm.mailbox;
  is_halted = vm.is_halted;
  last_error = vm.last_error;
}

unfoldable pub from_proc : Process → Vm → Vm
from_proc proc vm = record vm {
  pc = proc.pc;
  regs = proc.regs;
  mailbox = proc.mailbox;
  is_halted = proc.is_halted;
  last_error = proc.last_error;
}

unfoldable pub init : List ℕ → Vm
init program = record {
  program = program;
  pc = 0;
  regs = replicate reg_count 0;
  mailbox = zero_mailbox;
  is_halted = false;
  last_error = ok;
}

unfoldable pub mailbox_push : Vm → Command → Status × Vm
mailbox_push vm cmd =
    let (rc, mailbox) = push_raw vm.mailbox cmd in (rc, record vm { mailbox = mailbox })

unfoldable pub mailbox_pop : Vm → Option Command × Vm
mailbox_pop vm = let (got, mailbox) = pop_raw vm.mailbox in (got, record vm { mailbox = mailbox })

module _ {W : Type 0} (hal : Hal W) where
  unfoldable pub step : Vm → W → Run (Status × Vm × W)
  step vm world =
      proc_step hal (record { proc = to_proc vm; caller = alone; world = world }) >>= λ (rc, m).
      done (rc, from_proc m.proc vm, m.world)

  unfoldable pub run : ℕ → Vm → ℕ → W → Run (Status × Vm × W)
  run fuel vm max_steps world =
      proc_run hal fuel max_steps (record { proc = to_proc vm; caller = alone; world = world })
      >>= λ (rc, m). done (rc, from_proc m.proc vm, m.world)
