-- ===== src/Vm/OfCaller.antt =====
-- Properties of the process table that a running process of src/mb_vm.c
-- (erts/example/mini_beam_esp32) sees: they are kept if they survive the running process's own
-- write-back and a delivery, since no other primitive touches the table.
use os_ii.Prelude.{ℕ, set}
use os_ii.Command.{Command}
use os_ii.Run.{Gives-free}
use os_ii.Hal.{Hal}
use os_ii.Process.{Process}
use os_ii.Table.{Table, entry, deliver}
use os_ii.Machine.{Caller, in_table}
use os_ii.Vm.Keeps.{Rules}
use os_ii.Vm.Keeps.Local.{Local, Local-Rules, Both}

abbrev pub AnyProcess : Process → Type 0
AnyProcess p = Unit

module _ (Q : Caller → Type 0)
    (own : (slot : ℕ) (procs : Table) (p : Process)
      → Q (in_table slot procs)
      → Q (in_table slot (set procs slot p)))
    (delivered : (slot : ℕ) (procs : Table) (i : ℕ) (cmd : Command)
      → Q (in_table slot procs)
      → Q (in_table slot (set procs i (deliver (entry procs i) cmd).1))) where
  caller-Local : Local (Unit {0}) AnyProcess Q
  caller-Local = record {
    on_error = λ p s i. tt;
    on_pc = λ p pc i. tt;
    on_regs = λ p regs i. tt;
    on_yield = λ p i. tt;
    on_halt = λ p i. tt;
    on_sleep = λ p until i. tt;
    on_pop = λ p i. tt;
    on_block = λ p pc i e. tt;
    on_collect = λ p i. Gives-free _ _ (λ x. tt);
    on_make_tuple = λ p elems i. Gives-free _ _ (λ x. tt);
    on_cons = λ p head tail i. Gives-free _ _ (λ x. tt);
    on_send = λ slot procs p i cmd own_p q. (tt, delivered slot _ i cmd (own slot procs p q));
  }

  pub caller-Rules : {W : Type 0} (hal : Hal W) → Rules hal (Unit {0}) (Both AnyProcess Q)
  caller-Rules hal = Local-Rules (Unit {0}) AnyProcess Q caller-Local hal
