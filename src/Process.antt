-- ===== src/Process.antt =====
-- include/mb_process.h and `mb_proc_init` of src/mb_vm.c (erts/example/mini_beam_esp32).
use os_ii.Prelude.{ℕ, Bool, false, List, [], replicate}
use os_ii.Status.{Status, ok}
use os_ii.Term.{Term}
use os_ii.Mailbox.{Mailbox, zero_mailbox}
use os_ii.Heap.{Heap, zero_heap, init as heap_init}

abbrev pub reg_count : ℕ
reg_count = 16

abbrev pub max_processes : ℕ
max_processes = 8

abbrev pub pid_none : ℕ
pid_none = 0

abbrev pub max_reductions : ℕ
max_reductions = 64

-- `mb_proc_state_t`
pub data ProcState : Type 0 where
  free ready waiting sleeping halted : ProcState

-- `mb_process_t`. The program is the buffer of `program_size` bytes, `halted` the C flag.
pub record Process : Type 0 where
  pub pid : ℕ
  pub state : ProcState
  pub program : List ℕ
  pub pc : ℕ
  pub regs : List Term
  pub mailbox : Mailbox
  pub is_halted : Bool
  pub last_error : Status
  pub heap : Heap
  pub sleep_until_ms : ℕ
  pub reductions : ℕ

-- What `memset` leaves of a process.
abbrev pub zero_process : Process
zero_process = record {
  pid = 0;
  state = free;
  program = [];
  pc = 0;
  regs = replicate reg_count 0;
  mailbox = zero_mailbox;
  is_halted = false;
  last_error = ok;
  heap = zero_heap;
  sleep_until_ms = 0;
  reductions = 0;
}

-- `mb_proc_init`
unfoldable pub init : ℕ → List ℕ → Process
unfolding heap_init
init pid program = record zero_process {
  pid = pid;
  state = ready;
  program = program;
  heap = heap_init;
}
