-- ===== src/Vm/Safe.antt =====
-- Properties of processes of src/mb_vm.c (erts/example/mini_beam_esp32) under which no instruction faults:
-- what such a property `G` must keep, and what it is for a command to keep it and not to fault.
pub mod Rules
pub mod Bifs
pub mod Ops
pub mod Messages
pub mod Runs
pub mod Tupleless
pub mod Data
pub mod Cons
pub mod Steps
use os_ii.Prelude.{
  ℕ, ◌<◌, ◌≡◌, true, false, List, length, get_elem?, get_or, set, Option, none, some,
}
use os_ii.Mailbox.{Mailbox}
use os_ii.Mailbox.Invariant.{IsValid}
use os_ii.Term.{Term, is_immediate}
use os_ii.Process.{Process, reg_count}
use os_ii.Table.{Table, entry, is_free}
use os_ii.Machine.{Machine, Caller, alone, in_table, Flow, next, stop, Cmd}

-- The bytes that may be an opcode are `op`, where a byte could be fetched.
abbrev pub Fetched : (ℕ → Type 0) → Option ℕ → Type 0
Fetched Op none = Unit
Fetched Op (some b) = Op b

-- What a property of a process must keep, so that no instruction on numbers, jumps and calls faults. `Op` holds of every byte of its program.
pub record Laws (G : Process → Type 0) : Type 1 where
  pub Op : ℕ → Type 0
  pub same :
      (p q : Process)
      → q.regs ≡ p.regs
      → q.heap ≡ p.heap
      → q.program ≡ p.program
      → q.mailbox ≡ p.mailbox
      → G p
      → G q
  pub size : (p : Process) → G p → length p.regs ≡ reg_count
  pub bytes : (p : Process) (i : ℕ) → G p → Fetched Op (get_elem? p.program i)
  pub immediate :
      (p : Process) (r : ℕ) (t : Term)
      → G p
      → is_immediate t ≡ true
      → G (record p { regs = set p.regs r t })
  pub copied :
      (p : Process) (r a : ℕ)
      → G p
      → a < reg_count
      → G (record p { regs = set p.regs r (get_or p.regs a 0) })

-- What it must keep so that no message is read or written outside of a mailbox's array.
pub record MailLaws (G : Process → Type 0) : Type 0 where
  pub valid : (p : Process) → G p → IsValid p.mailbox
  pub mail : (p : Process) (mb : Mailbox) → G p → IsValid mb → G (record p { mailbox = mb })

-- The mailbox is valid, and an entry that is not free is as `G` says.
abbrev pub SafeEntry : (Process → Type 0) → Process → Type 0
SafeEntry G p = IsValid p.mailbox × (is_free p.state ≡ false → G p)

abbrev pub SafeTable : (Process → Type 0) → Table → Type 0
SafeTable G procs = (i : ℕ) → SafeEntry G (entry procs i)

abbrev pub SafeCaller : (Process → Type 0) → Caller → Type 0
SafeCaller G alone = Unit
SafeCaller G (in_table slot procs) = (slot < length procs) × SafeTable G procs

abbrev pub SafeMachine : {W : Type 0} → (Process → Type 0) → Machine W → Type 0
SafeMachine G m = G m.proc × SafeCaller G m.caller

-- The command goes on with `Q`, or returns early, and `G` holds either way. It does not fault.
abbrev pub Post : {W A : Type 0} → (Process → Type 0) → (A → Type 0) → Flow W A → Type 0
Post G Q (next a m) = Q a × SafeMachine G m
Post G Q (stop rc m) = SafeMachine G m
Post G Q Flow.fault = ⊥
Post G Q Flow.out_of_fuel = ⊥

pub record Safely {W A : Type 0} (G : Process → Type 0) (Q : A → Type 0) (c : Cmd W A)
    : Type 0 where
  pub at : (m : Machine W) → SafeMachine G m → Post G Q (c m)

abbrev pub Any : {A : Type 0} → A → Type 0
Any _ = Unit
