-- ===== src/Vm/Keeps/Local.antt =====
-- Properties of the running process and of the table it stands in, each on its own: if the
-- assignments of the interpreter of src/mb_vm.c (erts/example/mini_beam_esp32) keep them, then so do
-- its primitives.
mod Defs
pub use Defs.{Local, Both}
use os_ii.Prelude.{
  Bool-cases, inl, inr, ℕ, ◌+◌, ◌≡◌, refl, arith, ltb, length, set, Option, none, some, ℤ, List,
  true,
}
use os_ii.Status.{Status, eof, mailbox_empty}
use os_ii.Run.{Run, done, Gives}
use os_ii.Term.{Term}
use os_ii.Command.{Command}
use os_ii.Heap.{make_tuple, cons}
use os_ii.Heap.Gc.{gc}
use os_ii.Mailbox.{Mailbox, pop_raw, push_in_range, pop_in_range}
use os_ii.Hal.{Hal}
use os_ii.Process.{Process, waiting, sleeping, halted, max_reductions}
use os_ii.Table.{Table, entry, deliver}
use os_ii.Machine.{
  crash, Machine, Caller, alone, in_table, Cmd, ◌>>=◌, get_proc, put_proc, get_caller, drive, lift,
  set_error, or_eof, need_u8, fetch_u8, fail, set_reg,
}
use os_ii.Vm.Ops.{
  set_five, recv_empty, recv_some, recv_got, recv_with, send_to, send_found, send_by, send_with,
  op_yield, jump, op_halt, sleep_by, sleep_for,
}
use os_ii.Vm.Data.{collect, try_tuple, try_cons}
use os_ii.Vm.Keeps.{
  After, Keeps, Keeps-bind, Keeps-pure, Keeps-if, Keeps-get_caller, Keeps-crash, Keeps-give_up,
  Keeps-reg, Keeps-reg_int, Rules,
}

pop_raw_none : (mb : Mailbox) → (pop_raw mb).0 ≡ none → (pop_raw mb).1.count ≡ 0
unfolding pop_raw
pop_raw_none mb h = ground arith

fetch_u8-kept :
    {T : Type 0} {I : Process → Type 0} {C : Caller → Type 0} (local : Local T I C) (p : Process)
    → I p
    → I (fetch_u8 p).1
unfolding fetch_u8
fetch_u8-kept local p i = ground (arith, local.on_pc p (p.pc + 1) i)

module _ {W : Type 0} (T : Type 0) (I : Process → Type 0) (C : Caller → Type 0)
    (local : Local T I C) where
  abbrev P : Machine W → Type 0
  P = Both I C

  -- What is read by `get_proc` has the property, and what is stored by `put_proc` must have it.
  Keeps-with_proc :
      {A : Type 0} (k : Process → Cmd W A)
      → ((p : Process) → I p → Keeps T P (k p))
      → Keeps T P (get_proc >>= k)
  unfolding ◌>>=◌ get_proc
  Keeps-with_proc k kk = record { at = λ m h. (kk m.proc h.0).at m h }

  Keeps-put_proc : (p : Process) → I p → Keeps T P (put_proc p)
  unfolding put_proc
  Keeps-put_proc p s = record { at = λ m h. (s, h.1) }

  -- An assignment to the running process.
  Keeps-update :
      (f : Process → Process)
      → ((p : Process) → I p → I (f p))
      → Keeps T P (get_proc >>= λ p. put_proc (f p))
  Keeps-update f h = Keeps-with_proc _ λ p i. Keeps-put_proc _ (h p i)

  -- A call of the heap on the running process, and what is done with its outcome.
  Keeps-lift :
      {A B : Type 0} (Q : A → Type 0) (r : Run A) (k : A → Cmd W B)
      → Gives T Q r
      → ((a : A) → Q a → Keeps T P (k a))
      → Keeps T P (lift r >>= k)
  unfolding ◌>>=◌
  Keeps-lift Q (done a) k h kk = record { at = λ m p. (kk a h).at m p }
  Keeps-lift Q Run.fault k h kk = record { at = λ m p. tt }
  Keeps-lift Q Run.out_of_fuel k h kk = record { at = λ m p. h }

  Keeps-drive : {A : Type 0} (f : W → A × W) → Keeps T P (drive f)
  unfolding drive
  Keeps-drive f = record { at = λ m h. h }

  Keeps-set_error : (s : Status) → Keeps T P (set_error s)
  unfolding set_error
  Keeps-set_error s = Keeps-update _ (λ p. local.on_error p s)

  Keeps-fail : {A : Type 0} (s : Status) → Keeps {A = A} T P (fail s)
  unfolding fail
  Keeps-fail s = Keeps-bind _ _ (Keeps-set_error s) λ u. Keeps-give_up s

  Keeps-or_eof : (b : Option ℕ) → Keeps T P (or_eof b)
  unfolding or_eof
  Keeps-or_eof none = Keeps-fail eof
  Keeps-or_eof (some b) = Keeps-pure b

  Keeps-need_u8 : Keeps T P need_u8
  unfolding need_u8
  Keeps-need_u8 =
      Keeps-with_proc _
        λ p i. Keeps-bind _ _ (Keeps-put_proc _ (fetch_u8-kept local p i)) λ u. Keeps-or_eof _

  Keeps-set_reg : (r : ℕ) (t : Term) → Keeps T P (set_reg r t)
  unfolding set_reg
  Keeps-set_reg r t = Keeps-with_proc _ λ p i.
      Keeps-if (ltb r (length p.regs)) _ _ (Keeps-put_proc _ (local.on_regs p _ i)) Keeps-crash

  Keeps-yield : Keeps T P op_yield
  unfolding op_yield
  Keeps-yield = Keeps-update _ local.on_yield

  Keeps-halt : Keeps T P op_halt
  unfolding op_halt
  Keeps-halt = Keeps-update _ local.on_halt

  Keeps-jump : (offset : ℤ) → Keeps T P (jump offset)
  unfolding jump
  Keeps-jump offset = Keeps-with_proc _ λ p i. Keeps-if _ _ _ (Keeps-fail eof) (
      Keeps-bind _ _ (Keeps-put_proc _ (local.on_pc p _ i))
        λ u. Keeps-if _ _ _ (Keeps-fail eof) (Keeps-pure tt))

  Keeps-set_five :
      (r_type r_a r_b r_c r_d : ℕ) (cmd : Command) → Keeps T P (set_five r_type r_a r_b r_c r_d cmd)
  unfolding set_five
  Keeps-set_five r_type r_a r_b r_c r_d cmd = search (Keeps-bind, Keeps-set_reg) depth 12

  Keeps-recv_some :
      (cmd : Command) (r_type r_a r_b r_c r_d : ℕ)
      → Keeps T P (recv_some cmd r_type r_a r_b r_c r_d)
  unfolding recv_some
  Keeps-recv_some cmd r_type r_a r_b r_c r_d =
      search (Keeps-if, Keeps-bind, Keeps-set_five, Keeps-set_error) depth 8

  -- A process blocks only if its mailbox is empty.
  recv_empty-After :
      (sched : Caller) (pc r_type r_a r_b r_c r_d : ℕ) (m : Machine W)
      → P m
      → m.proc.mailbox.count ≡ 0
      → After T P (recv_empty sched pc r_type r_a r_b r_c r_d m)
  unfolding recv_empty ◌>>=◌ get_proc put_proc
  recv_empty-After alone pc r_type r_a r_b r_c r_d m h e =
      (Keeps-bind _ _ (Keeps-set_five r_type r_a r_b r_c r_d _)
          λ u. Keeps-set_error mailbox_empty).at
        m h
  recv_empty-After (in_table slot procs) pc r_type r_a r_b r_c r_d m h e =
      (local.on_block m.proc pc h.0 e, h.1)

  recv_got-After :
      (got : Option Command) (pc r_type r_a r_b r_c r_d : ℕ) (m : Machine W)
      → P m
      → (got ≡ none → m.proc.mailbox.count ≡ 0)
      → After T P (recv_got got pc r_type r_a r_b r_c r_d m)
  unfolding recv_got ◌>>=◌ get_caller
  recv_got-After (some cmd) pc r_type r_a r_b r_c r_d m h e =
      (Keeps-recv_some cmd r_type r_a r_b r_c r_d).at m h
  recv_got-After none pc r_type r_a r_b r_c r_d m h e =
      recv_empty-After m.caller pc r_type r_a r_b r_c r_d m h (e refl)

  Keeps-recv_with :
      (pc r_type r_a r_b r_c r_d : ℕ) → Keeps T P (recv_with pc r_type r_a r_b r_c r_d)
  unfolding recv_with ◌>>=◌ get_proc put_proc crash
  Keeps-recv_with pc r_type r_a r_b r_c r_d = record {
    at = λ m h. elim (Bool-cases (pop_in_range m.proc.mailbox)) [
      | inr outside ↦ rw outside tt
      | inl inside ↦ rw inside (
          recv_got-After (pop_raw m.proc.mailbox).0 pc r_type r_a r_b r_c r_d
            (record m { proc = record (m.proc) { mailbox = (pop_raw m.proc.mailbox).1 } })
            (local.on_pop m.proc h.0, h.1) (pop_raw_none m.proc.mailbox))
    ];
  }

  send_to-kept :
      (slot : ℕ) (procs : Table) (p : Process) (i : ℕ) (cmd : Command)
      → I p
      → C (in_table slot procs)
      → Keeps T P (send_to slot (set procs slot p) i cmd)
  unfolding send_to
  send_to-kept slot procs p i cmd own q = record {
    at = λ m h. elim (Bool-cases (push_in_range (entry (set procs slot p) i).mailbox cmd)) [
      | inr outside ↦ rw outside tt
      | inl inside ↦ rw inside (local.on_send slot procs p i cmd own q)
    ];
  }

  Keeps-send_found :
      (o : Option ℕ) (slot : ℕ) (procs : Table) (p : Process) (r_pid r_type r_a r_b r_c r_d : ℕ)
      → I p
      → C (in_table slot procs)
      → Keeps T P (send_found o slot (set procs slot p) r_pid r_type r_a r_b r_c r_d)
  unfolding send_found
  Keeps-send_found none slot procs p r_pid r_type r_a r_b r_c r_d own q = Keeps-set_reg r_pid _
  Keeps-send_found (some i) slot procs p r_pid r_type r_a r_b r_c r_d own q =
      search (Keeps-bind, Keeps-reg_int, Keeps-set_reg, send_to-kept) depth 16

  Keeps-send_by :
      (sched : Caller) (r_pid r_type r_a r_b r_c r_d : ℕ)
      → C sched
      → Keeps T P (send_by sched r_pid r_type r_a r_b r_c r_d)
  unfolding send_by
  Keeps-send_by alone r_pid r_type r_a r_b r_c r_d q = Keeps-set_reg r_pid _
  Keeps-send_by (in_table slot procs) r_pid r_type r_a r_b r_c r_d q =
      Keeps-bind _ _ (Keeps-reg_int r_pid) λ pid.
        Keeps-with_proc _
          λ p own. Keeps-send_found _ slot procs p r_pid r_type r_a r_b r_c r_d own q

  Keeps-send_with :
      (r_pid r_type r_a r_b r_c r_d : ℕ) → Keeps T P (send_with r_pid r_type r_a r_b r_c r_d)
  unfolding send_with ◌>>=◌ get_caller
  Keeps-send_with r_pid r_type r_a r_b r_c r_d = record {
    at = λ m h. (Keeps-send_by m.caller r_pid r_type r_a r_b r_c r_d h.1).at m h;
  }

  Keeps-collect : Keeps T P collect
  unfolding collect
  Keeps-collect = Keeps-with_proc _ λ p i.
      Keeps-lift _ (gc p.heap p.regs) _ (local.on_collect p i) λ r kept. Keeps-put_proc _ kept

  Keeps-try_tuple : (elems : List Term) → Keeps T P (try_tuple elems)
  unfolding try_tuple
  Keeps-try_tuple elems = Keeps-with_proc _ λ p i.
      Keeps-lift _ (make_tuple p.heap elems) _ (local.on_make_tuple p elems i)
        λ r kept. Keeps-bind _ _ (Keeps-put_proc _ kept) λ u. Keeps-pure _

  Keeps-try_cons : (r_head r_tail : ℕ) → Keeps T P (try_cons r_head r_tail)
  unfolding try_cons
  Keeps-try_cons r_head r_tail = Keeps-bind _ _ (Keeps-reg r_head) λ head.
      Keeps-bind _ _ (Keeps-reg r_tail) λ tail. Keeps-with_proc _ λ p i.
        Keeps-lift _ (cons p.heap head tail) _ (local.on_cons p head tail i)
          λ r kept. Keeps-bind _ _ (Keeps-put_proc _ kept) λ u. Keeps-pure _

  module _ (hal : Hal W) where
    Keeps-sleep_by : (sched : Caller) (ms : ℤ) → Keeps T P (sleep_by hal sched ms)
    unfolding sleep_by
    Keeps-sleep_by alone ms = Keeps-drive _
    Keeps-sleep_by (in_table slot procs) ms =
        Keeps-bind _ _ (Keeps-drive _)
          λ now. Keeps-with_proc _ λ p i. Keeps-put_proc _ (local.on_sleep p _ i)

    Keeps-sleep_for : (ms : ℤ) → Keeps T P (sleep_for hal ms)
    unfolding sleep_for
    Keeps-sleep_for ms = Keeps-bind _ _ Keeps-get_caller λ sched. Keeps-sleep_by sched ms

    pub Local-Rules : Rules hal T P
    Local-Rules = record {
      fetch = Keeps-need_u8;
      failing = λ s. Keeps-fail s;
      writing = Keeps-set_reg;
      error = Keeps-set_error;
      driving = Keeps-drive;
      yielding = Keeps-yield;
      jumping = Keeps-jump;
      halting = Keeps-halt;
      receiving = Keeps-recv_with;
      sending = Keeps-send_with;
      sleeping = Keeps-sleep_for;
      collecting = Keeps-collect;
      tupling = Keeps-try_tuple;
      consing = Keeps-try_cons;
    }
