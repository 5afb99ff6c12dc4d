-- ===== src/Vm/Safe/Cons.antt =====
-- `CONS` of src/mb_vm.c (erts/example/mini_beam_esp32) on processes that build no tuple: it leaves the
-- program, the mailbox and the table alone.
use os_ii.Prelude.{
  ℕ, ◌+◌, ◌≡◌, refl, sym, ltb, length, Bool-cases, inl, inr, List, get_elem?, Option, none, some,
}
use mathlib.Core.Path.{subst}
use os_ii.Status.{Status, eof}
use os_ii.Run.{Run}
use os_ii.Term.{Term}
use os_ii.Heap.{Heap, cons}
use os_ii.Heap.Gc.{gc}
use os_ii.Process.{Process}
use os_ii.Machine.{
  Machine, Caller, Flow, next, stop, Cmd, ◌>>=◌, lift, get_proc, put_proc, set_error, fail,
  fetch_u8, or_eof, need_u8, check_regs, set_reg, crash,
}
use os_ii.Vm.Data.{collect, try_cons, op_cons}
use os_ii.Vm.Healthy.{Fine, Ensures}
use os_ii.Vm.Healthy.Cons.{op_cons-Fine}
use os_ii.Vm.Keeps.{After, Keeps, Keeps-bind, Keeps-reg, keeps_rules}
use os_ii.Mailbox.{Mailbox}
use os_ii.Mailbox.Invariant.{IsValid}
use os_ii.Vm.Safe.{SafeCaller, Post, Safely, Any}
use os_ii.Vm.Safe.Tupleless.{NoTuples, IsSafe}

-- The program, the mailbox and the table are the ones from before.
abbrev Frame : {W : Type 0} → List ℕ → Mailbox → Caller → Machine W → Type 0
Frame program mailbox caller m =
    (m.proc.program ≡ program) × (m.proc.mailbox ≡ mailbox) × (m.caller ≡ caller)

module _ {W : Type 0} (program : List ℕ) (mailbox : Mailbox) (caller : Caller) where
  abbrev Kept : {A : Type 0} → Cmd W A → Type 0
  Kept = Keeps (Unit {0}) (Frame program mailbox caller)

  Kept-set_error : (rc : Status) → Kept (set_error rc)
  unfolding set_error get_proc put_proc ◌>>=◌
  Kept-set_error rc = record { at = λ m h. h }

  Kept-fail : {A : Type 0} (rc : Status) → Kept {A = A} (fail rc)
  unfolding fail
  Kept-fail rc = search (keeps_rules, Kept-set_error)

  Kept-need_u8 : Kept need_u8
  unfolding need_u8 fetch_u8 get_proc put_proc or_eof ◌>>=◌
  Kept-need_u8 = record { at = λ m h. byte m h (get_elem? m.proc.program m.proc.pc) }
    where
      byte :
          (m : Machine W)
          → Frame program mailbox caller m
          → (o : Option ℕ)
          → After (Unit {0}) (Frame program mailbox caller) (
              (let (b, p') = elim o as (λ _. Option ℕ × Process) [
                | none ↦ (none, m.proc)
                | some b ↦ (some b, record (m.proc) { pc = m.proc.pc + 1 })
              ] in
                  put_proc p' >>= λ _. or_eof b)
                m)
      byte m h none = (Kept-fail eof).at m h
      byte m h (some b) = h

  Kept-check_regs : (rs : List ℕ) → Kept (check_regs rs)
  unfolding check_regs
  Kept-check_regs rs = search (keeps_rules, Kept-fail)

  Kept-set_reg : (r : ℕ) (t : Term) → Kept (set_reg r t)
  unfolding set_reg get_proc put_proc crash ◌>>=◌
  Kept-set_reg r t = record {
    at = λ m h. elim (Bool-cases (ltb r (length m.proc.regs))) [ inl e ↦ rw e h | inr e ↦ rw e tt ];
  }

  Kept-collect : Kept collect
  unfolding collect get_proc put_proc ◌>>=◌
  Kept-collect = record { at = λ m h. left m h (gc m.proc.heap m.proc.regs) }
    where
      left :
          (m : Machine W)
          → Frame program mailbox caller m
          → (r : Run (List Term × Heap))
          → After (Unit {0}) (Frame program mailbox caller) (
              (lift r >>= λ (regs, heap). put_proc (record (m.proc) { regs = regs; heap = heap }))
                m)
      left m h (Run.done x) = h
      left m h Run.fault = tt
      left m h Run.out_of_fuel = tt

  built :
      (m : Machine W)
      → Frame program mailbox caller m
      → (r : Run (Term × Heap))
      → After
          (Unit {0})
          (Frame program mailbox caller)
          ((lift r >>= λ (t, heap). put_proc (record (m.proc) { heap = heap }) >>= λ _. next t) m)
  unfolding put_proc ◌>>=◌
  built m h (Run.done x) = h
  built m h Run.fault = tt
  built m h Run.out_of_fuel = tt

  Kept-built :
      (head tail : Term)
      → Kept (
          get_proc >>= λ p. lift (cons p.heap head tail) >>= λ (t, heap).
          put_proc (record p { heap = heap }) >>= λ _. next t)
  unfolding get_proc ◌>>=◌
  Kept-built head tail = record { at = λ m h. built m h (cons m.proc.heap head tail) }

  Kept-try_cons : (r_head r_tail : ℕ) → Kept (try_cons r_head r_tail)
  unfolding try_cons
  Kept-try_cons r_head r_tail =
      Keeps-bind _ _ (Keeps-reg r_head)
        λ head. Keeps-bind _ _ (Keeps-reg r_tail) λ tail. Kept-built head tail

  Kept-op_cons : Kept op_cons
  unfolding op_cons
  Kept-op_cons =
      search
        (
          keeps_rules, Kept-need_u8, Kept-fail, Kept-try_cons, Kept-collect, Kept-set_reg,
          Kept-check_regs,
        )
        depth 14

-- Health of the process, in its frame, is its safety.
framed :
    {W A : Type 0} (program : List ℕ) (mailbox : Mailbox) (caller : Caller) (fl : Flow W A)
    → NoTuples program
    → IsValid mailbox
    → SafeCaller IsSafe caller
    → Ensures Fine fl
    → After (Unit {0}) (Frame program mailbox caller) fl
    → Post IsSafe Any fl
framed program mailbox caller (next a m) tuples valid safe h (same, same_mail, same') = (
  tt,
  (
    record {
      healthy = h;
      program = subst NoTuples (sym same) tuples;
      mail = subst IsValid (sym same_mail) valid;
    },
    subst (SafeCaller IsSafe) (sym same') safe,
  ),
)
framed program mailbox caller (stop rc m) tuples valid safe h (same, same_mail, same') = (
  record {
    healthy = h;
    program = subst NoTuples (sym same) tuples;
    mail = subst IsValid (sym same_mail) valid;
  },
  subst (SafeCaller IsSafe) (sym same') safe,
)
framed program mailbox caller Flow.fault tuples valid safe h f = h
framed program mailbox caller Flow.out_of_fuel tuples valid safe h f = h

pub Safely-op_cons : {W : Type 0} → Safely {W = W} IsSafe Any op_cons
Safely-op_cons = record {
  at = λ m h.
      framed m.proc.program m.proc.mailbox m.caller (op_cons m) h.0.program h.0.mail h.1
        (op_cons-Fine m h.0.healthy)
        ((Kept-op_cons m.proc.program m.proc.mailbox m.caller).at m (refl, refl, refl));
}
