-- ===== src/Vm/Safe/Rules.antt =====
-- The primitives of the interpreter of src/mb_vm.c (erts/example/mini_beam_esp32) on processes with a
-- property that obeys the laws, and the rules that put them together.
use os_ii.Prelude.{
  ℕ, ◌+◌, ◌<◌, ◌≡◌, refl, arith, lt→ltb, Bool, true, false, if◌then◌else◌, List, [], ◌∷◌, length,
  get_elem?, length, set, Option, none, some, All, ℤ,
}
use os_ii.Status.{Status, eof, bad_reg}
use os_ii.Term.{Term, is_immediate, is_smallint, make_smallint, make_pid}
use os_ii.Term.Bounds.{make_smallint_wraps}
use os_ii.Process.{Process, reg_count}
use os_ii.Machine.{
  Machine, Flow, next, stop, Cmd, pure, and_then, ◌>>=◌, get_proc, put_proc, get_caller, drive,
  set_error, fail, fetch_u8, or_eof, need_u8, need_i32, valid_reg, valid_regs, check_regs, reg,
  reg_int, set_reg,
}
use os_ii.Vm.Healthy.{read_reg}
use os_ii.Vm.Safe.{Fetched, Laws, SafeCaller, SafeMachine, Post, Safely, Any}

-- The numbers of registers.
abbrev pub Regs : List ℕ → Type 0
Regs = All (λ r. r < reg_count)

pub valid_regs-All : (rs : List ℕ) → valid_regs rs ≡ true → Regs rs
unfolding valid_regs valid_reg
valid_regs-All [] h = tt
valid_regs-All (r ∷ rs) h = ground (arith, valid_regs-All rs)

make_smallint-Immediate : (v : ℤ) → is_immediate (make_smallint v) ≡ true
unfolding is_immediate is_smallint
make_smallint-Immediate v = ground (arith, make_smallint_wraps v)

make_pid-Immediate : (pid : ℕ) → is_immediate (make_pid pid) ≡ true
unfolding is_immediate make_pid
make_pid-Immediate pid = ground arith

module _ (G : Process → Type 0) ⦃laws : Laws G⦄ {W : Type 0} where
  -- A write that keeps the property.
  pub Post-set_reg :
      (r : ℕ) (t : Term) (m : Machine W)
      → r < reg_count
      → SafeMachine G m
      → G (record (m.proc) { regs = set m.proc.regs r t })
      → Post G Any (set_reg r t m)
  unfolding set_reg get_proc put_proc ◌>>=◌
  Post-set_reg r t m lt h g =
      rw (lt→ltb r (length m.proc.regs) (omega (arith, laws.size m.proc h.0))) (tt, (g, h.1))

module _ {G : Process → Type 0} ⦃laws : Laws G⦄ {W : Type 0} where
  Post-and_then :
      {A B : Type 0} (Q : A → Type 0) (R : B → Type 0) (fl : Flow W A) (k : A → Cmd W B)
      → Post G Q fl
      → ((a : A) → Q a → Safely G R (k a))
      → Post G R (and_then fl k)
  Post-and_then Q R (next a m) k h kk = (kk a h.0).at m h.1
  Post-and_then Q R (stop rc m) k h kk = h
  Post-and_then Q R Flow.fault k h kk = absurd h
  Post-and_then Q R Flow.out_of_fuel k h kk = absurd h

  pub Safely-bind :
      {A B : Type 0} {Q : A → Type 0} {R : B → Type 0} {c : Cmd W A} {k : A → Cmd W B}
      → Safely G Q c
      → ((a : A) → Q a → Safely G R (k a))
      → Safely G R (c >>= k)
  unfolding ◌>>=◌
  Safely-bind {Q = Q} {R = R} {c = c} {k = k} kc kk = record {
    at = λ m h. Post-and_then Q R (c m) k (kc.at m h) kk;
  }

  pub Safely-pure : {A : Type 0} {Q : A → Type 0} {a : A} → Q a → Safely {W = W} G Q (pure a)
  Safely-pure q = record { at = λ m h. (q, h) }

  pub Safely-if :
      {A : Type 0} {Q : A → Type 0} (b : Bool) {c d : Cmd W A}
      → (b ≡ true → Safely G Q c)
      → (b ≡ false → Safely G Q d)
      → Safely G Q (if b then c else d)
  Safely-if true kc kd = kc refl
  Safely-if false kc kd = kd refl

  pub Safely-get_proc : Safely {W = W} G G get_proc
  unfolding get_proc
  Safely-get_proc = record { at = λ m h. (h.0, h) }

  pub Safely-put_proc : (p : Process) → G p → Safely {W = W} G Any (put_proc p)
  unfolding put_proc
  Safely-put_proc p s = record { at = λ m h. (tt, (s, h.1)) }

  pub Safely-get_caller : Safely {W = W} G (SafeCaller G) get_caller
  unfolding get_caller
  Safely-get_caller = record { at = λ m h. (h.1, h) }

  pub Safely-drive : {A : Type 0} (f : W → A × W) → Safely G Any (drive f)
  unfolding drive
  Safely-drive f = record { at = λ m h. (tt, h) }

  pub Safely-set_error : (rc : Status) → Safely {W = W} G Any (set_error rc)
  unfolding set_error
  Safely-set_error rc =
      Safely-bind Safely-get_proc λ p s. Safely-put_proc _ (laws.same p _ refl refl refl refl s)

  pub Safely-fail : {A : Type 0} {Q : A → Type 0} (rc : Status) → Safely {W = W} G Q (fail rc)
  unfolding fail
  Safely-fail rc = Safely-bind (Safely-set_error rc) λ _ _. record { at = λ m h. h }

  -- `Op` holds of every byte of the program.
  pub Safely-need_u8 : Safely {W = W} G laws.Op need_u8
  unfolding need_u8 fetch_u8 or_eof
  Safely-need_u8 =
      Safely-bind Safely-get_proc λ p s. byte p s (get_elem? p.program p.pc) (laws.bytes p p.pc s)
    where
      byte :
          (p : Process)
          → G p
          → (o : Option ℕ) → Fetched laws.Op o
          → Safely {W = W} G laws.Op (
              let (b, p') = elim o as (λ _. Option ℕ × Process) [
                | none ↦ (none, p)
                | some b ↦ (some b, record p { pc = p.pc + 1 })
              ] in
              put_proc p' >>= λ _. or_eof b)
      byte p s none h = Safely-bind (Safely-put_proc p s) λ _ _. Safely-fail eof
      byte p s (some b) h =
          Safely-bind (Safely-put_proc _ (laws.same p _ refl refl refl refl s)) λ _ _. Safely-pure h

  pub Safely-need_i32 : Safely {W = W} G Any need_i32
  unfolding need_i32
  Safely-need_i32 = Safely-bind Safely-need_u8 λ b0 _.
      Safely-bind Safely-need_u8
        λ b1 _. Safely-bind Safely-need_u8 λ b2 _. Safely-bind Safely-need_u8 λ b3 _. Safely-pure tt

  pub Safely-check_regs : (rs : List ℕ) → Safely {W = W} G (λ _. Regs rs) (check_regs rs)
  unfolding check_regs
  Safely-check_regs rs =
      Safely-if (valid_regs rs) (λ e. Safely-pure (valid_regs-All rs e)) (λ _. Safely-fail bad_reg)

  pub Safely-reg : (r : ℕ) → r < reg_count → Safely {W = W} G Any (reg r)
  Safely-reg r lt = record {
    at = λ m h. rw (read_reg r m (omega (arith, laws.size m.proc h.0))) (tt, h);
  }

  pub Safely-reg_int : (r : ℕ) → r < reg_count → Safely {W = W} G Any (reg_int r)
  unfolding reg_int
  Safely-reg_int r lt = Safely-bind (Safely-reg r lt) λ t _. Safely-pure tt

  Safely-set_reg :
      (r : ℕ) (t : Term)
      → r < reg_count
      → is_immediate t ≡ true
      → Safely {W = W} G Any (set_reg r t)
  Safely-set_reg r t lt e = record {
    at = λ m h. Post-set_reg G r t m lt h (laws.immediate m.proc r t h.0 e);
  }

  -- `MOVE` copies a term of any kind.
  pub Safely-move :
      (dst a : ℕ)
      → dst < reg_count
      → a < reg_count
      → Safely {W = W} G Any (reg a >>= λ t. set_reg dst t)
  unfolding ◌>>=◌
  Safely-move dst a lt lt' = record {
    at = λ m h.
        rw (read_reg a m (omega (arith, laws.size m.proc h.0)))
          (Post-set_reg G dst _ m lt h (laws.copied m.proc dst a h.0 lt'));
  }

  pub Safely-set_int :
      (r : ℕ) (v : ℤ) → r < reg_count → Safely {W = W} G Any (set_reg r (make_smallint v))
  Safely-set_int r v lt = Safely-set_reg r _ lt (make_smallint-Immediate v)

  pub Safely-set_pid : (r pid : ℕ) → r < reg_count → Safely {W = W} G Any (set_reg r (make_pid pid))
  Safely-set_pid r pid lt = Safely-set_reg r _ lt (make_pid-Immediate pid)
