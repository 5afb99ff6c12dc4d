-- ===== src/Machine.antt =====
-- What one call of `mb_proc_step` of src/mb_vm.c works on (erts/example/mini_beam_esp32): the
-- process, the scheduler that was passed with it, and the hardware. A command either goes on,
-- or returns early with a status, or faults.
use os_ii.Prelude.{
  ℕ, ◌+◌, ◌*◌, ltb, ◌&&◌, Bool, true, if◌then◌else◌, List, [], ◌∷◌, length, get_elem?, set, Option,
  none, some, ℤ, to_i32,
}
use os_ii.Status.{Status, eof, bad_reg}
use os_ii.Run.{Run, in_range}
use os_ii.Term.{Term, get_smallint}
use os_ii.Process.{Process, reg_count}
use os_ii.Table.{Table}

-- The `sched` argument: `NULL`, or the table with the index at which the process stands in it. The
-- table's own copy of the running process is not read before `Vm.live` has brought it up to date.
pub data Caller : Type 0 where
  alone : Caller
  in_table : ℕ → Table → Caller

pub record Machine (W : Type 0) : Type 0 where
  pub proc : Process
  pub caller : Caller
  pub world : W

-- `next` goes on, `stop` is an early `return`.
pub data Flow (W : Type 0) (A : Type 0) : Type 0 where
  next : A → Machine W → Flow W A
  stop : Status → Machine W → Flow W A
  fault : Flow W A
  out_of_fuel : Flow W A

abbrev pub Cmd : Type 0 → Type 0 → Type 0
Cmd W A = Machine W → Flow W A

module _ {W : Type 0} where
  abbrev pub pure : {A : Type 0} → A → Cmd W A
  pure = next

  abbrev pub and_then : {A B : Type 0} → Flow W A → (A → Cmd W B) → Flow W B
  and_then (next a m) k = k a m
  and_then (stop s m) k = stop s m
  and_then Flow.fault k = Flow.fault
  and_then Flow.out_of_fuel k = Flow.out_of_fuel

  infixl 5 ◌>>=◌ ◌>>◌
  unfoldable pub ◌>>=◌ : {A B : Type 0} → Cmd W A → (A → Cmd W B) → Cmd W B
  m >>= k = λ s. and_then (m s) k

  abbrev pub ◌>>◌ : {B : Type 0} → Cmd W (Unit {0}) → Cmd W B → Cmd W B
  m >> k = m >>= λ _. k

  -- A computation on arrays, inside a command.
  abbrev pub lift : {A : Type 0} → Run A → Cmd W A
  lift (Run.done a) = next a
  lift Run.fault = λ m. Flow.fault
  lift Run.out_of_fuel = λ m. Flow.out_of_fuel

  unfoldable pub get_proc : Cmd W Process
  get_proc m = next m.proc m

  unfoldable pub put_proc : Process → Cmd W (Unit {0})
  put_proc p m = next tt (record m { proc = p })

  unfoldable pub get_caller : Cmd W Caller
  get_caller m = next m.caller m

  -- The hardware after a call.
  unfoldable pub drive : {A : Type 0} → (W → A × W) → Cmd W A
  drive f m = let (a, w) = f m.world in next a (record m { world = w })

  -- `return status;`
  abbrev pub give_up : {A : Type 0} → Status → Cmd W A
  give_up = stop

  -- An access outside of an array.
  unfoldable pub crash : {A : Type 0} → Cmd W A
  crash m = Flow.fault

  unfoldable pub set_error : Status → Cmd W (Unit {0})
  set_error s = do p ← get_proc; put_proc (record p { last_error = s })

  -- `proc->last_error = status; return proc->last_error;`
  unfoldable pub fail : {A : Type 0} → Status → Cmd W A
  fail s = set_error s >> give_up s

-- `mb_fetch_u8`: `none` is `MB_EOF`.
unfoldable pub fetch_u8 : Process → Option ℕ × Process
fetch_u8 proc = elim (get_elem? proc.program proc.pc) [
  | none ↦ (none, proc)
  | some b ↦ (some b, record proc { pc = proc.pc + 1 })
]

-- `b0 | b1 << 8 | b2 << 16 | b3 << 24`, as an `int32_t`.
unfoldable pub i32_of_bytes : ℕ → ℕ → ℕ → ℕ → ℤ
i32_of_bytes b0 b1 b2 b3 = to_i32 (b0 + b1 * 256 + b2 * 65536 + b3 * 16777216)

-- `mb_vm_valid_reg`
unfoldable pub valid_reg : ℕ → Bool
valid_reg reg = ltb reg reg_count

unfoldable pub valid_regs : List ℕ → Bool
valid_regs [] = true
valid_regs (r ∷ rs) = valid_reg r && valid_regs rs

module _ {W : Type 0} where
  -- The byte that was fetched, or the early return that every caller of `mb_fetch_u8` makes.
  unfoldable pub or_eof : Option ℕ → Cmd W ℕ
  or_eof none = fail eof
  or_eof (some b) = pure b

  unfoldable pub need_u8 : Cmd W ℕ
  need_u8 = do p ← get_proc; let (b, p') = fetch_u8 p; put_proc p'; or_eof b

  -- `mb_fetch_i32`, with the same early return; the program counter stays behind the last byte read.
  unfoldable pub need_i32 : Cmd W ℤ
  need_i32 = do
    b0 ← need_u8
    b1 ← need_u8
    b2 ← need_u8
    b3 ← need_u8
    pure (i32_of_bytes b0 b1 b2 b3)

  unfoldable pub check_regs : List ℕ → Cmd W (Unit {0})
  check_regs rs = if valid_regs rs then pure tt else fail bad_reg

  -- `proc->regs[r]`
  unfoldable pub reg : ℕ → Cmd W Term
  reg r = do p ← get_proc; lift (in_range (get_elem? p.regs r))

  -- `MB_GET_SMALLINT(proc->regs[r])`
  unfoldable pub reg_int : ℕ → Cmd W ℤ
  reg_int r = do t ← reg r; pure (get_smallint t)

  -- `proc->regs[r] = t`
  unfoldable pub set_reg : ℕ → Term → Cmd W (Unit {0})
  set_reg r t = do
    p ← get_proc
    if ltb r (length p.regs) then put_proc (record p { regs = set p.regs r t }) else crash
