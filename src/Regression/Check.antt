-- ===== src/Regression/Check.antt =====
-- The checks of src/main_regression_host.c (erts/example/mini_beam_esp32). A test gives the number of
-- its checks that fail, and the world after it where it runs a program.
use os_ii.Prelude.{
  ℕ, zero, suc, ◌/◌, ◌%◌, if◌then◌else◌, Bool, true, false, List, [], ◌∷◌, get_elem?, none, some, ℤ,
  pos, eq_ℤ, to_u32,
}
use os_ii.Status.{Status, code, is_ok}
use os_ii.Run.{Run, done, fault, out_of_fuel, ◌>>=◌, in_range}
use os_ii.Term.{Term}
use os_ii.Hal.{Hal}
use os_ii.Process.{Process, ProcState, free, ready, waiting, sleeping, halted}
use os_ii.Table.{entry, sched_proc}
use os_ii.Scheduler.{Scheduler, tick}

-- `I32LE(v)`
unfoldable pub i32le : ℤ → List ℕ
i32le v =
    let w = to_u32 v in (w % 256) ∷ (w / 256 % 256) ∷ (w / 65536 % 256) ∷ (w / 16777216 % 256) ∷ []

-- `check_int`: what it adds to `failures`.
unfoldable pub check_int : ℤ → ℤ → ℕ
check_int expected actual = if eq_ℤ expected actual then 0 else 1

unfoldable pub check_num : ℕ → ℕ → ℕ
unfolding check_int
check_num expected actual = check_int (pos expected) (pos actual)

unfoldable pub check_rc : Status → Status → ℕ
unfolding check_num
check_rc expected actual = check_num (code expected) (code actual)

unfoldable pub check_bool : Bool → Bool → ℕ
unfolding check_num
check_bool expected actual = check_num (if expected then 1 else 0) (if actual then 1 else 0)

-- The values of `mb_proc_state_t`.
unfoldable pub state_code : ProcState → ℕ
state_code free = 0
state_code ready = 1
state_code waiting = 2
state_code sleeping = 3
state_code halted = 4

unfoldable pub check_state : ProcState → ProcState → ℕ
unfolding check_num state_code
check_state expected actual = check_num (state_code expected) (state_code actual)

-- `mb_sched_proc(&sched, pid)`, followed.
unfoldable pub proc_at : Scheduler → ℕ → Run Process
proc_at sched pid = elim (sched_proc sched.procs pid) [
  | none ↦ fault
  | some i ↦ done (entry sched.procs i)
]

-- `p->regs[r]`
unfoldable pub reg_of : Process → ℕ → Run Term
reg_of p r = in_range (get_elem? p.regs r)

-- `while ((rc = mb_sched_tick(&sched)) == MB_OK) {}`, on fuel for the ticks.
unfoldable pub run_until_idle :
    {W : Type 0} → Hal W → ℕ → ℕ → Scheduler → W → Run (Status × Scheduler × W)
run_until_idle hal zero fuel sched w = out_of_fuel
run_until_idle hal (suc ticks) fuel sched w = tick hal fuel sched w >>= λ (rc, sched', w').
    elim (is_ok rc) [
      | false ↦ done (rc, sched', w')
      | true ↦ run_until_idle hal ticks fuel sched' w'
    ]
