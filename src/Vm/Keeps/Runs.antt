-- ===== src/Vm/Keeps/Runs.antt =====
-- What the primitives keep, `mb_proc_step` and `mb_proc_run` of src/mb_vm.c
-- (erts/example/mini_beam_esp32) keep.
use os_ii.Prelude.{ℕ, zero, suc, Bool, true, false, if◌then◌else◌, not, ◌&&◌, ltb}
use os_ii.Status.{Status, ok, is_ok}
use os_ii.Run
use os_ii.Run.{Run, done, Gives}
use os_ii.Hal.{Hal}
use os_ii.Machine.{Machine, Flow, next, stop}
use os_ii.Vm.{finish, execute, proc_step, has_yielded, run_loop, proc_run}
use os_ii.Vm.Keeps.{After, Rules}
use os_ii.Vm.Keeps.Cases.{Keeps-execute}

-- `P` holds of what a step or a run leaves, whatever status it returns.
abbrev pub AfterRun :
    {W : Type 0} → Type 0 → (Machine W → Type 0) → Run (Status × Machine W) → Type 0
AfterRun T P = Gives T (λ x. P x.1)

module _ {W : Type 0} (T : Type 0) (P : Machine W → Type 0) where
  if-AfterRun :
      (b : Bool) (x y : Run (Status × Machine W))
      → AfterRun T P x
      → AfterRun T P y
      → AfterRun T P (if b then x else y)
  if-AfterRun true x y hx hy = hx
  if-AfterRun false x y hx hy = hy

  pub elim-AfterRun :
      (b : Bool) (x y : Run (Status × Machine W))
      → AfterRun T P x
      → AfterRun T P y
      → AfterRun T P (elim b [ false ↦ x | true ↦ y ])
  elim-AfterRun true x y hx hy = hy
  elim-AfterRun false x y hx hy = hx

module _ {W : Type 0} (hal : Hal W) (T : Type 0) (P : Machine W → Type 0)
    (rules : Rules hal T P) where
  AfterRun-finish : (fl : Flow W (Unit {0})) → After T P fl → AfterRun T P (finish fl)
  unfolding finish
  AfterRun-finish (next u m) h = h
  AfterRun-finish (stop s m) h = h
  AfterRun-finish Flow.fault h = tt
  AfterRun-finish Flow.out_of_fuel h = h

  -- What the primitives keep, `mb_proc_step` keeps.
  pub proc_step-AfterRun : (m : Machine W) → P m → AfterRun T P (proc_step hal m)
  unfolding proc_step
  proc_step-AfterRun m h =
      if-AfterRun T P m.proc.is_halted _ _ h
        (AfterRun-finish (execute hal m) ((Keeps-execute hal T P rules).at m h))

  -- One round of the loop of `mb_proc_run`, on the outcome of its step. `Q` is what the rounds keep.
  pub round-AfterRun :
      (Q : Machine W → Type 0) (r : Run (Status × Machine W))
      (f : Machine W → Run (Status × Machine W))
      → ((m : Machine W) → P m → Q m)
      → AfterRun T P r
      → ((m : Machine W) → P m → AfterRun T Q (f m))
      → AfterRun T Q (
          Run.◌>>=◌ r λ (rc, m').
            if not (is_ok rc)
            then done (rc, m')
            else if has_yielded m'
            then done (ok, m')
            else f m')
  round-AfterRun Q (done (rc, m)) f w h k =
      if-AfterRun T Q (not (is_ok rc)) _ _ (w m h)
        (if-AfterRun T Q (has_yielded m) _ _ (w m h) (k m h))
  round-AfterRun Q Run.fault f w h k = tt
  round-AfterRun Q Run.out_of_fuel f w h k = h

-- Where running out of fuel is no fault, what the primitives and the count of the instructions keep,
-- `mb_proc_run` keeps.
module _ {W : Type 0} (hal : Hal W) (P : Machine W → Type 0) (rules : Rules hal (Unit {0}) P)
    (counting : (n : ℕ) (m : Machine W)
      → P m
      → P (record m { proc = record (m.proc) { reductions = n } })) where
  run_loop-AfterRun :
      (fuel max_steps : ℕ) (m : Machine W)
      → P m
      → AfterRun (Unit {0}) P (run_loop hal fuel max_steps m)
  unfolding run_loop
  run_loop-AfterRun zero max_steps m h = tt
  run_loop-AfterRun (suc fuel) max_steps m h =
      elim-AfterRun (Unit {0}) P (not m.proc.is_halted && ltb m.proc.reductions max_steps) _ _ h (
        round-AfterRun hal (Unit {0}) P rules P (proc_step hal m) _ (λ m' h'. h')
          (proc_step-AfterRun hal (Unit {0}) P rules m h)
          (λ m' h'. run_loop-AfterRun fuel max_steps _ (counting _ m' h')))

  pub proc_run-AfterRun :
      (fuel max_steps : ℕ) (m : Machine W)
      → P m
      → AfterRun (Unit {0}) P (proc_run hal fuel max_steps m)
  unfolding proc_run
  proc_run-AfterRun fuel max_steps m h = run_loop-AfterRun fuel max_steps _ (counting 0 m h)
