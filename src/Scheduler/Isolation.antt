-- ===== src/Scheduler/Isolation.antt =====
-- The isolation of processes under the scheduler of src/mb_scheduler.c and the interpreter of
-- src/mb_vm.c (both under erts/example/mini_beam_esp32).
use os_ii.Prelude.{ℕ, ◌≡◌, refl, ◌≢◌, set, get_or-set_ne, sym, ◌∙◌}
use os_ii.Status.{Status}
use os_ii.Run
use os_ii.Run.{Run, done}
use os_ii.Command.{Command}
use os_ii.Hal.{Hal}
use os_ii.Process.{Process, zero_process, max_reductions}
use os_ii.Table.{Table, entry, deliver}
use os_ii.Table.Delivery.{
  Delivered, here, Delivered-set, Untouched, Delivered-Untouched, Grown, Delivered-Grown,
}
use os_ii.Mailbox.Invariant.{IsValid}
use os_ii.Machine.{Machine, Caller, alone, in_table}
use os_ii.Vm.Keeps.Runs.{AfterRun, proc_run-AfterRun}
use os_ii.Vm.OfCaller.{AnyProcess, caller-Rules}
use os_ii.Vm.Keeps.Local.{Both}
use os_ii.Scheduler.{Scheduler, write_back, run_picked}

module _ (slot : ℕ) (before : Table) where
  -- Every entry but the running process's own has had deliveries only.
  abbrev OthersDelivered : Caller → Type 0
  OthersDelivered alone = Unit
  OthersDelivered (in_table s procs) =
      (s ≡ slot) × ((j : ℕ) → j ≢ slot → Delivered (entry before j) (entry procs j))

  own-OthersDelivered :
      (s : ℕ) (procs : Table) (p : Process)
      → OthersDelivered (in_table s procs)
      → OthersDelivered (in_table s (set procs s p))
  own-OthersDelivered s procs p (e, d) =
      (e, λ j ne. rw (get_or-set_ne procs s j p zero_process (λ q. ne (sym q ∙ e))) (d j ne))

  deliver-OthersDelivered :
      (s : ℕ) (procs : Table) (i : ℕ) (cmd : Command)
      → OthersDelivered (in_table s procs)
      → OthersDelivered (in_table s (set procs i (deliver (entry procs i) cmd).1))
  deliver-OthersDelivered s procs i cmd (e, d) = (e, λ j ne. Delivered-set procs i j cmd (d j ne))

abbrev Picked : {W : Type 0} → Scheduler → ℕ → Run (Status × Scheduler × W) → Type 0
Picked sched idx (done (rc, after, w)) =
    (j : ℕ) → j ≢ idx → Delivered (entry sched.procs j) (entry after.procs j)
Picked sched idx Run.fault = Unit
Picked sched idx Run.out_of_fuel = Unit

write_back-Picked :
    {W : Type 0} (sched : Scheduler) (idx : ℕ) (rc : Status) (p : Process) (c : Caller) (w : W)
    → OthersDelivered idx sched.procs c
    → Picked sched idx
        (done (write_back sched idx (rc, record { proc = p; caller = c; world = w })))
unfolding write_back
write_back-Picked sched idx rc p alone w h j ne =
    rw (get_or-set_ne sched.procs idx j p zero_process (λ q. ne (sym q))) here
write_back-Picked sched idx rc p (in_table s procs) w h j ne =
    rw (get_or-set_ne procs idx j p zero_process (λ q. ne (sym q))) (h.1 j ne)

run-Picked :
    {W : Type 0} (sched : Scheduler) (idx : ℕ) (r : Run (Status × Machine W))
    → AfterRun (Unit {0}) (Both AnyProcess (OthersDelivered idx sched.procs)) r
    → Picked sched idx (Run.◌>>=◌ r λ x. done (write_back sched idx x))
run-Picked sched idx (done (rc, m)) h = write_back-Picked sched idx rc m.proc m.caller m.world h.1
run-Picked sched idx Run.fault h = tt
run-Picked sched idx Run.out_of_fuel h = tt

module _ {W : Type 0} (hal : Hal W) where
  run_picked-Picked :
      (fuel : ℕ) (sched : Scheduler) (world : W) (idx : ℕ)
      → Picked sched idx (run_picked hal fuel sched world idx)
  unfolding run_picked
  run_picked-Picked fuel sched world idx = run-Picked sched idx _ (
      proc_run-AfterRun hal (Both AnyProcess (OthersDelivered idx sched.procs))
        (caller-Rules (OthersDelivered idx sched.procs) (own-OthersDelivered idx sched.procs)
          (deliver-OthersDelivered idx sched.procs) hal)
        (λ n m h. h) fuel max_reductions _ (tt, (refl, λ j ne. here)))

  -- A slice of the process in entry `idx` that returns, on any program and hardware, changes another
  -- entry with a valid mailbox only by deliveries into that: its program, counter, registers, heap,
  -- error, flags and wake-up time stay as they were, its state changes at most from `WAITING` to
  -- `READY`, and its mailbox stays valid and holds what it held with commands added behind.
  pub run_picked-isolation :
      (fuel : ℕ) (sched after : Scheduler) (world world' : W) (idx j : ℕ) (rc : Status)
      → run_picked hal fuel sched world idx ≡ done (rc, after, world')
      → j ≢ idx
      → IsValid (entry sched.procs j).mailbox
      → Untouched (entry sched.procs j) (entry after.procs j)
        × Grown (entry sched.procs j).mailbox (entry after.procs j).mailbox
  run_picked-isolation fuel sched after world world' idx j rc e ne v =
      let d : Delivered (entry sched.procs j) (entry after.procs j) =
        (rw e at (run_picked-Picked fuel sched world idx)) j ne in
      (Delivered-Untouched d, Delivered-Grown v d)
