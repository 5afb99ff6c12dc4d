-- ===== src/Scheduler/Tests.antt =====
-- Slices of two small programs under the scheduler of src/mb_scheduler.c
-- (erts/example/mini_beam_esp32), and its theorems at them.
use os_ii.Prelude.{length, ℕ, ◌≡◌, ◌≢◌, ◌<◌, ◌≤◌, ◌↔◌, refl, arith, List, [], ◌∷◌, some, none, true}
use os_ii.Status.{Status, ok}
use os_ii.Run.{Run, done, out_of_fuel}
use os_ii.Command.{validate_command}
use os_ii.Hal.Board.{board}
use os_ii.Process.{waiting, init as proc_init}
use os_ii.Scheduler.{
  Scheduler, init, first_free, spawn, next_ready, run_picked, write_back, tick, wake, wake_sleepers,
}
use os_ii.Term.{get_smallint, make_smallint}
use os_ii.Table.{is_ready, entry, sched_proc, push_proc, deliver}
use os_ii.Table.Delivery.{Untouched, Grown}
use os_ii.Mailbox.{push_raw, pop_raw}
use os_ii.Mailbox.Invariant.{IsValid, zero_mailbox-IsValid}
use os_ii.Machine.{
  Machine, alone, get_proc, put_proc, get_caller, drive, crash, set_error, fail, fetch_u8,
  i32_of_bytes, valid_reg, valid_regs, or_eof, need_u8, need_i32, check_regs, reg, reg_int, set_reg,
  ◌>>=◌,
}
use os_ii.Vm.{finish, has_yielded, dispatch, execute, proc_step, run_loop, proc_run}
use os_ii.Vm.Ops.{
  op_const_i32, fetch_regs, set_five, recv_empty, recv_some, recv_got, recv_with, op_recv_cmd,
  send_to, send_found, send_by, send_with, op_send, op_halt,
}
use os_ii.Scheduler.Pick.{distance, next_ready_lem}
use os_ii.Scheduler.Fair.{PassedOver, none_yet, ticked as passed_by, PassedOver-le-distance}
use os_ii.Scheduler.Isolation.{run_picked-isolation}
use os_ii.Scheduler.Spawn.{Outcome, spawn_lem}
use os_ii.Scheduler.Ends.{Reached-tick}
use os_ii.Scheduler.Safe.{proc_init-IsSafe}
use os_ii.Scheduler.Safe.Ticks.{tick-Returns}
use os_ii.Vm.Safe.Tupleless.{IsSafe, tupleless-NoTuples}
use os_ii.Vm.Safe.Runs.{SecureRun}
use os_ii.Vm.Safe.Steps.{proc_step-Secure}
use os_ii.Scheduler.Reach.{Reached, started, spawned, ticked, Reached-no_lost, Reached-IsValid}

-- Loads 2 into register 0, sends an empty command to that pid, and stops.
abbrev sender : List ℕ
sender =
    0x01 ∷ 0x00 ∷ 0x02 ∷ 0x00 ∷ 0x00 ∷ 0x00 ∷ 0x21 ∷ 0x00 ∷ 0x01 ∷ 0x01 ∷ 0x01 ∷ 0x01 ∷ 0x01 ∷ 0xFF
    ∷ []

-- Receives a command and stops.
abbrev receiver : List ℕ
receiver = 0x20 ∷ 0x00 ∷ 0x01 ∷ 0x02 ∷ 0x03 ∷ 0x04 ∷ 0xFF ∷ []

booted : Scheduler
unfolding spawn init first_free proc_init
booted = (spawn (spawn init sender).1 receiver).1

both_ready : next_ready 8 booted.procs 0 0 ≡ some 0
unfolding booted next_ready
both_ready = refl

-- What a slice leaves of the scheduler.
abbrev left : Run (Status × Scheduler × ℕ) → Scheduler
left (done (rc, s, w)) = s
left _ = booted

slice : ℕ → Scheduler → Run (Status × Scheduler × ℕ)
unfolding booted run_picked write_back proc_run run_loop proc_step execute finish has_yielded
    dispatch op_const_i32 op_recv_cmd op_send op_halt fetch_regs set_five recv_empty recv_some
    recv_got recv_with send_to send_found send_by send_with get_proc put_proc get_caller drive crash
    set_error fail fetch_u8 i32_of_bytes valid_reg valid_regs or_eof need_u8 need_i32 check_regs reg
    reg_int set_reg ◌>>=◌ sched_proc push_proc deliver push_raw get_smallint make_smallint
    validate_command
slice idx s = run_picked board 5 s 0 idx

-- The sender's first slice: it loads the pid, sends, and stops.
sent : run_picked board 5 booted 0 0 ≡ done (ok, left (slice 0 booted), 0)
unfolding slice
sent = refl

sent_count : (entry (left (slice 0 booted)).procs 1).mailbox.count ≡ 1
unfolding slice
sent_count = refl

ready_1 : is_ready (entry booted.procs 1).state ≡ true
unfolding booted
ready_1 = refl

receiver_mailbox : IsValid (entry booted.procs 1).mailbox
unfolding booted
receiver_mailbox = zero_mailbox-IsValid

run_picked-isolation_example :
    Untouched (entry booted.procs 1) (entry (left (slice 0 booted)).procs 1)
    × Grown (entry booted.procs 1).mailbox (entry (left (slice 0 booted)).procs 1).mailbox
run_picked-isolation_example =
    run_picked-isolation board 5 booted (left (slice 0 booted)) 0 0 0 1 ok sent (omega arith)
      receiver_mailbox

next_ready_lem_example :
    ((next_ready 8 booted.procs 0 0 ≡ none)
      ↔ ((j : ℕ) → j < 8 → ¬ (is_ready (entry booted.procs j).state ≡ true)))
    × ((idx : ℕ)
        → next_ready 8 booted.procs 0 0 ≡ some idx
        → (idx < 8)
          × (is_ready (entry booted.procs idx).state ≡ true)
          × ((j : ℕ)
              → j < 8
              → distance 0 j < distance 0 idx
              → ¬ (is_ready (entry booted.procs j).state ≡ true)))
next_ready_lem_example = next_ready_lem booted.procs 0 (omega arith)

-- A process that receives from an empty mailbox waits.
alone_booted : Scheduler
unfolding spawn init first_free proc_init
alone_booted = (spawn init receiver).1

wait_tick : Run (Status × Scheduler × ℕ)
unfolding alone_booted slice tick wake_sleepers wake next_ready pop_raw
wait_tick = tick board 8 alone_booted 0

waited : tick board 8 alone_booted 0 ≡ done (ok, left wait_tick, 1)
unfolding wait_tick
waited = refl

-- The sender runs first, while the receiver is ready.
first_tick : Run (Status × Scheduler × ℕ)
unfolding booted slice tick wake_sleepers wake next_ready
first_tick = tick board 5 booted 0

first_ticked : tick board 5 booted 0 ≡ done (ok, left first_tick, 1)
unfolding first_tick
first_ticked = refl

booted_current : booted.current ≡ 0
unfolding booted
booted_current = refl

passed : PassedOver board 1 booted 1
unfolding booted wake_sleepers wake next_ready
passed = passed_by 5 0 0 1 ok refl refl (omega arith) first_ticked (none_yet (left first_tick))

PassedOver-le-distance_example : (1 ≤ distance booted.current 1) × (1 ≤ 7)
PassedOver-le-distance_example =
    PassedOver-le-distance board passed (rw booted_current (omega arith)) (omega arith)

waiting_1 : (entry (left wait_tick).procs 0).state ≡ waiting
unfolding wait_tick
waiting_1 = refl

wait-Reached : Reached board (left wait_tick)
unfolding alone_booted
wait-Reached = ticked 8 0 1 ok (spawned receiver started) waited

Reached-no_lost_example : (entry (left wait_tick).procs 0).mailbox.count ≡ 0
Reached-no_lost_example = Reached-no_lost board 0 wait-Reached waiting_1

Reached-IsValid_example : IsValid (entry (left wait_tick).procs 0).mailbox
Reached-IsValid_example = Reached-IsValid board 0 wait-Reached

empty_size : length init.procs ≡ 8
unfolding init
empty_size = refl

spawn_lem_example : Outcome init receiver (spawn init receiver)
spawn_lem_example = spawn_lem init receiver empty_size

Reached-tick_example : tick board 65 (left wait_tick) 5 ≢ out_of_fuel
Reached-tick_example = Reached-tick board 65 5 wait-Reached (omega arith)

tick-Returns_example :
    (x : Status × Scheduler × ℕ) × (tick board 65 (spawn (spawn init sender).1 receiver).1 0
      ≡ done x)
tick-Returns_example =
    tick-Returns board 65 0 (spawned receiver (spawned sender started))
      (tupleless-NoTuples receiver refl, (tupleless-NoTuples sender refl, tt)) (omega arith)

-- `CONS` with the destination 3, and the head and the tail from registers 1 and 2.
abbrev consing : List ℕ
consing = 0x52 ∷ 0x03 ∷ 0x01 ∷ 0x02 ∷ 0xFF ∷ []

abbrev alone_machine : Machine ℕ
alone_machine = record { proc = proc_init 1 consing; caller = alone; world = 0 }

proc_step-Secure_example : SecureRun IsSafe ⊥ (proc_step board alone_machine)
proc_step-Secure_example =
    proc_step-Secure board alone_machine
      (proc_init-IsSafe 1 consing (tupleless-NoTuples consing refl), tt)
