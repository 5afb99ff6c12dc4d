-- ===== src/Zephyr/Examples.antt =====
-- The cyclic program of zephyr_app/src/main.c (erts/example/mini_beam_esp32), and the theorems on
-- the application at concrete inputs.
use mathlib.Core.List.{Memᴰ}
use os_ii.Prelude.{
  ◌^◌, ℕ, ◌+◌, ◌%◌, ◌≤◌, ◌≡◌, refl, ◌⊎◌, ◌↔◌, arith, true, List, [], ◌∷◌, length, replicate, pos,
  negsuc,
}
use os_ii.Status.{ok, mailbox_full, bad_pid}
use os_ii.Run.{Run, done}
use os_ii.Command.{Command, validate_command}
use os_ii.Process.{zero_process, init as proc_init}
use os_ii.Machine.{Machine, alone, next, need_i32}
use os_ii.Vm.Ops.{op_jmp}
use os_ii.Scheduler.{Scheduler, init, first_free, spawn, send}
use os_ii.Zephyr.Emit.{
  Code, empty_code, store, store_i32, emit_u8, emit_i32, patch_rel_i32, emit_bytes, emit_constants,
  emit_pwm_path, build_cyclic_program,
}
use os_ii.Zephyr.Emit.RoundTrip.{at_pc, emit_i32-need_i32, patch_rel_i32-op_jmp}
use os_ii.Zephyr.Enqueue.{Target, Stats, enqueue, enqueue_sensor_cmd}
use os_ii.Zephyr.Enqueue.Accounting.{
  Counted, IsAccounted, enqueue-Counted, enqueue-send, enqueue_sensor_cmd_lem,
}
use os_ii.Zephyr.Monitor.{Runtime, should_withhold_wdt_feed, Power, boot_counter_next}
use os_ii.Zephyr.Monitor.Elapsed.{
  Sensor, IsOverdue, runtimes, should_withhold_wdt_feed_lem, power_after, boot_counter_next_lem,
}
use os_ii.Zephyr.Scan.{Sig, Probe, value, i2c_signature_scan}
use os_ii.Zephyr.Scan.Found.{IsScan, i2c_signature_scan-IsScan}

abbrev code_of : Run Code → Code
code_of (done c) = c
code_of _ = empty_code

built : Run Code
unfolding build_cyclic_program emit_constants emit_pwm_path emit_bytes emit_u8 emit_i32
    patch_rel_i32 store_i32 store
built = build_cyclic_program empty_code

-- The program fits into the array of 128 bytes.
built_size : (code_of built).pc ≡ 120
unfolding built
built_size = refl

abbrev start : Code
start = record { demo_program = replicate 8 0; pc = 2 }

emitted : Run Code
unfolding emit_i32 store_i32 store
emitted = emit_i32 (negsuc 23) start

emitted_done : emit_i32 (negsuc 23) start ≡ done (code_of emitted)
unfolding emitted
emitted_done = refl

abbrev running : List ℕ → Machine ℕ
running bytes = record { proc = record zero_process { program = bytes }; caller = alone; world = 0 }

emit_i32-need_i32_example :
    need_i32 (at_pc (running (code_of emitted).demo_program) 2)
    ≡ next (negsuc 23) (at_pc (running (code_of emitted).demo_program) (code_of emitted).pc)
emit_i32-need_i32_example =
    emit_i32-need_i32 (negsuc 23) start (code_of emitted) (running (code_of emitted).demo_program)
      (omega arith, omega arith) emitted_done refl

patched : Run Code
unfolding patch_rel_i32 store_i32 store
patched = patch_rel_i32 3 1 start

patched_done : patch_rel_i32 3 1 start ≡ done (code_of patched)
unfolding patched
patched_done = refl

patched_room : 1 ≤ length (code_of patched).demo_program
unfolding patched
patched_room = omega arith

patch_rel_i32-op_jmp_example :
    op_jmp (at_pc (running (code_of patched).demo_program) 3)
    ≡ next tt (at_pc (running (code_of patched).demo_program) 1)
patch_rel_i32-op_jmp_example =
    patch_rel_i32-op_jmp 3 1 start (code_of patched) (running (code_of patched).demo_program)
      (omega arith) (omega arith) patched_done refl patched_room

abbrev light_sensor : Target
light_sensor = record { name = 7; id = 1; bus = 1; addr = 0x39; reg = 0x92 }

abbrev read_light : Command
read_light = record { type = pos 3; a = pos 1; b = pos 0x39; c = pos 0x92; d = pos 1 }

abbrev counters : Stats
counters = record { attempted = 5; pushed = 3; dropped_full = 1; processed = 0 }

one_process : Scheduler
unfolding spawn init first_free proc_init
one_process = (spawn init (0xFF ∷ [])).1

enqueue-Counted_example :
    let (rc, sched', stats') = enqueue one_process 1 read_light counters in
    Counted counters rc stats' × IsAccounted stats'
enqueue-Counted_example =
    enqueue-Counted one_process 1 read_light counters (omega arith) (omega arith)

read_light_valid : validate_command read_light ≡ ok
unfolding validate_command
read_light_valid = refl

enqueue-send_example :
    (enqueue one_process 1 read_light counters).0 ≡ (send one_process 1 read_light).0
enqueue-send_example = enqueue-send one_process 1 read_light counters read_light_valid

enqueue_sensor_cmd_lem_example :
    let rc = (enqueue_sensor_cmd one_process 1 light_sensor counters).0 in
    (rc ≡ ok) ⊎ (rc ≡ mailbox_full) ⊎ (rc ≡ bad_pid)
enqueue_sensor_cmd_lem_example =
    enqueue_sensor_cmd_lem one_process 1 light_sensor counters (omega arith) (omega arith)
      (omega arith)

abbrev degraded_sensor : Runtime
degraded_sensor = record {
  id = 1;
  degraded = true;
  read_count = 9;
  consecutive_errors = 3;
  backoff_until_ms = 0;
  degraded_since_ms = 4294967290;
}

-- It degraded 6 milliseconds before the clock wrapped, and is overdue at 9994 after that.
abbrev sensors : List Sensor
sensors = record { runtime = degraded_sensor; since = 4294967290 } ∷ []

should_withhold_wdt_feed_lem_example :
    (should_withhold_wdt_feed (runtimes sensors) (4294977290 % 2 ^ 32) ≡ true)
    ↔ ((s : Sensor) × Memᴰ s sensors × IsOverdue 4294977290 s)
should_withhold_wdt_feed_lem_example =
    should_withhold_wdt_feed_lem sensors 4294977290 ((omega arith, omega arith, omega arith), tt)

abbrev powered_on : Power
powered_on = record { gpregret = 7; gpregret2 = 0 }

boot_counter_next_lem_example : (boot_counter_next (power_after 256 powered_on)).0 ≡ 256 % 255 + 1
boot_counter_next_lem_example = boot_counter_next_lem powered_on 256 (omega arith)

abbrev all_answer : Sig → Probe
all_answer s = value s.expected

i2c_signature_scan-IsScan_example : IsScan 6 all_answer (i2c_signature_scan 6 all_answer)
i2c_signature_scan-IsScan_example = i2c_signature_scan-IsScan 6 all_answer (omega arith)
