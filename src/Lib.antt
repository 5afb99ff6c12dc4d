-- ===== src/Lib.antt =====
-- The mini BEAM virtual machine of erts/example/mini_beam_esp32: a register machine for a
-- microcontroller with processes, bounded mailboxes, per-process heaps and a cooperative
-- round-robin scheduler.
--
-- The parts and how they interact. A scheduler (src/mb_scheduler.c) keeps a table of eight
-- processes. A tick wakes sleepers, picks the next ready process and runs it for a slice of at most
-- 64 instructions in the interpreter (src/mb_vm.c). The interpreter changes the running process,
-- calls the drivers (include/mb_hal.h), allocates in the process's heap (src/mb_heap.c), and may push
-- a command into the mailbox of another process of the table.
--
-- The files.
--   Prelude         lists, options, Booleans, and integers over the native numbers
--   Status          include/mb_errors.h
--   Term            include/mb_term.h; Term/Bounds its encodings
--   Command         the commands of include/mb_types.h and `mb_validate_command`; Command/Range its table
--   Mailbox         `mb_mailbox_push_raw`, `mb_mailbox_pop_raw`; Mailbox/Invariant and Mailbox/Queue, the
--                   queue that a mailbox is; Mailbox/Refine
--   Run             the outcome of code that reads and writes arrays
--   Heap            `mb_heap_init`, `mb_heap_alloc`, `mb_heap_make_tuple`, `mb_heap_cons`; Heap/Gc `mb_heap_gc`;
--                   Heap/Fits the size of the arrays, Heap/Layout what an allocation puts where,
--                   Heap/Objects well-formed heaps, Heap/Build what makes them, Heap/Paths what can be
--                   seen of a term, Heap/Collect the collector on a well-formed heap
--   Hal             include/mb_hal.h as a record; Hal/Stub src/mb_hal_stub.c, Hal/Nrf52 src/mb_hal_nrf52.c and
--                   Hal/EspIdf src/mb_hal_espidf.c, the drivers of the host and of two kinds of boards,
--                   the latter on the calls of Zephyr and ESP-IDF, which are parameters
--   Process         include/mb_process.h and `mb_proc_init`
--   Table           the process table: `mb_sched_proc` and the delivery of a command;
--                   Table/Delivery what deliveries change, Table/Fits the size of the table
--   Machine         the state of one step, and the commands that the interpreter is written in
--   Opcode          the numbers of the opcodes; BifNumber those of the built-in functions
--   Vm              `mb_proc_step` and `mb_proc_run`; Vm/Bif `mb_call_bif`; Vm/Ops and Vm/Data the cases of
--                   the switch; Vm/Keeps, Vm/OfCaller and Vm/Sound what
--                   runs of instructions keep; Vm/Ends their end; Vm/Resend a second `SEND`;
--                   Vm/Healthy processes with a well-formed heap; Vm/Safe what an instruction keeps of
--                   a process if it does not fault, Vm/Safe/Tupleless processes that build no tuple
--   Scheduler       src/mb_scheduler.c; Scheduler/Pick the choice of the next process;
--                   Scheduler/Fair how long one is passed over;
--                   Scheduler/Isolation what a slice changes elsewhere; Scheduler/Spawn the entry that a
--                   new process gets; Scheduler/Reach what holds after any sequence of the calls;
--                   Scheduler/Ends the end of a tick; Scheduler/Safe the calls on safe processes;
--                   Scheduler/Filled spawns into a new table
--   Compat          the `mb_vm_` functions; Compat/Ends whether they return, Compat/Flat their processes,
--                   whose heap is not initialised
--   Zephyr          zephyr_app/src/main.c: Zephyr/Emit the bytecode emitter, Zephyr/Enqueue its commands and
--                   counters, Zephyr/Monitor the watchdog rule and the boot counter, Zephyr/Scan the scan for
--                   sensors, whose probe is a parameter; Zephyr/Flow zephyr_app/src/flow_generated.h; Zephyr/Boot
--                   the steps of the boot; Zephyr/MainLoop the endless loop of `main` and its counters;
--                   Zephyr/Main `main` itself
--   Regression      src/main_regression_host.c: each test as the number of its checks that fail;
--                   Regression/Passes their result
--   Demos           Demos/Stability src/main_stability_host.c, Demos/Multiproc src/main_multiproc_host.c,
--                   Demos/Single src/main_host.c, src/main_mailbox_host.c and espidf_app/main/app_main.c,
--                   Demos/Flow src/main_flow_host.c, whose generated programs are parameters
--
-- Conventions. Machine words are native numbers with the wrap written out. An access outside of an
-- array is the outcome `fault`. The accesses of a mailbox's array are tested by `push_in_range` and
-- `pop_in_range` where the interpreter makes them, and it faults. `mb_sched_send` and the `mb_vm_mailbox_`
-- functions have no such outcome here: one that is outside writes nothing or reads zeros. A pointer
-- into a heap space is a word offset, a `NULL` is `none`. The drivers are functions on a state of the
-- outside world of any type. The running process is kept apart from the table, whose entry for it is
-- brought up to date before a command of the interpreter looks at the table and after the slice.
--
-- Fuel. The loop of `mb_proc_run` takes fuel, one unit for each instruction and one to see that the
-- loop ends: every instruction of a slice moves the count of 64 on, and `YIELD` moves it to the end, so
-- 65 units do for a slice. The scan of the collector takes 129 units: it moves on by
-- at least a word in each round, and a space has 128 words.
--
-- The busy wait of `mb_hal_delay_ms` takes one unit for each reading of the timer, which moves on by a
-- microsecond at least, and the wait for a terminal one for each 100 milliseconds of 3000.
--
-- Not modelled: what the host programs print beside the values that they check or report; the log
-- lines of zephyr_app/src/main.c but one, and the thread of its probe, whose answer is a parameter; and
-- the tools and shell scripts, which are not part of the C program.
pub mod Prelude
pub mod Status
pub mod Term
pub mod Command
pub mod Mailbox
pub mod Run
pub mod Heap
pub mod Hal
pub mod Process
pub mod Table
pub mod Machine
pub mod Vm
pub mod Scheduler
pub mod Compat
pub mod Zephyr
pub mod Regression
pub mod Demos
pub mod Opcode
pub mod BifNumber
