-- ===== src/Vm/Resend.antt =====
-- `MB_OP_SEND` of src/mb_vm.c (erts/example/mini_beam_esp32) writes its result over the pid that it reads.
use os_ii.Prelude.{ℕ, ◌<◌, ◌≡◌, refl, lt→ltb, length, get_elem?, set, some, pos}
use os_ii.Status.{ok, bad_pid, code}
use os_ii.Term.{make_smallint, get_smallint}
use os_ii.Process.{Process}
use os_ii.Table.{Table, sched_proc}
use os_ii.Machine.{in_table, next, ◌>>=◌, get_proc, put_proc, get_caller, reg, reg_int, set_reg}
use os_ii.Vm.Ops.{send_found, send_by, send_with}

-- A second `SEND` through the same register is lost: with the `MB_OK` of a first one in the register of
-- the pid it delivers nothing, whatever the table and the other registers are, and answers
-- `MB_BAD_PID` in that register.
pub send_with_ok :
    {W : Type 0} (slot : ℕ) (procs : Table) (p : Process) (world : W)
    (r_pid r_type r_a r_b r_c r_d : ℕ)
    → get_elem? p.regs r_pid ≡ some (make_smallint (pos (code ok)))
    → r_pid < length p.regs
    → send_with r_pid r_type r_a r_b r_c r_d
        (record { proc = p; caller = in_table slot procs; world = world })
      ≡ next tt (record {
        proc = record p { regs = set p.regs r_pid (make_smallint (pos (code bad_pid))) };
        caller = in_table slot procs;
        world = world;
      })
unfolding send_with send_by send_found ◌>>=◌ get_proc put_proc get_caller reg reg_int set_reg
    sched_proc get_smallint make_smallint
send_with_ok slot procs p world r_pid r_type r_a r_b r_c r_d e lt =
    rw (e, lt→ltb r_pid (length p.regs) lt) refl
