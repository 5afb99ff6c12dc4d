-- ===== src/Vm/Tests.antt =====
-- A `SEND` of src/mb_vm.c (erts/example/mini_beam_esp32) through register 3, which holds `MB_OK`.
use os_ii.Prelude.{◌≡◌, ◌<◌, refl, arith, [], ◌∷◌, set, some, get_elem?, length, pos}
use os_ii.Status.{ok, bad_pid, code}
use os_ii.Term.{make_smallint}
use os_ii.Process.{Process, init}
use os_ii.Machine.{in_table, next}
use os_ii.Vm.Ops.{send_with}
use os_ii.Vm.Resend.{send_with_ok}

-- A process after a `SEND` that was accepted.
sent : Process
unfolding init
sent = record (init 1 []) { regs = set (init 1 []).regs 3 (make_smallint (pos (code ok))) }

sent_reg : get_elem? sent.regs 3 ≡ some (make_smallint (pos (code ok)))
unfolding sent init
sent_reg = refl

sent_size : 3 < length sent.regs
unfolding sent init
sent_size = omega arith

send_with_ok_example :
    send_with 3 4 5 7 8 8 (record { proc = sent; caller = in_table 0 (sent ∷ []); world = tt })
    ≡ next tt (record {
      proc = record sent { regs = set sent.regs 3 (make_smallint (pos (code bad_pid))) };
      caller = in_table 0 (sent ∷ []);
      world = tt;
    })
send_with_ok_example = send_with_ok 0 (sent ∷ []) sent tt 3 4 5 7 8 8 sent_reg sent_size
