-- ===== src/Regression/Compat.antt =====
-- The tests of the single-process interface in src/main_regression_host.c
-- (erts/example/mini_beam_esp32).
use os_ii.Prelude.{ℕ, zero, suc, ◌+◌, [], ◌∷◌, ℤ, pos, get_elem?}
use os_ii.Status.{
  ok, invalid_command, bad_argument, mailbox_full, mailbox_empty, bad_opcode, bad_reg, code,
}
use os_ii.Run.{Run, done, ◌>>=◌, in_range}
use os_ii.Term.{get_smallint}
use os_ii.Command.{Command, cmd_none, cmd_gpio_write}
use os_ii.Mailbox.{mailbox_capacity}
use os_ii.Hal.{Hal}
use os_ii.Compat.{Vm, init, mailbox_push, run}
use os_ii.Regression.Check.{i32le, check_int, check_rc}

-- A command whose other fields are 0.
abbrev pub command : ℤ → ℤ → ℤ → Command
command type a b = record { type = type; a = a; b = b; c = pos 0; d = pos 0 }

unfoldable pub test_invalid_command_rejected : ℕ
test_invalid_command_rejected =
    check_rc invalid_command (mailbox_push (init []) (command (pos 999) (pos 0) (pos 0))).0

unfoldable pub test_bad_argument_rejected : ℕ
test_bad_argument_rejected =
    check_rc bad_argument (mailbox_push (init []) (command cmd_gpio_write (pos 100) (pos 1))).0

-- The pushes of the loop: the failures, and the machine after them.
unfoldable pub fill : ℕ → Command → Vm → ℕ × Vm
fill zero cmd vm = (0, vm)
fill (suc n) cmd vm =
    let (rc, vm1) = mailbox_push vm cmd in
    let (failures, vm2) = fill n cmd vm1 in (check_rc ok rc + failures, vm2)

unfoldable pub test_mailbox_full : ℕ
test_mailbox_full =
    let cmd = command cmd_gpio_write (pos 2) (pos 1) in
    let (failures, vm) = fill mailbox_capacity cmd (init []) in
    failures + check_rc mailbox_full (mailbox_push vm cmd).0

module _ {W : Type 0} (hal : Hal W) (w : W) where
  unfoldable pub test_invalid_opcode : Run (ℕ × W)
  test_invalid_opcode =
      run hal 9 (init (0x7E ∷ [])) 8 w >>= λ (rc, vm, w'). done (check_rc bad_opcode rc, w')

  unfoldable pub test_bad_register_decode : Run (ℕ × W)
  test_bad_register_decode = run hal 9 (init (0x01 ∷ 77 ∷ i32le (pos 1))) 8 w >>= λ (rc, vm, w').
      done (check_rc bad_reg rc, w')

  unfoldable pub test_recv_empty_is_nonfatal : Run (ℕ × W)
  test_recv_empty_is_nonfatal =
      run hal 9 (init (0x20 ∷ 0 ∷ 1 ∷ 2 ∷ 3 ∷ 4 ∷ 0xFF ∷ [])) 8 w >>= λ (rc, vm, w').
      in_range (get_elem? vm.regs 0) >>= λ r0. in_range (get_elem? vm.regs 1) >>= λ r1. done (
        check_rc ok rc
            + check_int cmd_none (get_smallint r0)
            + check_int (pos (code mailbox_empty)) (get_smallint r1),
        w',
      )
