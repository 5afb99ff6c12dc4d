-- ===== src/Status.antt =====
-- erts/example/mini_beam_esp32/include/mb_errors.h: the status codes.
use os_ii.Prelude.{ℕ, ◌≡◌, refl, Bool, true, false}

pub data Status : Type 0 where
  ok eof bad_reg bad_opcode bad_bif bad_argc mailbox_empty invalid_command : Status
  bad_argument mailbox_full sched_idle bad_pid proc_table_full heap_oom bad_term bad_arity : Status

-- The number of a code, as `last_error` and a register show it.
abbrev pub code : Status → ℕ
code ok = 0
code eof = 1
code bad_reg = 2
code bad_opcode = 3
code bad_bif = 4
code bad_argc = 5
code mailbox_empty = 6
code invalid_command = 7
code bad_argument = 8
code mailbox_full = 9
code sched_idle = 10
code bad_pid = 11
code proc_table_full = 12
code heap_oom = 13
code bad_term = 14
code bad_arity = 15

-- `rc == MB_OK`
abbrev pub is_ok : Status → Bool
is_ok ok = true
is_ok _ = false

pub is_ok→eq : (s : Status) → is_ok s ≡ true → s ≡ ok
is_ok→eq ok h = refl
is_ok→eq s h = cc
