-- ===== src/Mailbox.antt =====
-- The mailbox of include/mb_types.h and its two operations in src/mb_vm.c
-- (both under erts/example/mini_beam_esp32): a ring of `MB_MAILBOX_CAPACITY` commands.
pub mod Queue
pub mod Invariant
pub mod Refine
mod Examples
use os_ii.Prelude.{
  ltb, ◌||◌, Bool, length, ℕ, ◌+◌, ◌-◌, ◌%◌, leb, ◌==◌, not, if◌then◌else◌, List, set, get_or,
  replicate, Option, none, some, pos,
}
use os_ii.Status.{Status, ok, mailbox_full, is_ok}
use os_ii.Command.{Command, validate_command}

abbrev pub mailbox_capacity : ℕ
mailbox_capacity = 32

-- `mb_mailbox_t`
pub record Mailbox : Type 0 where
  pub items : List Command
  pub head : ℕ
  pub tail : ℕ
  pub count : ℕ

-- What `memset` leaves: the command of zeros, and a mailbox of them.
abbrev pub zero_command : Command
zero_command = record { type = pos 0; a = pos 0; b = pos 0; c = pos 0; d = pos 0 }

abbrev pub zero_mailbox : Mailbox
zero_mailbox = record {
  items = replicate mailbox_capacity zero_command;
  head = 0;
  tail = 0;
  count = 0;
}

-- `head`, `tail` and `count` stay at most the capacity, so their `size_t` sums do not wrap. A write
-- outside `items` changes nothing here: the interpreter faults there, by `push_in_range`.
unfoldable pub push_raw : Mailbox → Command → Status × Mailbox
push_raw mb cmd =
    let status = validate_command cmd in
    if not (is_ok status)
    then (status, mb)
    else if leb mailbox_capacity mb.count
    then (mailbox_full, mb)
    else (
      ok,
      record mb {
        items = set mb.items mb.tail cmd;
        tail = (mb.tail + 1) % mailbox_capacity;
        count = mb.count + 1;
      },
    )

-- Whether a push stays inside `items`: it writes only where the command is accepted.
abbrev pub push_in_range : Mailbox → Command → Bool
push_in_range mb cmd =
    not (is_ok (validate_command cmd))
    || leb mailbox_capacity mb.count
    || ltb mb.tail (length mb.items)

-- `none` is `MB_MAILBOX_EMPTY`, `some cmd` is `MB_OK` with the command stored through `cmd`. A
-- read outside `items` gives zeros here: the interpreter faults there, by `pop_in_range`.
unfoldable pub pop_raw : Mailbox → Option Command × Mailbox
pop_raw mb = if mb.count == 0 then (none, mb) else (
  some (get_or mb.items mb.head zero_command),
  record mb { head = (mb.head + 1) % mailbox_capacity; count = mb.count - 1 },
)

-- Whether a pop stays inside `items`: it reads only where there is a command.
abbrev pub pop_in_range : Mailbox → Bool
pop_in_range mb = (mb.count == 0) || ltb mb.head (length mb.items)
