-- ===== src/Mailbox/Examples.antt =====
-- The theorems on mailboxes at a concrete one.
use os_ii.Prelude.{◌≡◌, List, [], ◌∷◌, pos}
use os_ii.Command.{Command}
use os_ii.Mailbox.{Mailbox, zero_mailbox, push_raw}
use os_ii.Mailbox.Invariant.{IsValid, contents, zero_mailbox-IsValid, push_raw-IsValid}
use os_ii.Mailbox.Queue
use os_ii.Mailbox.Queue.{Request, put, take}
use os_ii.Mailbox.Refine.{run, run_refines, push_raw_refines}

abbrev pin_on : Command
pin_on = record { type = pos 1; a = pos 13; b = pos 1; c = pos 0; d = pos 0 }

abbrev bad_pin : Command
bad_pin = record { type = pos 1; a = pos 40; b = pos 1; c = pos 0; d = pos 0 }

abbrev one_command : Mailbox
one_command = (push_raw zero_mailbox pin_on).1

one_command-IsValid : IsValid one_command
one_command-IsValid = push_raw-IsValid zero_mailbox pin_on zero_mailbox-IsValid

abbrev requests : List Request
requests = put bad_pin ∷ put pin_on ∷ take ∷ take ∷ take ∷ []

run_refines_example : run one_command requests ≡ Queue.run (contents one_command) requests
run_refines_example = run_refines requests one_command one_command-IsValid

push_raw_refines_example :
    let (status, mb') = push_raw one_command pin_on in
    (status, contents mb') ≡ Queue.push (contents one_command) pin_on
push_raw_refines_example = push_raw_refines one_command pin_on one_command-IsValid
