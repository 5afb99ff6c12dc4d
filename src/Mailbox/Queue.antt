-- ===== src/Mailbox/Queue.antt =====
-- What a mailbox promises: a bounded first-in first-out queue of validated commands.
use os_ii.Prelude.{leb, not, if◌then◌else◌, List, [], ◌∷◌, ◌++◌, length, Option, none, some}
use os_ii.Status.{Status, ok, mailbox_full, is_ok}
use os_ii.Command.{Command, validate_command}

abbrev pub Queue : Type 0
Queue = List Command

unfoldable pub push : Queue → Command → Status × Queue
push q cmd =
    let status = validate_command cmd in
    if not (is_ok status)
    then (status, q)
    else if leb 32 (length q)
    then (mailbox_full, q)
    else (ok, q ++ (cmd ∷ []))

unfoldable pub pop : Queue → Option Command × Queue
pop [] = (none, [])
pop (cmd ∷ q) = (some cmd, q)

-- What a client asks of a mailbox, and what it is told.
pub data Request : Type 0 where
  put : Command → Request
  take : Request

pub data Reply : Type 0 where
  put_status : Status → Reply
  taken : Option Command → Reply

unfoldable pub run : Queue → List Request → List Reply
run q [] = []
run q (put cmd ∷ rs) = let (status, q') = push q cmd in put_status status ∷ run q' rs
run q (take ∷ rs) = let (got, q') = pop q in taken got ∷ run q' rs
