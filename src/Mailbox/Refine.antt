-- ===== src/Mailbox/Refine.antt =====
-- A valid mailbox behaves as the queue of the commands that it holds.
use os_ii.Prelude.{◌≡◌, refl, arith, List, [], ◌∷◌}
use os_ii.Command.{Command}
use os_ii.Mailbox.{Mailbox, push_raw, pop_raw}
use os_ii.Mailbox.Invariant.{
  IsValid, contents, length-window, window_of_ne_zero, window-set, push_raw-IsValid,
  pop_raw-IsValid,
}
use os_ii.Mailbox.Queue
use os_ii.Mailbox.Queue.{Request, put, take, Reply, put_status, taken}

-- The mailbox answers a client's requests in order.
unfoldable pub run : Mailbox → List Request → List Reply
run mb [] = []
run mb (put cmd ∷ rs) = let (status, mb') = push_raw mb cmd in put_status status ∷ run mb' rs
run mb (take ∷ rs) = let (got, mb') = pop_raw mb in taken got ∷ run mb' rs

-- On a valid mailbox `mb_mailbox_push_raw` returns the status of the queue's push and leaves the queue's contents.
pub push_raw_refines :
    (mb : Mailbox) (cmd : Command)
    → IsValid mb
    → let (status, mb') = push_raw mb cmd in (status, contents mb') ≡ Queue.push (contents mb) cmd
unfolding push_raw Queue.push
push_raw_refines mb cmd v = ground (
  arith,
  length-window mb.items mb.head mb.count,
  window-set mb.items cmd mb.count mb.head mb.tail,
)

-- On a valid mailbox `mb_mailbox_pop_raw` returns the oldest command, if there is one, and leaves the rest.
pub pop_raw_refines :
    (mb : Mailbox)
    → IsValid mb
    → let (got, mb') = pop_raw mb in (got, contents mb') ≡ Queue.pop (contents mb)
unfolding pop_raw Queue.pop
pop_raw_refines mb v = ground (arith, window_of_ne_zero mb.items mb.head mb.count)

-- No sequence of pushes and pops tells a valid mailbox from the bounded queue of the commands that
-- it holds: each push is answered alike, full or invalid included, and each pop gives the same
-- command.
pub run_refines :
    (rs : List Request) (mb : Mailbox) → IsValid mb → run mb rs ≡ Queue.run (contents mb) rs
unfolding run Queue.run
run_refines [] mb v = refl
run_refines (put cmd ∷ rs) mb v =
    rw (run_refines rs (push_raw mb cmd).1 (push_raw-IsValid mb cmd v), ← push_raw_refines mb cmd v)
run_refines (take ∷ rs) mb v =
    rw (run_refines rs (pop_raw mb).1 (pop_raw-IsValid mb v), ← pop_raw_refines mb v)
