-- ===== src/Table.antt =====
-- The process table of include/mb_scheduler.h and what both `MB_OP_SEND` of src/mb_vm.c and
-- `mb_sched_send` of src/mb_scheduler.c do with it (erts/example/mini_beam_esp32).
pub mod Delivery
pub mod Fits
use os_ii.Prelude.{
  ℕ, ◌≡◌, refl, ◌-◌, ltb, ◌==◌, Bool, true, false, ◌&&◌, ◌||◌, if◌then◌else◌, List, get_or, set,
  length, get_or-set_ne, get_or-set_self, get_or-set_past, Bool-cases, inl, inr, ltb→lt, ltb→le,
  ==→eq, ==→ne, Option, none, some,
}
use os_ii.Status.{Status, ok, bad_pid, is_ok}
use os_ii.Command.{Command}
use os_ii.Mailbox.{push_raw}
use os_ii.Process.{
  Process, ProcState, free, ready, waiting, sleeping, halted, zero_process, max_processes, pid_none,
}

abbrev pub Table : Type 0
Table = List Process

abbrev pub is_free : ProcState → Bool
is_free free = true
is_free _ = false

abbrev pub is_ready : ProcState → Bool
is_ready ready = true
is_ready _ = false

abbrev pub is_waiting : ProcState → Bool
is_waiting waiting = true
is_waiting _ = false

pub is_waiting→eq : (s : ProcState) → is_waiting s ≡ true → s ≡ waiting
is_waiting→eq waiting h = refl
is_waiting→eq s h = cc

abbrev pub is_sleeping : ProcState → Bool
is_sleeping sleeping = true
is_sleeping _ = false

-- `procs[i]`; the table has `max_processes` entries and every index is tested against that.
abbrev pub entry : Table → ℕ → Process
entry procs i = get_or procs i zero_process

-- What holds of the process that is written and of an entry before holds of the entry after.
pub entry-set :
    (P : Process → Type 0) (procs : Table) (j i : ℕ) (p : Process)
    → P p
    → P (entry procs j)
    → P (entry (set procs i p) j)
entry-set P procs j i p s h = elim (Bool-cases (i == j)) [
  | inl same ↦
      let e : i ≡ j = ==→eq i j same in
      elim (Bool-cases (ltb i (length procs))) [
        | inl inside ↦ rw (← e, get_or-set_self procs i p zero_process (ltb→lt i _ inside)) s
        | inr outside ↦
            rw (← e, get_or-set_past procs i p zero_process (ltb→le i _ outside)) (rw e h)
      ]
  | inr other ↦ rw (get_or-set_ne procs i j p zero_process (==→ne i j other)) h
]

-- `mb_sched_proc`: the index of the process, `none` for `NULL`.
unfoldable pub sched_proc : Table → ℕ → Option ℕ
sched_proc procs pid =
    if (pid == pid_none) || ltb max_processes pid
    then none
    else if is_free (entry procs (pid - 1)).state
    then none
    else some (pid - 1)

-- `mb_vm_mailbox_push_proc`
unfoldable pub push_proc : Process → Command → Status × Process
push_proc proc cmd =
    let (rc, mailbox) = push_raw proc.mailbox cmd in (rc, record proc { mailbox = mailbox })

-- The push into the target's mailbox, and the wake-up of a waiting target.
unfoldable pub deliver : Process → Command → Status × Process
deliver target cmd =
    let (rc, target') = push_proc target cmd in
    if is_ok rc && is_waiting target'.state
    then (rc, record target' { state = ready })
    else (rc, target')
