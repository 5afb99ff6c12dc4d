-- ===== src/Vm/Sound.antt =====
-- The soundness of a process of src/mb_vm.c (erts/example/mini_beam_esp32) and of the table it stands
-- in: a sound process has a valid mailbox, and waits only if that is empty.
pub mod Commands
use os_ii.Prelude.{
  ℕ, ◌≡◌, refl, ◌≢◌, arith, set, get_or-set_ne, get_or-set_self, get_or-set_past, length, ltb, ◌==◌,
  Bool-cases, inl, inr, ltb→lt, ltb→le, ==→eq, ==→ne, Option, none, some, ℤ, List, false,
}
use os_ii.Status.{Status, eof, mailbox_empty, is_ok}
use os_ii.Term.{Term}
use os_ii.Command.{Command}
use os_ii.Mailbox.{Mailbox, push_raw, pop_raw}
use os_ii.Mailbox.Invariant.{IsValid, pop_raw-IsValid, push_raw-IsValid, zero_mailbox-IsValid}
use os_ii.Hal.{Hal}
use os_ii.Process.{Process, ProcState, waiting, zero_process}
use os_ii.Table.{Table, entry, entry-set, is_waiting, push_proc, deliver}
use os_ii.Machine.{
  Machine, Caller, alone, in_table, Cmd, ◌>>=◌, get_proc, put_proc, get_caller, drive, set_error,
  or_eof, need_u8, fetch_u8, fail, set_reg,
}

pub record IsSound (p : Process) : Type 0 where
  pub mail : IsValid p.mailbox
  pub no_lost : p.state ≡ waiting → p.mailbox.count ≡ 0

pub zero_process-IsSound : IsSound zero_process
zero_process-IsSound = record { mail = zero_mailbox-IsValid; no_lost = λ e. cc }

count-push_raw_rejected :
    (mb : Mailbox) (cmd : Command) → is_ok (push_raw mb cmd).0 ≡ false → (push_raw mb cmd).1 ≡ mb
unfolding push_raw
count-push_raw_rejected mb cmd h = ground arith

pub count-pop_raw : (mb : Mailbox) → mb.count ≡ 0 → (pop_raw mb).1.count ≡ 0
unfolding pop_raw
count-pop_raw mb h = ground arith

not_waiting : (s : ProcState) → is_waiting s ≡ false → s ≢ waiting
not_waiting waiting h = cc
not_waiting s h = λ e. cc

-- A delivery that is accepted wakes the process, one that is not leaves its mailbox alone.
pub deliver-IsSound : (p : Process) (cmd : Command) → IsSound p → IsSound (deliver p cmd).1
unfolding deliver push_proc
deliver-IsSound p cmd s = elim (Bool-cases (is_ok (push_raw p.mailbox cmd).0)) [
  | inl good ↦ elim (Bool-cases (is_waiting p.state)) [
    | inl w ↦
        rw (good, w) (record { mail = push_raw-IsValid p.mailbox cmd s.mail; no_lost = λ e. cc })
    | inr n ↦
        rw (good, n)
          (record {
            mail = push_raw-IsValid p.mailbox cmd s.mail;
            no_lost = λ e. absurd (not_waiting p.state n e);
          })
  ]
  | inr bad ↦
      rw (bad, count-push_raw_rejected p.mailbox cmd bad)
        (record { mail = s.mail; no_lost = s.no_lost })
]

pub entry-IsSound :
    (procs : Table) (slot i : ℕ) (p : Process)
    → IsSound p
    → IsSound (entry procs slot)
    → IsSound (entry (set procs i p) slot)
entry-IsSound = entry-set IsSound

abbrev pub AllSound : Table → Type 0
AllSound procs = (i : ℕ) → IsSound (entry procs i)

abbrev pub SoundCaller : Caller → Type 0
SoundCaller alone = Unit
SoundCaller (in_table slot procs) = AllSound procs

pub deliver-AllSound :
    (procs : Table) (i : ℕ) (cmd : Command)
    → AllSound procs
    → AllSound (set procs i (deliver (entry procs i) cmd).1)
deliver-AllSound procs i cmd h j =
    entry-IsSound procs j i (deliver (entry procs i) cmd).1
      (deliver-IsSound (entry procs i) cmd (h i)) (h j)
