-- ===== src/Table/Delivery.antt =====
-- What a delivery to a process changes in it, and what any number of deliveries change.
use os_ii.Prelude.{
  ℕ, ◌≡◌, refl, ◌⊎◌, inl, inr, arith, List, [], ◌∷◌, ◌++◌, set, get_or-set_ne, get_or-set_self,
  get_or-set_past, length, ltb, Bool-cases, ltb→lt, ltb→le, ap, sym, ◌∙◌, ◌==◌, ==→eq, ==→ne,
  if◌then◌else◌,
}
use mathlib.Core.List.{append-nil, append_assoc}
use os_ii.Status.{is_ok}
use os_ii.Command.{Command}
use os_ii.Mailbox.{Mailbox, push_raw}
use os_ii.Mailbox.Invariant.{IsValid, contents, push_raw-IsValid, window-set}
use os_ii.Process.{Process, ready, waiting, zero_process}
use os_ii.Table.{Table, entry, is_waiting→eq, push_proc, deliver}

-- `q` is `p` after some deliveries.
pub data Delivered (p : Process) : Process → Type 0 where
  here : Delivered p p
  more : {q : Process} (cmd : Command) → Delivered p q → Delivered p (deliver q cmd).1

-- `q` has the program, counter, registers, heap, error, flags and clock of `p`, and its state
-- unless it has been woken.
pub record Untouched (p q : Process) : Type 0 where
  pub pid : q.pid ≡ p.pid
  pub program : q.program ≡ p.program
  pub pc : q.pc ≡ p.pc
  pub regs : q.regs ≡ p.regs
  pub is_halted : q.is_halted ≡ p.is_halted
  pub last_error : q.last_error ≡ p.last_error
  pub heap : q.heap ≡ p.heap
  pub sleep_until_ms : q.sleep_until_ms ≡ p.sleep_until_ms
  pub reductions : q.reductions ≡ p.reductions
  pub state : (q.state ≡ p.state) ⊎ ((p.state ≡ waiting) × (q.state ≡ ready))

deliver-Untouched : (p q : Process) (cmd : Command) → Untouched p q → Untouched p (deliver q cmd).1
unfolding deliver push_proc
deliver-Untouched p q cmd u = ground (arith, is_waiting→eq q.state)

pub Delivered-Untouched : {p q : Process} → Delivered p q → Untouched p q
Delivered-Untouched here = record {
  pid = refl;
  program = refl;
  pc = refl;
  regs = refl;
  is_halted = refl;
  last_error = refl;
  heap = refl;
  sleep_until_ms = refl;
  reductions = refl;
  state = inl refl;
}
Delivered-Untouched {p} (more {q} cmd d) = deliver-Untouched p q cmd (Delivered-Untouched d)

-- What a push puts behind the commands that are held: the command where it is accepted.
abbrev accepted : Mailbox → Command → List Command
accepted mb cmd = if is_ok (push_raw mb cmd).0 then cmd ∷ [] else []

contents-push_raw :
    (mb : Mailbox) (cmd : Command)
    → IsValid mb
    → contents (push_raw mb cmd).1 ≡ contents mb ++ accepted mb cmd
unfolding push_raw
contents-push_raw mb cmd v =
    ground (arith, append-nil (contents mb), window-set mb.items cmd mb.count mb.head mb.tail)

mailbox-deliver :
    (q : Process) (cmd : Command) → (deliver q cmd).1.mailbox ≡ (push_raw q.mailbox cmd).1
unfolding deliver push_proc
mailbox-deliver q cmd = ground arith

-- Deliveries keep a mailbox valid and put commands behind those that it holds.
pub record Grown (a b : Mailbox) : Type 0 where
  pub valid : IsValid b
  pub commands : List Command
  pub grown : contents b ≡ contents a ++ commands

pub Delivered-Grown :
    {p q : Process} → IsValid p.mailbox → Delivered p q → Grown p.mailbox q.mailbox
Delivered-Grown {p} v here = record {
  valid = v;
  commands = [];
  grown = sym (append-nil (contents p.mailbox));
}
Delivered-Grown {p} v (more {q} cmd d) =
    let g = Delivered-Grown v d in
    rw (mailbox-deliver q cmd) (record {
      valid = push_raw-IsValid q.mailbox cmd g.valid;
      commands = g.commands ++ accepted q.mailbox cmd;
      grown =
          contents-push_raw q.mailbox cmd g.valid
          ∙ ap (λ xs. xs ++ accepted q.mailbox cmd) g.grown
          ∙ append_assoc (contents p.mailbox) g.commands (accepted q.mailbox cmd);
    })

-- One delivery in a table is a delivery to the entry that is written, and none to the others.
pub Delivered-set :
    (procs : Table) (i j : ℕ) (cmd : Command) {p : Process}
    → Delivered p (entry procs j)
    → Delivered p (entry (set procs i (deliver (entry procs i) cmd).1) j)
Delivered-set procs i j cmd {p} d = elim (Bool-cases (i == j)) [
  | inl same ↦ elim (Bool-cases (ltb i (length procs))) [
    | inl inside ↦
        let here : i ≡ j = ==→eq i j same in
        rw
          (
            ← here,
            get_or-set_self procs i (deliver (entry procs i) cmd).1 zero_process
                (ltb→lt i _ inside),
          )
          (more cmd (rw here d))
    | inr outside ↦
        let here : i ≡ j = ==→eq i j same in
        rw
          (
            ← here,
            get_or-set_past procs i (deliver (entry procs i) cmd).1 zero_process
                (ltb→le i _ outside),
          )
          (rw here d)
  ]
  | inr other ↦
      rw (get_or-set_ne procs i j (deliver (entry procs i) cmd).1 zero_process (==→ne i j other)) d
]
