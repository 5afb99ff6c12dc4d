-- ===== src/Vm/Safe/Messages.antt =====
-- `RECV_CMD` and `SEND` of src/mb_vm.c (erts/example/mini_beam_esp32) on processes with a property that
-- obeys the laws.
use os_ii.Prelude.{
  ℕ, ◌<◌, ◌≡◌, refl, sym, false, inl, inr, [], ◌∷◌, length, set, length-set, get_or-set_self,
  Option, none, some, to_u8,
}
use mathlib.Core.Path.{subst}
use os_ii.Status.{ok, mailbox_empty, is_ok}
use os_ii.Command.{Command, validate_command}
use os_ii.Mailbox.{pop_raw}
use os_ii.Process.{Process, zero_process}
use os_ii.Table.{Table, entry, entry-set, is_free, sched_proc, deliver}
use os_ii.Table.Delivery.{
  Delivered, here, more, Delivered-Untouched, Delivered-Grown, Delivered-set,
}
use os_ii.Machine.{Caller, alone, in_table}
use os_ii.Vm.Ops.{
  live, no_command, set_five, recv_empty, recv_some, recv_got, recv_with, op_recv_cmd, send_to,
  send_found, send_by, send_with, op_send,
}
use os_ii.Mailbox.Invariant.{pop_raw-IsValid, IsValid-pop_in_range, IsValid-push_in_range}
use os_ii.Vm.Safe.{Laws, MailLaws, SafeEntry, SafeTable, SafeCaller, Safely, Any}
use os_ii.Vm.Safe.Rules.{
  Regs, Safely-bind, Safely-if, Safely-get_proc, Safely-put_proc, Safely-get_caller,
  Safely-set_error, Safely-need_u8, Safely-check_regs, Safely-reg_int, Safely-set_int,
}

module _ (G : Process → Type 0) ⦃laws : Laws G⦄ ⦃mails : MailLaws G⦄ where
  -- A delivery leaves registers, heap and program alone, the mailbox valid, and a free entry free.
  Delivered-Safe : {p q : Process} → Delivered p q → G p → G q
  Delivered-Safe {p} {q} d s =
      let u = Delivered-Untouched d in
      let valid = (Delivered-Grown (mails.valid p s) d).valid in
      laws.same (record p { mailbox = q.mailbox }) q u.regs u.heap u.program refl
        (mails.mail p q.mailbox s valid)

  Delivered-SafeEntry : {p q : Process} → Delivered p q → SafeEntry G p → SafeEntry G q
  Delivered-SafeEntry {p} {q} d s = (
    (Delivered-Grown s.0 d).valid,
    λ taken. elim (Delivered-Untouched d).state [
      | inl same ↦ Delivered-Safe d (s.1 (subst (λ st. is_free st ≡ false) same taken))
      | inr (was, is) ↦ Delivered-Safe d (s.1 (subst (λ st. is_free st ≡ false) (sym was) refl))
    ],
  )

  pub deliver-SafeTable :
      (procs : Table) (i : ℕ) (cmd : Command)
      → SafeTable G procs
      → SafeTable G (set procs i (deliver (entry procs i) cmd).1)
  deliver-SafeTable procs i cmd h j =
      entry-set (SafeEntry G) procs j i _
        (Delivered-SafeEntry {p = entry procs i} (more cmd here) (h i)) (h j)

module _ {G : Process → Type 0} ⦃laws : Laws G⦄ ⦃mails : MailLaws G⦄ {W : Type 0} where
  Safely-set_five :
      (r_type r_a r_b r_c r_d : ℕ) (cmd : Command)
      → Regs (r_type ∷ r_a ∷ r_b ∷ r_c ∷ r_d ∷ [])
      → Safely {W = W} G Any (set_five r_type r_a r_b r_c r_d cmd)
  unfolding set_five
  Safely-set_five r_type r_a r_b r_c r_d cmd (in_type, (in_a, (in_b, (in_c, (in_d, _))))) =
      Safely-bind (Safely-set_int r_type cmd.type in_type) λ _ _.
        Safely-bind (Safely-set_int r_a cmd.a in_a) λ _ _.
          Safely-bind (Safely-set_int r_b cmd.b in_b)
            λ _ _. Safely-bind (Safely-set_int r_c cmd.c in_c) λ _ _. Safely-set_int r_d cmd.d in_d

  module _ (pc r_type r_a r_b r_c r_d : ℕ) (rs : Regs (r_type ∷ r_a ∷ r_b ∷ r_c ∷ r_d ∷ [])) where
    Safely-recv_empty : (c : Caller) → Safely {W = W} G Any (recv_empty c pc r_type r_a r_b r_c r_d)
    unfolding recv_empty
    Safely-recv_empty alone =
        Safely-bind (Safely-set_five r_type r_a r_b r_c r_d (no_command mailbox_empty) rs)
          λ _ _. Safely-set_error mailbox_empty
    Safely-recv_empty (in_table slot procs) =
        Safely-bind Safely-get_proc λ p s. Safely-put_proc _ (laws.same p _ refl refl refl refl s)

    Safely-recv_some : (cmd : Command) → Safely {W = W} G Any (recv_some cmd r_type r_a r_b r_c r_d)
    unfolding recv_some
    Safely-recv_some cmd =
        Safely-if (is_ok (validate_command cmd))
          (λ _.
            Safely-bind (Safely-set_five r_type r_a r_b r_c r_d cmd rs) λ _ _. Safely-set_error ok)
          (λ _.
            Safely-bind
              (Safely-set_five r_type r_a r_b r_c r_d (no_command (validate_command cmd)) rs)
              λ _ _. Safely-set_error _)

    Safely-recv_got :
        (got : Option Command) → Safely {W = W} G Any (recv_got got pc r_type r_a r_b r_c r_d)
    unfolding recv_got
    Safely-recv_got none = Safely-bind Safely-get_caller λ c _. Safely-recv_empty c
    Safely-recv_got (some cmd) = Safely-recv_some cmd

    Safely-recv_with : Safely {W = W} G Any (recv_with pc r_type r_a r_b r_c r_d)
    unfolding recv_with
    Safely-recv_with = Safely-bind Safely-get_proc λ p s.
        rw (IsValid-pop_in_range p.mailbox (mails.valid p s)) (
          Safely-bind
            (Safely-put_proc _
              (mails.mail p (pop_raw p.mailbox).1 s (pop_raw-IsValid p.mailbox (mails.valid p s))))
            λ _ _. Safely-recv_got (pop_raw p.mailbox).0)

  pub Safely-op_recv_cmd : (pc : ℕ) → Safely {W = W} G Any (op_recv_cmd pc)
  unfolding op_recv_cmd
  Safely-op_recv_cmd pc = Safely-bind Safely-need_u8 λ r_type _. Safely-bind Safely-need_u8 λ r_a _.
      Safely-bind Safely-need_u8 λ r_b _. Safely-bind Safely-need_u8 λ r_c _.
        Safely-bind Safely-need_u8 λ r_d _.
          Safely-bind (Safely-check_regs (r_type ∷ r_a ∷ r_b ∷ r_c ∷ r_d ∷ []))
            λ _ rs. Safely-recv_with pc r_type r_a r_b r_c r_d rs

  -- The push may be into the running process itself.
  Safely-send_to :
      (slot : ℕ) (live : Table) (i : ℕ) (cmd : Command)
      → slot < length live
      → G (entry live slot)
      → SafeTable G live
      → Safely {W = W} G Any (send_to slot live i cmd)
  unfolding send_to
  Safely-send_to slot live i cmd lt s h = record {
    at = λ m _. rw (IsValid-push_in_range (entry live i).mailbox cmd (h i).0) (
      tt,
      (
        Delivered-Safe G {p = entry live slot} (Delivered-set live i slot cmd here) s,
        (
          subst (λ n. slot < n) (sym (length-set live i (deliver (entry live i) cmd).1)) lt,
          deliver-SafeTable G live i cmd h,
        ),
      ),
    );
  }

  module _ (slot : ℕ) (procs : Table) (r_pid r_type r_a r_b r_c r_d : ℕ)
      (rs : Regs (r_pid ∷ r_type ∷ r_a ∷ r_b ∷ r_c ∷ r_d ∷ [])) where
    Safely-send_found :
        (found : Option ℕ)
        → slot < length procs
        → G (entry procs slot)
        → SafeTable G procs
        → Safely {W = W} G Any (send_found found slot procs r_pid r_type r_a r_b r_c r_d)
    unfolding send_found
    Safely-send_found none lt s h = Safely-set_int r_pid _ rs.0
    Safely-send_found (some i) lt s h =
        let (in_pid, (in_type, (in_a, (in_b, (in_c, (in_d, _)))))) = rs in
        Safely-bind (Safely-reg_int r_type in_type) λ type _.
          Safely-bind (Safely-reg_int r_a in_a) λ a _. Safely-bind (Safely-reg_int r_b in_b) λ b _.
            Safely-bind (Safely-reg_int r_c in_c) λ c _.
              Safely-bind (Safely-reg_int r_d in_d) λ d _.
                Safely-bind (Safely-send_to slot procs i _ lt s h)
                  λ rc _. Safely-set_int r_pid _ in_pid

  Safely-send_by :
      (c : Caller) (r_pid r_type r_a r_b r_c r_d : ℕ)
      → Regs (r_pid ∷ r_type ∷ r_a ∷ r_b ∷ r_c ∷ r_d ∷ [])
      → SafeCaller G c
      → Safely {W = W} G Any (send_by c r_pid r_type r_a r_b r_c r_d)
  unfolding send_by
  Safely-send_by alone r_pid r_type r_a r_b r_c r_d rs h = Safely-set_int r_pid _ rs.0
  Safely-send_by (in_table slot procs) r_pid r_type r_a r_b r_c r_d rs (lt, h) =
      Safely-bind (Safely-reg_int r_pid rs.0) λ pid _. Safely-bind Safely-get_proc λ p s.
        Safely-send_found slot (live slot procs p) r_pid r_type r_a r_b r_c r_d rs
          (sched_proc (live slot procs p) (to_u8 pid))
          (subst (λ n. slot < n) (sym (length-set procs slot p)) lt)
          (subst G (sym (get_or-set_self procs slot p zero_process lt)) s)
          (λ j. entry-set (SafeEntry G) procs j slot p (mails.valid p s, λ _. s) (h j))

  pub Safely-op_send : Safely {W = W} G Any op_send
  unfolding op_send send_with
  Safely-op_send = Safely-bind Safely-need_u8 λ r_pid _. Safely-bind Safely-need_u8 λ r_type _.
      Safely-bind Safely-need_u8 λ r_a _. Safely-bind Safely-need_u8 λ r_b _.
        Safely-bind Safely-need_u8 λ r_c _. Safely-bind Safely-need_u8 λ r_d _.
          Safely-bind (Safely-check_regs (r_pid ∷ r_type ∷ r_a ∷ r_b ∷ r_c ∷ r_d ∷ [])) λ _ rs.
            Safely-bind Safely-get_caller λ c h. Safely-send_by c r_pid r_type r_a r_b r_c r_d rs h
