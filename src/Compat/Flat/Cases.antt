-- ===== src/Compat/Flat/Cases.antt =====
-- The cases on tuples and cells of `mb_proc_step` of src/mb_vm.c (erts/example/mini_beam_esp32), where the
-- heap is not initialised.
use os_ii.Prelude.{
  ℕ, zero, suc, ◌<◌, ◌≡◌, refl, arith, ltb, ◌==◌, ◌||◌, Bool, false, not, if◌then◌else◌, List, [],
  ◌∷◌, length,
}
use os_ii.Status.{Status, bad_term, heap_oom}
use os_ii.Term.{Term, is_boxed, is_cons, max_tuple_arity}
use os_ii.Heap.{cons}
use os_ii.Heap.Objects.{Sound}
use os_ii.Mailbox.{Mailbox}
use os_ii.Process.{reg_count}
use os_ii.Machine.{
  Machine, Flow, next, stop, Cmd, pure, lift, ◌>>=◌, ◌>>◌, get_proc, put_proc, fail, reg, set_reg,
  valid_reg,
}
use os_ii.Vm.Data.{
  fetch_elems, collect, try_tuple, op_make_tuple, op_tuple_elem, try_cons, op_cons, op_cell_word,
}
use os_ii.Vm.Healthy.{read_reg, All-get}
use os_ii.Vm.Safe.{SafeMachine, Post, Safely, Any}
use os_ii.Vm.Safe.Rules.{
  Safely-bind, Safely-pure, Safely-if, Safely-fail, Safely-need_u8, Safely-check_regs, Safely-reg,
}
use os_ii.Vm.Safe.Runs.{Cases}
use os_ii.Compat.Flat.{IsFlat, flat_laws, flat-Other, gc-flat, make_tuple-flat, cons-flat}

-- The command does not go on.
abbrev Never : Unit {0} → Type 0
Never _ = ⊥

abbrev pub Stops : {W : Type 0} → Flow W (Unit {0}) → Type 0
Stops {W} fl = (rc : Status) × (m : Machine W) × (fl ≡ stop rc m)

module _ (M : Mailbox → Type 0) {W : Type 0} where
  ended : (fl : Flow W (Unit {0})) → Post (IsFlat M) Never fl → Post (IsFlat M) Any fl
  ended (next u m) h = absurd h.0
  ended (stop rc m) h = h
  ended Flow.fault h = h
  ended Flow.out_of_fuel h = h

  stopped : (fl : Flow W (Unit {0})) → Post (IsFlat M) Never fl → Stops fl
  stopped (next u m) h = absurd h.0
  stopped (stop rc m) h = (rc, m, refl)
  stopped Flow.fault h = absurd h
  stopped Flow.out_of_fuel h = absurd h

  flat-reg : (r : ℕ) → r < reg_count → Safely {W = W} (IsFlat M) (Sound []) (reg r)
  flat-reg r lt = record {
    at = λ m h.
        let within : r < length m.proc.regs = omega (arith, h.0.size) in
        rw (read_reg r m within) (All-get (Sound []) m.proc.regs r h.0.flat within, h);
  }

  -- No term has the tag that the case asks for.
  refused :
      (b : Bool) (c : Cmd W (Unit {0}))
      → b ≡ false
      → Safely (IsFlat M) Never (if not b then fail bad_term else c)
  refused b c e = rw e (Safely-fail bad_term)

  flat-op_tuple_elem : Safely {W = W} (IsFlat M) Never op_tuple_elem
  unfolding op_tuple_elem
  flat-op_tuple_elem = Safely-bind Safely-need_u8 λ r_dst _. Safely-bind Safely-need_u8 λ r_tuple _.
      Safely-bind Safely-need_u8 λ index _.
        Safely-bind (Safely-check_regs (r_dst ∷ r_tuple ∷ [])) λ _ rs.
          Safely-bind (flat-reg r_tuple rs.1.0) λ t s. refused (is_boxed t) _ (flat-Other t s).0

  flat-op_cell_word : (n : ℕ) → n < 2 → Safely {W = W} (IsFlat M) Never (op_cell_word n)
  unfolding op_cell_word
  flat-op_cell_word n lt = Safely-bind Safely-need_u8 λ r_dst _.
      Safely-bind Safely-need_u8 λ r_cons _.
        Safely-bind (Safely-check_regs (r_dst ∷ r_cons ∷ [])) λ _ rs.
          Safely-bind (flat-reg r_cons rs.1.0) λ t s. refused (is_cons t) _ (flat-Other t s).1

  flat-collect : Safely {W = W} (IsFlat M) Any collect
  unfolding collect get_proc put_proc ◌>>=◌
  flat-collect = record {
    at = λ m h.
        let (heap, e, s) = gc-flat m.proc.heap m.proc.regs h.0.heap h.0.flat in
        rw e (tt, (record { heap = s; flat = h.0.flat; size = h.0.size; mail = h.0.mail }, h.1));
  }

  flat-try_tuple : (elems : List Term) → Safely {W = W} (IsFlat M) (λ t. t ≡ 0) (try_tuple elems)
  unfolding try_tuple get_proc put_proc ◌>>=◌
  flat-try_tuple elems = record {
    at = λ m h. rw (make_tuple-flat m.proc.heap elems h.0.heap) (
      refl,
      (record { heap = h.0.heap; flat = h.0.flat; size = h.0.size; mail = h.0.mail }, h.1),
    );
  }

  flat-build :
      (head tail : Term)
      → Safely {W = W}
          (IsFlat M)
          (λ t. t ≡ 0)
          (do
            p ← get_proc
            (t, heap) ← lift (cons p.heap head tail)
            put_proc (record p { heap = heap })
            pure t)
  unfolding get_proc put_proc ◌>>=◌
  flat-build head tail = record {
    at = λ m h. rw (cons-flat m.proc.heap head tail h.0.heap) (
      refl,
      (record { heap = h.0.heap; flat = h.0.flat; size = h.0.size; mail = h.0.mail }, h.1),
    );
  }

  flat-try_cons :
      (r_head r_tail : ℕ)
      → r_head < reg_count
      → r_tail < reg_count
      → Safely {W = W} (IsFlat M) (λ t. t ≡ 0) (try_cons r_head r_tail)
  unfolding try_cons
  flat-try_cons r_head r_tail lt lt' =
      Safely-bind (Safely-reg r_head lt)
        λ head _. Safely-bind (Safely-reg r_tail lt') λ tail _. flat-build head tail

  -- The first attempt fails, and the second one after the collection.
  out_of_memory :
      (t : Term) (r_dst : ℕ) (again : Cmd W Term)
      → Safely (IsFlat M) (λ t'. t' ≡ 0) again
      → t ≡ 0
      → Safely (IsFlat M) Never (
          if not (t == 0)
          then set_reg r_dst t
          else do collect; t' ← again; if t' == 0 then fail heap_oom else set_reg r_dst t')
  out_of_memory t r_dst again k e =
      rw e (Safely-bind flat-collect λ _ _. Safely-bind k λ t' e'. rw e' (Safely-fail heap_oom))

  flat-op_cons : Safely {W = W} (IsFlat M) Never op_cons
  unfolding op_cons
  flat-op_cons = Safely-bind Safely-need_u8 λ r_dst _. Safely-bind Safely-need_u8 λ r_head _.
      Safely-bind Safely-need_u8 λ r_tail _.
        Safely-bind (Safely-check_regs (r_dst ∷ r_head ∷ r_tail ∷ [])) λ _ rs.
          let k = flat-try_cons r_head r_tail rs.1.0 rs.1.1.0 in
          Safely-bind k λ t e. out_of_memory t r_dst (try_cons r_head r_tail) k e

  flat-fetch_elems : (n : ℕ) → Safely {W = W} (IsFlat M) Any (fetch_elems n)
  unfolding fetch_elems
  flat-fetch_elems zero = Safely-pure tt
  flat-fetch_elems (suc n) = Safely-bind Safely-need_u8 λ r _.
      Safely-bind (Safely-check_regs (r ∷ [])) λ _ rs.
        Safely-bind (Safely-reg r rs.0)
          λ t _. Safely-bind (flat-fetch_elems n) λ ts _. Safely-pure tt

  flat-op_make_tuple : Safely {W = W} (IsFlat M) Never op_make_tuple
  unfolding op_make_tuple
  flat-op_make_tuple = Safely-bind Safely-need_u8 λ r_dst _. Safely-bind Safely-need_u8 λ arity _.
      Safely-if (not (valid_reg r_dst) || ltb max_tuple_arity arity) (λ _. Safely-fail _)
        λ _. Safely-bind (flat-fetch_elems arity) λ elems _.
          Safely-bind (flat-try_tuple elems)
            λ t e. out_of_memory t r_dst (try_tuple elems) (flat-try_tuple elems) e

  never_on :
      {c : Cmd W (Unit {0})} → Safely {W = W} (IsFlat M) Never c → Safely {W = W} (IsFlat M) Any c
  never_on k = record { at = λ m h. ended _ (k.at m h) }

  pub flat_cases : Cases (IsFlat M) W
  flat_cases = record {
    tuple = λ _. never_on flat-op_make_tuple;
    elem = never_on flat-op_tuple_elem;
    cons = never_on flat-op_cons;
    word = λ n lt. never_on (flat-op_cell_word n lt);
  }

  pub heap_cases-Stops :
      (m : Machine W)
      → SafeMachine (IsFlat M) m
      → Stops (op_make_tuple m)
        × Stops (op_tuple_elem m)
        × Stops (op_cons m)
        × Stops (op_cell_word 0 m)
        × Stops (op_cell_word 1 m)
  heap_cases-Stops m h = (
    stopped _ (flat-op_make_tuple.at m h),
    stopped _ (flat-op_tuple_elem.at m h),
    stopped _ (flat-op_cons.at m h),
    stopped _ ((flat-op_cell_word 0 (omega arith)).at m h),
    stopped _ ((flat-op_cell_word 1 (omega arith)).at m h),
  )
