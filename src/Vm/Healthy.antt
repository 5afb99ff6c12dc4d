-- ===== src/Vm/Healthy.antt =====
-- Processes of src/mb_vm.c (erts/example/mini_beam_esp32) with a well-formed heap, and what keeps them
-- so: the collection, and the allocation of a cell.
pub mod Cons
mod Tests
use os_ii.Prelude.{
  ℕ, zero, suc, ◌+◌, ◌<◌, ◌≡◌, refl, sym, ◌∙◌, ap, arith, ltb, ltb→lt, lt→ltb, ◌&&◌, Bool, true,
  false, not, ◌==◌, if◌then◌else◌, Bool-cases, inl, inr, List, [], ◌∷◌, ◌++◌, length, get_elem?,
  get_or, get_elem?-eq-get_or, set, length-set, Option, none, some, All,
}
use mathlib.Core.Path.{subst}
use os_ii.Status.{Status, bad_reg, heap_oom}
use os_ii.Run.{Run, in_range}
use os_ii.Run
use os_ii.Term.{Term}
use os_ii.Process.{Process, reg_count}
use os_ii.Heap.{Heap, cons}
use os_ii.Heap.Gc.{gc}
use os_ii.Heap.Objects.{Kind, cell, Sound, empty, WellFormed, at}
use os_ii.Heap.Build.{Built, Sound-append, cons-WellFormed}
use os_ii.Heap.Collect.Result.{Collected, gc_lem}
use os_ii.Heap.Collect.Observe.{AllSeen}
use os_ii.Machine.{
  Machine, Flow, next, stop, Cmd, and_then, ◌>>=◌, get_proc, put_proc, lift, set_error, fail,
  fetch_u8, or_eof, need_u8, valid_reg, valid_regs, check_regs, reg, set_reg,
}
use os_ii.Vm.Data.{collect, try_cons, op_cons}

-- The heap is well formed, and the registers hold terms of it.
pub record HoldsSound (ks : List Kind) (p : Process) : Type 0 where
  pub heap : WellFormed p.heap ks
  pub sound : All (Sound ks) p.regs
  pub size : length p.regs ≡ reg_count

abbrev pub Healthy : Process → Type 0
Healthy p = (ks : List Kind) × HoldsSound ks p

-- The same with a term of the heap.
abbrev pub HealthyWith : Term → Process → Type 0
HealthyWith t p = (ks : List Kind) × HoldsSound ks p × Sound ks t

All-Sound-append :
    (ks ls : List Kind) (ts : List Term) → All (Sound ks) ts → All (Sound (ks ++ ls)) ts
All-Sound-append ks ls [] h = tt
All-Sound-append ks ls (t ∷ ts) h = (Sound-append ks ls t h.0, All-Sound-append ks ls ts h.1)

pub All-set :
    (P : Term → Type 0) (ts : List Term) (i : ℕ) (t : Term) → All P ts → P t → All P (set ts i t)
All-set P [] i t h p = tt
All-set P (u ∷ us) zero t h p = (p, h.1)
All-set P (u ∷ us) (suc i) t h p = (h.0, All-set P us i t h.1 p)

pub All-get : (P : Term → Type 0) (ts : List Term) (i : ℕ) → All P ts → i < length ts → P (at ts i)
All-get P [] i h lt = absurd (omega arith)
All-get P (t ∷ ts) zero h lt = h.0
All-get P (t ∷ ts) (suc i) h lt = All-get P ts i h.1 (omega arith)

length-AllSeen : (ws ws' ts ts' : List Term) → AllSeen ws ws' ts ts' → length ts' ≡ length ts
length-AllSeen ws ws' [] [] h = refl
length-AllSeen ws ws' (t ∷ ts) (t' ∷ ts') h = ap suc (length-AllSeen ws ws' ts ts' h.1)
length-AllSeen ws ws' [] (t' ∷ ts') h = absurd h
length-AllSeen ws ws' (t ∷ ts) [] h = absurd h

abbrev pub Fine : {A : Type 0} → A → Process → Type 0
Fine _ p = Healthy p

module _ {W : Type 0} where
  -- The command goes on with `P`, or returns with a healthy process. It does not fault.
  abbrev pub Ensures : {A : Type 0} → (A → Process → Type 0) → Flow W A → Type 0
  Ensures P (next a m) = P a m.proc
  Ensures P (stop rc m) = Healthy m.proc
  Ensures P Flow.fault = ⊥
  Ensures P Flow.out_of_fuel = ⊥

  pub bind :
      {A B : Type 0} (P : A → Process → Type 0) (Q : B → Process → Type 0) (f : Flow W A)
      (k : A → Cmd W B)
      → Ensures P f
      → ((a : A) (m : Machine W) → P a m.proc → Ensures Q (k a m))
      → Ensures Q (and_then f k)
  bind P Q (next a m) k h g = g a m h
  bind P Q (stop rc m) k h g = h
  bind P Q Flow.fault k h g = absurd h
  bind P Q Flow.out_of_fuel k h g = absurd h

  pub fail-Fine :
      {A : Type 0} (P : A → Process → Type 0) (rc : Status) (m : Machine W)
      → Healthy m.proc
      → Ensures P (fail rc m)
  unfolding fail set_error get_proc put_proc ◌>>=◌
  fail-Fine P rc m (ks, h) = (ks, record { heap = h.heap; sound = h.sound; size = h.size })

  pub need_u8-Fine : (m : Machine W) → Healthy m.proc → Ensures Fine (need_u8 m)
  unfolding need_u8 fetch_u8 get_proc put_proc or_eof ◌>>=◌ fail set_error
  need_u8-Fine m (ks, h) = byte (get_elem? m.proc.program m.proc.pc)
    where
      byte :
          (o : Option ℕ)
          → Ensures Fine (
              (let (b, p') = elim o as (λ _. Option ℕ × Process) [
                | none ↦ (none, m.proc)
                | some b ↦ (some b, record (m.proc) { pc = m.proc.pc + 1 })
              ] in
                  put_proc p' >>= λ _. or_eof b)
                m)
      byte none = (ks, record { heap = h.heap; sound = h.sound; size = h.size })
      byte (some b) = (ks, record { heap = h.heap; sound = h.sound; size = h.size })

  pub collect-Fine : (m : Machine W) → Healthy m.proc → Ensures Fine (collect m)
  unfolding collect get_proc put_proc ◌>>=◌
  collect-Fine m (ks, h) =
      let c = gc_lem m.proc.heap ks m.proc.regs h.heap h.sound in
      rw (c.returns) (
        c.layout,
        record { heap = c.valid; sound = c.sound; size = length-AllSeen _ _ _ _ c.alike ∙ h.size },
      )

  pub read_reg :
      (r : ℕ) (m : Machine W) → r < length m.proc.regs → reg r m ≡ next (at m.proc.regs r) m
  unfolding reg get_proc ◌>>=◌
  read_reg r m lt = rw (get_elem?-eq-get_or m.proc.regs r 0 lt) refl

  pub set_reg-Fine :
      (r : ℕ) (t : Term) (m : Machine W)
      → r < reg_count
      → HealthyWith t m.proc
      → Ensures Fine (set_reg r t m)
  unfolding set_reg get_proc put_proc ◌>>=◌
  set_reg-Fine r t m lt (ks, h, s) =
      let inside : r < length m.proc.regs = omega (arith, h.size) in
      rw (lt→ltb r (length m.proc.regs) inside) (
        ks,
        record {
          heap = h.heap;
          sound = All-set (Sound ks) m.proc.regs r t h.sound s;
          size = length-set m.proc.regs r t ∙ h.size;
        },
      )

  -- The allocation, whether there is room or not.
  built :
      (ks : List Kind) (m : Machine W)
      → HoldsSound ks m.proc
      → (r : Run (Term × Heap)) → Built m.proc.heap ks cell r
      → Ensures HealthyWith
          ((lift r >>= λ (t, heap). put_proc (record (m.proc) { heap = heap }) >>= λ _. next t) m)
  unfolding put_proc ◌>>=◌
  built ks m h r (inl (full, e)) =
      rw e (ks, record { heap = h.heap; sound = h.sound; size = h.size }, empty refl)
  built ks m h r (inr (t, heap, e, wf, s)) = rw e (
    ks ++ cell ∷ [],
    record {
      heap = wf;
      sound = All-Sound-append ks (cell ∷ []) m.proc.regs h.sound;
      size = h.size;
    },
    s,
  )

  pub try_cons-HealthyWith :
      (r_head r_tail : ℕ) (m : Machine W)
      → r_head < reg_count
      → r_tail < reg_count
      → Healthy m.proc
      → Ensures HealthyWith (try_cons r_head r_tail m)
  unfolding try_cons get_proc ◌>>=◌
  try_cons-HealthyWith r_head r_tail m lt lt' (ks, h) =
      let in_head : r_head < length m.proc.regs = omega (arith, h.size) in
      let in_tail : r_tail < length m.proc.regs = omega (arith, h.size) in
      let head = at m.proc.regs r_head in
      let tail = at m.proc.regs r_tail in
      rw (read_reg r_head m in_head) (
        rw (read_reg r_tail m in_tail) (
          built ks m h (cons m.proc.heap head tail) (
            cons-WellFormed m.proc.heap ks head tail h.heap
              (All-get (Sound ks) m.proc.regs r_head h.sound in_head)
              (All-get (Sound ks) m.proc.regs r_tail h.sound in_tail))))
