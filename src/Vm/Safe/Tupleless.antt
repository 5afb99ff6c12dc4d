-- ===== src/Vm/Safe/Tupleless.antt =====
-- Processes of src/mb_vm.c (erts/example/mini_beam_esp32) with a well-formed heap, a valid mailbox and a
-- program in which no byte is the opcode of `MAKE_TUPLE`, which keeps terms from before a collection.
use os_ii.Prelude.{
  zero, suc, get_elem?, get_or, set, length-set, Bool, true, not, ◌&&◌, ◌==◌, ==→ne, Bool-cases,
  inl, inr, arith, ℕ, ◌<◌, ◌≡◌, ◌≢◌, ap, ◌∙◌, List, [], ◌∷◌, length, All,
}
use os_ii.Term.{Term}
use os_ii.Process.{Process, reg_count}
use os_ii.Opcode
use os_ii.Term.{is_immediate}
use os_ii.Heap.Objects.{Kind, Sound, plain}
use os_ii.Vm.Healthy.{HoldsSound, All-set, All-get}
use os_ii.Mailbox.{Mailbox}
use os_ii.Mailbox.Invariant.{IsValid}
use os_ii.Vm.Safe.{Fetched, Laws, MailLaws}
use os_ii.Vm.Healthy.{Healthy}

-- No byte of the program is the opcode of `MAKE_TUPLE`.
abbrev pub NoTuples : List ℕ → Type 0
NoTuples = All (λ b. b ≢ Opcode.make_tuple)

abbrev pub tupleless : List ℕ → Bool
tupleless [] = true
tupleless (b ∷ bs) = not (b == Opcode.make_tuple) && tupleless bs

pub tupleless-NoTuples : (bs : List ℕ) → tupleless bs ≡ true → NoTuples bs
tupleless-NoTuples [] e = tt
tupleless-NoTuples (b ∷ bs) e = elim (Bool-cases (b == Opcode.make_tuple)) [
  | inl same ↦ absurd (ground arith)
  | inr other ↦ (==→ne b Opcode.make_tuple other, tupleless-NoTuples bs (ground arith))
]

pub record IsSafe (p : Process) : Type 0 where
  pub healthy : Healthy p
  pub program : NoTuples p.program
  pub mail : IsValid p.mailbox

-- The same registers, heap, program and mailbox are as safe.
pub IsSafe-same :
    (p q : Process)
    → q.regs ≡ p.regs
    → q.heap ≡ p.heap
    → q.program ≡ p.program
    → q.mailbox ≡ p.mailbox
    → IsSafe p
    → IsSafe q
IsSafe-same p q regs heap program mailbox s =
    let (ks, h) = s.healthy in
    record {
      healthy = (
        ks,
        record {
          heap = rw heap (h.heap);
          sound = rw regs (h.sound);
          size = ap (λ (l : List Term). length l) regs ∙ h.size;
        },
      );
      program = rw program (s.program);
      mail = rw mailbox (s.mail);
    }

pub All-Fetched :
    (bs : List ℕ) (i : ℕ) → NoTuples bs → Fetched (λ b. b ≢ Opcode.make_tuple) (get_elem? bs i)
All-Fetched [] i h = tt
All-Fetched (b ∷ bs) zero h = h.0
All-Fetched (b ∷ bs) (suc i) h = All-Fetched bs i h.1

-- A write of a term of the heap.
pub IsSafe-set :
    (p : Process) (r : ℕ) (t : Term) (ks : List Kind)
    → HoldsSound ks p
    → Sound ks t
    → NoTuples p.program
    → IsValid p.mailbox
    → IsSafe (record p { regs = set p.regs r t })
IsSafe-set p r t ks s sound program mail = record {
  healthy = (
    ks,
    record {
      heap = s.heap;
      sound = All-set (Sound ks) p.regs r t s.sound sound;
      size = length-set p.regs r t ∙ s.size;
    },
  );
  program = program;
  mail = mail;
}

pub IsSafe-immediate :
    (p : Process) (r : ℕ) (t : Term)
    → IsSafe p
    → is_immediate t ≡ true
    → IsSafe (record p { regs = set p.regs r t })
IsSafe-immediate p r t h e =
    let (ks, s) = h.healthy in IsSafe-set p r t ks s (plain e) h.program h.mail

pub IsSafe-copied :
    (p : Process) (r a : ℕ)
    → IsSafe p
    → a < reg_count
    → IsSafe (record p { regs = set p.regs r (get_or p.regs a 0) })
IsSafe-copied p r a h lt =
    let (ks, s) = h.healthy in
    IsSafe-set p r _ ks s (All-get (Sound ks) p.regs a s.sound (omega (arith, s.size))) h.program
      h.mail

instance abbrev pub safe_laws : Laws IsSafe
safe_laws = record {
  Op = λ b. b ≢ Opcode.make_tuple;
  same = IsSafe-same;
  size = λ p h. h.healthy.1.size;
  bytes = λ p i h. All-Fetched p.program i h.program;
  immediate = IsSafe-immediate;
  copied = IsSafe-copied;
}

pub IsSafe-mail :
    (p : Process) (mb : Mailbox) → IsSafe p → IsValid mb → IsSafe (record p { mailbox = mb })
IsSafe-mail p mb h valid =
    let (ks, s) = h.healthy in
    record {
      healthy = (ks, record { heap = s.heap; sound = s.sound; size = s.size });
      program = h.program;
      mail = valid;
    }

instance abbrev pub safe_mails : MailLaws IsSafe
safe_mails = record { valid = λ p h. h.mail; mail = IsSafe-mail }
