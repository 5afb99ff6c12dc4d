-- ===== src/Compat/Flat.antt =====
-- Processes of src/mb_vm.c (erts/example/mini_beam_esp32) whose heap is not initialised, as the
-- single-process interface leaves it: there is no room for any object, and no register points at one.
pub mod Cases
pub mod Returns
use os_ii.Prelude.{
  ℕ, suc, ◌+◌, ◌%◌, ◌<◌, ◌≡◌, refl, sym, ◌∙◌, ap, arith, leb, ltb, ◌||◌, ◌==◌, Bool, true, false,
  List, [], ◌∷◌, length, get_elem?, get_or, set, length-set, Option, none, some, All, u32_mod,
}
use os_ii.Run.{Run, done, ◌>>=◌}
use os_ii.Term.{Term, is_immediate, is_boxed, is_cons}
use os_ii.Process.{Process, reg_count}
use os_ii.Heap.{Heap, Space, null, alloc, make_tuple, cons}
use os_ii.Heap.Gc.{gc, copy_term, copy_roots, scan_loop}
use os_ii.Heap.Objects.{Sound, plain, empty, boxed, pair}
use os_ii.Vm.Healthy.{All-set, All-get}
use mathlib.Core.Path.{subst}
use os_ii.Mailbox.{Mailbox}
use os_ii.Mailbox.Invariant.{IsValid}
use os_ii.Vm.Safe.{Fetched, Laws, MailLaws}
use os_ii.Vm.Safe.Data.{immediate-Other, zero-Other}

pub record NoSpace (h : Heap) : Type 0 where
  pub from_null : h.from ≡ null
  pub to_null : h.to ≡ null
  pub capacity_zero : h.capacity ≡ 0
  pub hp_zero : h.hp ≡ 0

-- The registers hold immediate terms, or the 0 of a register that was never written, and the mailbox is as
-- `M` says.
pub record IsFlat (M : Mailbox → Type 0) (p : Process) : Type 0 where
  pub heap : NoSpace p.heap
  pub flat : All (Sound []) p.regs
  pub size : length p.regs ≡ reg_count
  pub mail : M p.mailbox

pub IsFlat-same :
    {M : Mailbox → Type 0} (p q : Process)
    → q.regs ≡ p.regs
    → q.heap ≡ p.heap
    → q.program ≡ p.program
    → q.mailbox ≡ p.mailbox
    → IsFlat M p
    → IsFlat M q
IsFlat-same {M} p q regs heap program mailbox f = record {
  heap = rw heap (f.heap);
  flat = rw regs (f.flat);
  size = ap (λ (l : List Term). length l) regs ∙ f.size;
  mail = subst M (sym mailbox) f.mail;
}

pub IsFlat-set :
    {M : Mailbox → Type 0} (p : Process) (r : ℕ) (t : Term)
    → IsFlat M p
    → Sound [] t
    → IsFlat M (record p { regs = set p.regs r t })
IsFlat-set p r t f s = record {
  heap = f.heap;
  flat = All-set (Sound []) p.regs r t f.flat s;
  size = length-set p.regs r t ∙ f.size;
  mail = f.mail;
}

pub IsFlat-copied :
    {M : Mailbox → Type 0} (p : Process) (r a : ℕ)
    → IsFlat M p
    → a < reg_count
    → IsFlat M (record p { regs = set p.regs r (get_or p.regs a 0) })
IsFlat-copied p r a f lt =
    IsFlat-set p r _ f (All-get (Sound []) p.regs a f.flat (omega (arith, f.size)))

pub any-Fetched : (o : Option ℕ) → Fetched (λ _. Unit {0}) o
any-Fetched none = tt
any-Fetched (some b) = tt

instance abbrev pub flat_laws : {M : Mailbox → Type 0} → Laws (IsFlat M)
flat_laws = record {
  Op = λ _. Unit {0};
  same = IsFlat-same;
  size = λ p f. f.size;
  bytes = λ p i f. any-Fetched (get_elem? p.program i);
  immediate = λ p r t f e. IsFlat-set p r t f (plain e);
  copied = IsFlat-copied;
}

pub IsFlat-mail :
    {M : Mailbox → Type 0} (p : Process) (mb : Mailbox)
    → IsFlat M p
    → M mb
    → IsFlat M (record p { mailbox = mb })
IsFlat-mail p mb f m = record { heap = f.heap; flat = f.flat; size = f.size; mail = m }

instance abbrev pub flat_mails : MailLaws (IsFlat IsValid)
flat_mails = record { valid = λ p f. f.mail; mail = IsFlat-mail }

-- No such term points at an object.
pub flat-Other : (t : Term) → Sound [] t → (is_boxed t ≡ false) × (is_cons t ≡ false)
flat-Other t (plain e) = immediate-Other t e
flat-Other t (empty e) = rw e zero-Other
flat-Other t (boxed off n h e) = absurd h
flat-Other t (pair off h e) = absurd h

zero-copied : (is_immediate 0 || (0 == 0)) ≡ true
unfolding is_immediate
zero-copied = refl

copied_as_is : (t : Term) → Sound [] t → (is_immediate t || (t == 0)) ≡ true
copied_as_is t (plain e) = ground arith
copied_as_is t (empty e) = rw e (zero-copied)
copied_as_is t (boxed off n h e) = absurd h
copied_as_is t (pair off h e) = absurd h

copy_roots-flat :
    (heap : Heap) (old : Space) (ts : List Term)
    → All (Sound []) ts
    → copy_roots heap old ts ≡ done (ts, heap)
unfolding copy_roots copy_term
copy_roots-flat heap old [] f = refl
copy_roots-flat heap old (t ∷ ts) f = rw (copied_as_is t f.0, copy_roots-flat heap old ts f.1) refl

-- A collection moves nothing.
pub gc-flat :
    (heap : Heap) (ts : List Term)
    → NoSpace heap
    → All (Sound []) ts
    → (h : Heap) × (gc heap ts ≡ done (ts, h)) × NoSpace h
unfolding gc scan_loop
gc-flat heap ts n f =
    let swapped = record heap { from = heap.to; to = heap.from; hp = 0 } in
    rw (copy_roots-flat swapped heap.from ts f, n.from_null)
      (
        record swapped { gc_count = (heap.gc_count + 1) % u32_mod; to = null },
        refl,
        record {
          from_null = n.to_null;
          to_null = refl;
          capacity_zero = n.capacity_zero;
          hp_zero = refl;
        },
      )

no_room : (heap : Heap) (n : ℕ) → NoSpace heap → 0 < n → leb (heap.hp + n) heap.capacity ≡ false
no_room heap n s lt = ground (arith, s.capacity_zero, s.hp_zero)

pub make_tuple-flat :
    (heap : Heap) (elems : List Term) → NoSpace heap → make_tuple heap elems ≡ done (0, heap)
unfolding make_tuple alloc
make_tuple-flat heap elems s = ground (arith, no_room heap (1 + length elems) s)

pub cons-flat :
    (heap : Heap) (head tail : Term) → NoSpace heap → cons heap head tail ≡ done (0, heap)
unfolding cons alloc
cons-flat heap head tail s = ground (arith, no_room heap 2 s)
