-- ===== src/Vm/Sound/Commands.antt =====
-- Every primitive of the interpreter of src/mb_vm.c (erts/example/mini_beam_esp32) keeps the
-- running process and its table sound.
use os_ii.Prelude.{List}
use os_ii.Run.{Gives-free}
use os_ii.Term.{Term}
use os_ii.Heap.{Heap}
use os_ii.Process.{Process}
use os_ii.Mailbox.Invariant.{pop_raw-IsValid}
use os_ii.Hal.{Hal}
use os_ii.Machine.{Machine}
use os_ii.Vm.Keeps.{Rules}
use os_ii.Vm.Keeps.Local.{Local, Local-Rules, Both}
use os_ii.Vm.Sound.{IsSound, SoundCaller, entry-IsSound, deliver-AllSound, count-pop_raw}

heap-IsSound :
    (p : Process) (regs : List Term) (heap : Heap)
    → IsSound p
    → IsSound (record p { regs = regs; heap = heap })
heap-IsSound p regs heap i = record { mail = i.mail; no_lost = i.no_lost }

Sound-Local : Local (Unit {0}) IsSound SoundCaller
Sound-Local = record {
  on_error = λ p s i. record { mail = i.mail; no_lost = i.no_lost };
  on_pc = λ p pc i. record { mail = i.mail; no_lost = i.no_lost };
  on_regs = λ p regs i. record { mail = i.mail; no_lost = i.no_lost };
  on_yield = λ p i. record { mail = i.mail; no_lost = i.no_lost };
  on_halt = λ p i. record { mail = i.mail; no_lost = λ e. cc };
  on_sleep = λ p until i. record { mail = i.mail; no_lost = λ e. cc };
  on_pop = λ p i. record {
    mail = pop_raw-IsValid p.mailbox i.mail;
    no_lost = λ w. count-pop_raw p.mailbox (i.no_lost w);
  };
  on_block = λ p pc i e. record { mail = i.mail; no_lost = λ w. e };
  on_collect = λ p i. Gives-free _ _ (λ x. heap-IsSound p x.0 x.1 i);
  on_make_tuple = λ p elems i. Gives-free _ _ (λ x. heap-IsSound p p.regs x.1 i);
  on_cons = λ p head tail i. Gives-free _ _ (λ x. heap-IsSound p p.regs x.1 i);
  on_send = λ slot procs p i cmd own q.
      let all = deliver-AllSound _ i cmd (λ j. entry-IsSound procs j slot p own (q j)) in
      (all slot, all);
}

abbrev pub Sound : {W : Type 0} → Machine W → Type 0
Sound = Both IsSound SoundCaller

pub Sound-Rules : {W : Type 0} (hal : Hal W) → Rules hal (Unit {0}) Sound
Sound-Rules hal = Local-Rules (Unit {0}) IsSound SoundCaller Sound-Local hal
