-- ===== src/Vm/Safe/Data.antt =====
-- The cases of `mb_proc_step` of src/mb_vm.c (erts/example/mini_beam_esp32) on cells, and the one that
-- reads a tuple, on processes that build no tuple.
use os_ii.Prelude.{
  ℕ, suc, ◌+◌, ◌^◌, ◌<◌, ◌≤◌, ◌≡◌, refl, ◌∙◌, ap, arith, leb, true, false, not, if◌then◌else◌, List,
  [], ◌∷◌, length, Bool-cases, inl, inr,
}
use os_ii.Status.{bad_term, bad_arity}
use os_ii.Run.{done}
use os_ii.Term.{
  Term, is_boxed, is_cons, is_immediate, is_smallint, is_atom, is_pid, get_boxed, get_cons,
  is_tuple_hdr, get_tuple_arity,
}
use os_ii.Term.Bounds.{pointer_round_trip, tuple_hdr_round_trip}
use os_ii.Process.{reg_count}
use os_ii.Heap.{Heap, words, heap_words, read}
use os_ii.Heap.Objects.{
  Kind, tuple, cell, size, At, At-inside, at, Sound, plain, empty, boxed, pair, WellFormed,
}
use os_ii.Heap.Build.{read_done, length-from}
use os_ii.Machine.{Machine, ◌>>=◌, lift, get_proc, fail, reg, set_reg}
use os_ii.Vm.Data.{op_tuple_elem, op_cell_word}
use os_ii.Vm.Healthy.{HoldsSound, read_reg, All-get}
use os_ii.Vm.Safe.{SafeMachine, Post, Safely, Any}
use os_ii.Vm.Safe.Tupleless.{IsSafe, safe_laws, IsSafe-set}
use os_ii.Vm.Safe.Rules.{Safely-bind, Safely-fail, Safely-need_u8, Safely-check_regs, Post-set_reg}

pub immediate-Other :
    (t : Term) → is_immediate t ≡ true → (is_boxed t ≡ false) × (is_cons t ≡ false)
unfolding is_immediate is_smallint is_atom is_pid is_boxed is_cons
immediate-Other t e = ground arith

not_leb→lt : (n k : ℕ) → leb n k ≡ false → k < n
not_leb→lt n k e = ground arith

pub zero-Other : (is_boxed 0 ≡ false) × (is_cons 0 ≡ false)
unfolding is_boxed is_cons
zero-Other = (refl, refl)

module _ (heap : Heap) (ks : List Kind) (w : WellFormed heap ks) where
  -- An object's words are inside the heap.
  inside : (off : ℕ) (k : Kind) → At ks 0 off k → off + size k ≤ heap_words
  inside off k h = omega (arith, At-inside ks 0 off k h, w.filled, w.room)

  read_word :
      (off : ℕ) → off < heap_words → read heap heap.from off ≡ done (at (words heap heap.from) off)
  read_word off lt = read_done heap heap.from off (omega (arith, length-from heap ks w))

  -- What a term with the tag of a tuple points at.
  boxed-At :
      (t : Term)
      → Sound ks t
      → is_boxed t ≡ true
      → (off : ℕ) × (n : ℕ) × At ks 0 off (tuple n) × (get_boxed t ≡ off)
  boxed-At t (plain e) b = absurd (cc ((immediate-Other t e).0, b))
  boxed-At t (empty e) b = absurd (cc (zero-Other.0, e, b))
  boxed-At t (boxed off n h e) b =
      let lt : off < 2 ^ 28 = omega (arith, inside off (tuple n) h) in
      (off, n, h, ap get_boxed e ∙ (pointer_round_trip off lt).0)
  boxed-At t (pair off h e) b =
      let lt : off < 2 ^ 28 = omega (arith, inside off cell h) in
      let (_, _, _, _, _, _, other, _) = pointer_round_trip off lt in absurd (cc (other, e, b))

  cons-At :
      (t : Term) → Sound ks t → is_cons t ≡ true → (off : ℕ) × At ks 0 off cell × (get_cons t ≡ off)
  cons-At t (plain e) b = absurd (cc ((immediate-Other t e).1, b))
  cons-At t (empty e) b = absurd (cc (zero-Other.1, e, b))
  cons-At t (pair off h e) b =
      let lt : off < 2 ^ 28 = omega (arith, inside off cell h) in
      let (_, _, _, _, same, _, _, _) = pointer_round_trip off lt in (off, h, ap get_cons e ∙ same)
  cons-At t (boxed off n h e) b =
      let lt : off < 2 ^ 28 = omega (arith, inside off (tuple n) h) in
      let (_, _, other, _, _, _, _, _) = pointer_round_trip off lt in absurd (cc (other, e, b))

module _ {W : Type 0} where
  written :
      (r : ℕ) (t : Term) (m : Machine W)
      → r < reg_count
      → SafeMachine IsSafe m
      → (ks : List Kind) → HoldsSound ks m.proc
      → Sound ks t
      → Post IsSafe Any (set_reg r t m)
  written r t m lt h ks s sound =
      Post-set_reg IsSafe r t m lt h (IsSafe-set m.proc r t ks s sound h.0.program h.0.mail)

  -- `TUPLE_ELEM` behind the test of its registers.
  Safely-read_elem :
      (r_dst r_tuple index : ℕ)
      → r_dst < reg_count
      → r_tuple < reg_count
      → Safely {W = W} IsSafe Any (do
        t ← reg r_tuple
        if not (is_boxed t) then fail bad_term else do
          p ← get_proc
          hdr ← lift (read p.heap p.heap.from (get_boxed t))
          if not (is_tuple_hdr hdr)
              then fail bad_term
              else if leb (get_tuple_arity hdr) index
              then fail bad_arity
              else do
                e ← lift (read p.heap p.heap.from (get_boxed t + (1 + index)))
                set_reg r_dst e)
  unfolding get_proc ◌>>=◌
  Safely-read_elem r_dst r_tuple index in_dst in_tuple = record {
    at = λ m h.
        let (ks, s) = h.0.healthy in
        let within : r_tuple < length m.proc.regs = omega (arith, s.size) in
        let t = at m.proc.regs r_tuple in
        let heap = m.proc.heap in
        rw (read_reg r_tuple m within) (elim (Bool-cases (is_boxed t)) [
          | inr other ↦ rw other ((Safely-fail {G = IsSafe} {Q = Any} bad_term).at m h)
          | inl b ↦
              let (off, n, there, same) =
                boxed-At heap ks s.heap t (All-get (Sound ks) m.proc.regs r_tuple s.sound within)
                  b in
              let room : off + (n + 2) ≤ heap_words = inside heap ks s.heap off (tuple n) there in
              let (hdr, elems) = s.heap.shaped off (tuple n) there in
              let (is_hdr, arity) = tuple_hdr_round_trip (suc n) (omega arith) in
              rw (b, same, read_word heap ks s.heap off (omega arith), hdr, is_hdr, arity)
                (elim (Bool-cases (leb (suc n) index)) [
                  | inl past ↦ rw past ((Safely-fail {G = IsSafe} {Q = Any} bad_arity).at m h)
                  | inr low ↦
                      let lt : index < suc n = not_leb→lt (suc n) index low in
                      rw (low, read_word heap ks s.heap (off + (1 + index)) (omega arith))
                        (written r_dst _ m in_dst h ks s
                          (elems (1 + index) (omega arith) (omega arith)))
                ])
        ]);
  }

  pub Safely-op_tuple_elem : Safely {W = W} IsSafe Any op_tuple_elem
  unfolding op_tuple_elem
  Safely-op_tuple_elem = Safely-bind Safely-need_u8 λ r_dst _.
      Safely-bind Safely-need_u8 λ r_tuple _. Safely-bind Safely-need_u8 λ index _.
        Safely-bind (Safely-check_regs (r_dst ∷ r_tuple ∷ []))
          λ _ rs. Safely-read_elem r_dst r_tuple index rs.0 rs.1.0

  -- `HEAD` and `TAIL` behind the test of their registers.
  Safely-read_cell :
      (n r_dst r_cons : ℕ)
      → n < 2
      → r_dst < reg_count
      → r_cons < reg_count
      → Safely {W = W} IsSafe Any (do
        t ← reg r_cons
        if not (is_cons t) then fail bad_term else do
          p ← get_proc
          w ← lift (read p.heap p.heap.from (get_cons t + n))
          set_reg r_dst w)
  unfolding get_proc ◌>>=◌
  Safely-read_cell n r_dst r_cons lt in_dst in_cons = record {
    at = λ m h.
        let (ks, s) = h.0.healthy in
        let within : r_cons < length m.proc.regs = omega (arith, s.size) in
        let t = at m.proc.regs r_cons in
        let heap = m.proc.heap in
        rw (read_reg r_cons m within) (elim (Bool-cases (is_cons t)) [
          | inr other ↦ rw other ((Safely-fail {G = IsSafe} {Q = Any} bad_term).at m h)
          | inl b ↦
              let (off, there, same) =
                cons-At heap ks s.heap t (All-get (Sound ks) m.proc.regs r_cons s.sound within) b in
              let room : off + 2 ≤ heap_words = inside heap ks s.heap off cell there in
              rw (b, same, read_word heap ks s.heap (off + n) (omega arith))
                (written r_dst _ m in_dst h ks s (s.heap.shaped off cell there n lt))
        ]);
  }

  pub Safely-op_cell_word : (n : ℕ) → n < 2 → Safely {W = W} IsSafe Any (op_cell_word n)
  unfolding op_cell_word
  Safely-op_cell_word n lt = Safely-bind Safely-need_u8 λ r_dst _.
      Safely-bind Safely-need_u8 λ r_cons _.
        Safely-bind (Safely-check_regs (r_dst ∷ r_cons ∷ []))
          λ _ rs. Safely-read_cell n r_dst r_cons lt rs.0 rs.1.0
