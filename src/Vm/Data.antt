-- ===== src/Vm/Data.antt =====
-- The cases of `mb_proc_step` of src/mb_vm.c (erts/example/mini_beam_esp32) on tuples and lists.
use os_ii.Prelude.{ℕ, zero, suc, ◌+◌, ltb, leb, ◌==◌, ◌||◌, not, if◌then◌else◌, List, [], ◌∷◌}
use os_ii.Status.{bad_reg, heap_oom, bad_term, bad_arity}
use os_ii.Term.{
  Term, is_boxed, is_cons, get_boxed, get_cons, is_tuple_hdr, get_tuple_arity, max_tuple_arity,
}
use os_ii.Heap.{read, make_tuple, cons}
use os_ii.Heap.Gc.{gc}
use os_ii.Machine.{
  Cmd, pure, lift, ◌>>=◌, ◌>>◌, get_proc, put_proc, fail, need_u8, check_regs, reg, set_reg,
  valid_reg,
}

module _ {W : Type 0} where
  -- `elems[i] = proc->regs[r]` for each register that is read.
  unfoldable pub fetch_elems : ℕ → Cmd W (List Term)
  fetch_elems zero = pure []
  fetch_elems (suc n) = do
    r ← need_u8
    check_regs (r ∷ [])
    t ← reg r
    ts ← fetch_elems n
    pure (t ∷ ts)

  -- `mb_heap_gc` with all registers for roots.
  unfoldable pub collect : Cmd W (Unit {0})
  collect = do
    p ← get_proc
    (regs, heap) ← lift (gc p.heap p.regs)
    put_proc (record p { regs = regs; heap = heap })

  unfoldable pub try_tuple : List Term → Cmd W Term
  try_tuple elems = do
    p ← get_proc
    (t, heap) ← lift (make_tuple p.heap elems)
    put_proc (record p { heap = heap })
    pure t

  -- The second attempt uses the elements as they were read before the collection.
  unfoldable pub op_make_tuple : Cmd W (Unit {0})
  op_make_tuple = do
    r_dst ← need_u8
    arity ← need_u8
    if not (valid_reg r_dst) || ltb max_tuple_arity arity
        then fail (if ltb max_tuple_arity arity then bad_arity else bad_reg)
        else do
          elems ← fetch_elems arity
          t ← try_tuple elems
          if not (t == 0) then set_reg r_dst t else do
            collect
            t' ← try_tuple elems
            if t' == 0 then fail heap_oom else set_reg r_dst t'

  unfoldable pub op_tuple_elem : Cmd W (Unit {0})
  op_tuple_elem = do
    r_dst ← need_u8
    r_tuple ← need_u8
    index ← need_u8
    check_regs (r_dst ∷ r_tuple ∷ [])
    t ← reg r_tuple
    if not (is_boxed t) then fail bad_term else do
      p ← get_proc
      hdr ← lift (read p.heap p.heap.from (get_boxed t))
      if not (is_tuple_hdr hdr)
          then fail bad_term
          else if leb (get_tuple_arity hdr) index
          then fail bad_arity
          else do e ← lift (read p.heap p.heap.from (get_boxed t + (1 + index))); set_reg r_dst e

  unfoldable pub try_cons : ℕ → ℕ → Cmd W Term
  try_cons r_head r_tail = do
    head ← reg r_head
    tail ← reg r_tail
    p ← get_proc
    (t, heap) ← lift (cons p.heap head tail)
    put_proc (record p { heap = heap })
    pure t

  -- The second attempt reads the registers again, after the collection.
  unfoldable pub op_cons : Cmd W (Unit {0})
  op_cons = do
    r_dst ← need_u8
    r_head ← need_u8
    r_tail ← need_u8
    check_regs (r_dst ∷ r_head ∷ r_tail ∷ [])
    t ← try_cons r_head r_tail
    if not (t == 0) then set_reg r_dst t else do
      collect
      t' ← try_cons r_head r_tail
      if t' == 0 then fail heap_oom else set_reg r_dst t'

  -- `HEAD` reads the word `at = 0` of the cell, `TAIL` the word 1.
  unfoldable pub op_cell_word : ℕ → Cmd W (Unit {0})
  op_cell_word at = do
    r_dst ← need_u8
    r_cons ← need_u8
    check_regs (r_dst ∷ r_cons ∷ [])
    t ← reg r_cons
    if not (is_cons t)
        then fail bad_term
        else do p ← get_proc; w ← lift (read p.heap p.heap.from (get_cons t + at)); set_reg r_dst w
