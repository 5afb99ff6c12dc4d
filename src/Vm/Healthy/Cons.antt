-- ===== src/Vm/Healthy/Cons.antt =====
-- `CONS` of src/mb_vm.c (erts/example/mini_beam_esp32), with the collection that it may make.
use os_ii.Prelude.{
  ℕ, ◌<◌, ◌≡◌, refl, arith, true, not, ◌==◌, if◌then◌else◌, Bool-cases, inl, inr, List, [], ◌∷◌,
}
use os_ii.Status.{bad_reg, heap_oom}
use os_ii.Term.{Term}
use os_ii.Process.{reg_count}
use os_ii.Machine.{Machine, ◌>>=◌, fail, need_u8, valid_reg, valid_regs, check_regs, set_reg}
use os_ii.Vm.Data.{collect, try_cons, op_cons}
use os_ii.Vm.Healthy.{
  Healthy, HealthyWith, Fine, Ensures, bind, fail-Fine, need_u8-Fine, collect-Fine, set_reg-Fine,
  try_cons-HealthyWith,
}

valid_three :
    (a b c : ℕ)
    → valid_regs (a ∷ b ∷ c ∷ []) ≡ true
    → (a < reg_count) × (b < reg_count) × (c < reg_count)
unfolding valid_regs valid_reg
valid_three a b c h = ground arith

module _ {W : Type 0} where
  -- With a term at hand, or the full heap's 0.
  second_try :
      (r_dst : ℕ) (t : Term) (m : Machine W)
      → r_dst < reg_count
      → HealthyWith t m.proc
      → Ensures Fine ((if t == 0 then fail heap_oom else set_reg r_dst t) m)
  second_try r_dst t m lt h = elim (Bool-cases (t == 0)) [
    | inl e ↦ rw e (fail-Fine Fine heap_oom m (h.0, h.1))
    | inr e ↦ rw e (set_reg-Fine r_dst t m lt h)
  ]

  first_try :
      (r_dst r_head r_tail : ℕ) (t : Term) (m : Machine W)
      → r_dst < reg_count
      → r_head < reg_count
      → r_tail < reg_count
      → HealthyWith t m.proc
      → Ensures Fine (
          (if not (t == 0)
              then set_reg r_dst t
              else (collect >>= λ _. try_cons r_head r_tail >>= λ t'.
                  if t' == 0 then fail heap_oom else set_reg r_dst t'))
            m)
  unfolding ◌>>=◌
  first_try r_dst r_head r_tail t m lt lt' lt'' h = elim (Bool-cases (t == 0)) [
    | inr e ↦ rw e (set_reg-Fine r_dst t m lt h)
    | inl e ↦ rw e (
        bind Fine Fine (collect m) _ (collect-Fine m (h.0, h.1)) λ _ m1 h1.
          bind HealthyWith Fine (try_cons r_head r_tail m1) _
            (try_cons-HealthyWith r_head r_tail m1 lt' lt'' h1)
            λ t' m2 h2. second_try r_dst t' m2 lt h2)
  ]

  check_regs-Valid :
      (rs : List ℕ) (m : Machine W)
      → Healthy m.proc
      → Ensures (λ _ p. Healthy p × (valid_regs rs ≡ true)) (check_regs rs m)
  unfolding check_regs
  check_regs-Valid rs m h = elim (Bool-cases (valid_regs rs)) [
    | inl e ↦ rw e (h, refl)
    | inr e ↦ rw e (fail-Fine _ bad_reg m h)
  ]

  -- `CONS` is safe: on a process with a well-formed heap and registers that hold terms of it, whatever
  -- its program, it neither faults nor uses up the collector's rounds. It goes on, or returns early,
  -- with a well-formed heap and registers that hold terms of that, also where it had to collect.
  pub op_cons-Fine : (m : Machine W) → Healthy m.proc → Ensures Fine (op_cons m)
  unfolding op_cons ◌>>=◌
  op_cons-Fine m h = bind Fine Fine (need_u8 m) _ (need_u8-Fine m h) λ r_dst m1 h1.
      bind Fine Fine (need_u8 m1) _ (need_u8-Fine m1 h1) λ r_head m2 h2.
        bind Fine Fine (need_u8 m2) _ (need_u8-Fine m2 h2) λ r_tail m3 h3.
          bind _ Fine (check_regs (r_dst ∷ r_head ∷ r_tail ∷ []) m3) _
            (check_regs-Valid (r_dst ∷ r_head ∷ r_tail ∷ []) m3 h3)
            λ _ m4 (h4, valid).
              let (lt, lt', lt'') = valid_three r_dst r_head r_tail valid in
              bind HealthyWith Fine (try_cons r_head r_tail m4) _
                (try_cons-HealthyWith r_head r_tail m4 lt' lt'' h4)
                λ t m5 h5. first_try r_dst r_head r_tail t m5 lt lt' lt'' h5
