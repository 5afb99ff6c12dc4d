-- ===== src/Vm/Keeps/Cases.antt =====
-- What the primitives keep, every case of the switch of `mb_proc_step` in src/mb_vm.c
-- (erts/example/mini_beam_esp32) keeps.
use os_ii.Prelude.{ℕ, zero, suc, List, [], ◌∷◌, ℤ}
use os_ii.Hal.{Hal}
use os_ii.Machine.{Machine, need_u8, need_i32, check_regs}
use os_ii.Vm.{dispatch, execute}
use os_ii.Vm.Bif.{
  arg_int, answer, bif_gpio_write, bif_gpio_read, bif_pwm_set_duty, bif_pwm_config,
  bif_i2c_read_reg, bif_i2c_write_reg, bif_monotonic_ms, call_bif,
}
use os_ii.Vm.Ops.{
  op_const_i32, op_move_add_sub, fetch_regs, op_recv_cmd, op_send, op_self, op_yield, op_jmp,
  op_jmp_if_zero, op_halt, op_call_bif, op_sleep_ms,
}
use os_ii.Vm.Data.{fetch_elems, collect, op_make_tuple, op_tuple_elem, op_cons, op_cell_word}
use os_ii.Vm.Keeps.{Keeps, Keeps-pure, Keeps-bind, Keeps-if, Keeps-reg, keeps_rules, Rules}

module _ {W : Type 0} (hal : Hal W) (T : Type 0) (P : Machine W → Type 0)
    (rules : Rules hal T P) where
  open rules use {
    fetch, failing, writing, error, driving, yielding, jumping, halting, receiving, sending,
    sleeping, collecting, tupling, consing,
  }

  Keeps-fetch : Keeps T P need_u8
  Keeps-fetch = fetch

  Keeps-yield : Keeps T P op_yield
  Keeps-yield = yielding

  Keeps-halt : Keeps T P op_halt
  Keeps-halt = halting

  Keeps-collect : Keeps T P collect
  Keeps-collect = collecting

  Keeps-need_i32 : Keeps T P need_i32
  unfolding need_i32
  Keeps-need_i32 = search (keeps_rules, Keeps-fetch)

  Keeps-check_regs : (rs : List ℕ) → Keeps T P (check_regs rs)
  unfolding check_regs
  Keeps-check_regs rs = search (keeps_rules, failing)

  Keeps-arg_int : (argv : List ℕ) (i : ℕ) → Keeps T P (arg_int argv i)
  unfolding arg_int
  Keeps-arg_int argv i = search keeps_rules

  Keeps-answer : (dst : ℕ) (v : ℤ) → Keeps T P (answer dst v)
  unfolding answer
  Keeps-answer dst v = search (keeps_rules, writing)

  Keeps-fetch_regs : (n : ℕ) → Keeps T P (fetch_regs n)
  unfolding fetch_regs
  Keeps-fetch_regs zero = Keeps-pure []
  Keeps-fetch_regs (suc n) = Keeps-bind _ _ Keeps-fetch λ r.
      Keeps-bind _ _ (Keeps-check_regs (r ∷ []))
        λ _. Keeps-bind _ _ (Keeps-fetch_regs n) λ rs. Keeps-pure (r ∷ rs)

  Keeps-fetch_elems : (n : ℕ) → Keeps T P (fetch_elems n)
  unfolding fetch_elems
  Keeps-fetch_elems zero = Keeps-pure []
  Keeps-fetch_elems (suc n) = Keeps-bind _ _ Keeps-fetch λ r.
      Keeps-bind _ _ (Keeps-check_regs (r ∷ [])) λ _.
        Keeps-bind _ _ (Keeps-reg r)
          λ t. Keeps-bind _ _ (Keeps-fetch_elems n) λ ts. Keeps-pure (t ∷ ts)

  Keeps-bif_gpio_write : (argv : List ℕ) (dst : ℕ) → Keeps T P (bif_gpio_write hal argv dst)
  unfolding bif_gpio_write
  Keeps-bif_gpio_write argv dst =
      search (keeps_rules, Keeps-arg_int, Keeps-answer, driving) depth 12

  Keeps-bif_gpio_read : (argv : List ℕ) (dst : ℕ) → Keeps T P (bif_gpio_read hal argv dst)
  unfolding bif_gpio_read
  Keeps-bif_gpio_read argv dst = search (keeps_rules, Keeps-arg_int, Keeps-answer, driving) depth 12

  Keeps-bif_pwm_set_duty : (argv : List ℕ) (dst : ℕ) → Keeps T P (bif_pwm_set_duty hal argv dst)
  unfolding bif_pwm_set_duty
  Keeps-bif_pwm_set_duty argv dst =
      search (keeps_rules, Keeps-arg_int, Keeps-answer, driving) depth 12

  Keeps-bif_pwm_config : (argv : List ℕ) (dst : ℕ) → Keeps T P (bif_pwm_config hal argv dst)
  unfolding bif_pwm_config
  Keeps-bif_pwm_config argv dst =
      search (keeps_rules, Keeps-arg_int, Keeps-answer, driving) depth 12

  Keeps-bif_i2c_read_reg : (argv : List ℕ) (dst : ℕ) → Keeps T P (bif_i2c_read_reg hal argv dst)
  unfolding bif_i2c_read_reg
  Keeps-bif_i2c_read_reg argv dst =
      search (keeps_rules, Keeps-arg_int, Keeps-answer, driving) depth 12

  Keeps-bif_i2c_write_reg : (argv : List ℕ) (dst : ℕ) → Keeps T P (bif_i2c_write_reg hal argv dst)
  unfolding bif_i2c_write_reg
  Keeps-bif_i2c_write_reg argv dst =
      search (keeps_rules, Keeps-arg_int, Keeps-answer, driving) depth 14

  Keeps-bif_monotonic_ms : (argv : List ℕ) (dst : ℕ) → Keeps T P (bif_monotonic_ms hal argv dst)
  unfolding bif_monotonic_ms
  Keeps-bif_monotonic_ms argv dst = search (keeps_rules, Keeps-answer, driving) depth 12

  ruleset bif_rules = (
    Keeps-bif_gpio_write, Keeps-bif_gpio_read, Keeps-bif_pwm_set_duty, Keeps-bif_pwm_config,
    Keeps-bif_i2c_read_reg, Keeps-bif_i2c_write_reg, Keeps-bif_monotonic_ms,
  )

  Keeps-call_bif : (bif : ℕ) (argv : List ℕ) (dst : ℕ) → Keeps T P (call_bif hal bif argv dst)
  unfolding call_bif
  Keeps-call_bif bif argv dst = search (keeps_rules, bif_rules) depth 14

  ruleset op_rules = (
    keeps_rules, Keeps-need_i32, Keeps-check_regs, Keeps-fetch_regs, Keeps-fetch_elems,
    Keeps-call_bif,
  )

  Keeps-op_const_i32 : Keeps T P op_const_i32
  unfolding op_const_i32
  Keeps-op_const_i32 = search (op_rules, Keeps-fetch, writing) depth 12

  Keeps-op_move_add_sub : (op : ℕ) → Keeps T P (op_move_add_sub op)
  unfolding op_move_add_sub
  Keeps-op_move_add_sub op = search (op_rules, Keeps-fetch, writing) depth 12

  Keeps-op_call_bif : Keeps T P (op_call_bif hal)
  unfolding op_call_bif
  Keeps-op_call_bif = search (op_rules, Keeps-fetch, failing, error) depth 12

  Keeps-op_recv_cmd : (pc : ℕ) → Keeps T P (op_recv_cmd pc)
  unfolding op_recv_cmd
  Keeps-op_recv_cmd pc = search (op_rules, Keeps-fetch, receiving) depth 12

  Keeps-op_send : Keeps T P op_send
  unfolding op_send
  Keeps-op_send = search (op_rules, Keeps-fetch, sending) depth 14

  Keeps-op_self : Keeps T P op_self
  unfolding op_self
  Keeps-op_self = search (op_rules, Keeps-fetch, writing) depth 12

  Keeps-op_jmp : Keeps T P op_jmp
  unfolding op_jmp
  Keeps-op_jmp = search (op_rules, jumping) depth 12

  Keeps-op_jmp_if_zero : Keeps T P op_jmp_if_zero
  unfolding op_jmp_if_zero
  Keeps-op_jmp_if_zero = search (op_rules, Keeps-fetch, jumping) depth 12

  Keeps-op_sleep_ms : Keeps T P (op_sleep_ms hal)
  unfolding op_sleep_ms
  Keeps-op_sleep_ms = search (op_rules, Keeps-fetch, sleeping) depth 12

  Keeps-op_make_tuple : Keeps T P op_make_tuple
  unfolding op_make_tuple
  Keeps-op_make_tuple =
      search (op_rules, Keeps-fetch, failing, tupling, Keeps-collect, writing) depth 14

  Keeps-op_tuple_elem : Keeps T P op_tuple_elem
  unfolding op_tuple_elem
  Keeps-op_tuple_elem = search (op_rules, Keeps-fetch, failing, writing) depth 14

  Keeps-op_cons : Keeps T P op_cons
  unfolding op_cons
  Keeps-op_cons = search (op_rules, Keeps-fetch, failing, consing, Keeps-collect, writing) depth 14

  Keeps-op_cell_word : (n : ℕ) → Keeps T P (op_cell_word n)
  unfolding op_cell_word
  Keeps-op_cell_word n = search (op_rules, Keeps-fetch, failing, writing) depth 12

  ruleset case_rules = (
    Keeps-op_const_i32, Keeps-op_move_add_sub, Keeps-op_call_bif, Keeps-op_recv_cmd, Keeps-op_send,
    Keeps-op_self, Keeps-op_jmp, Keeps-op_jmp_if_zero, Keeps-op_sleep_ms, Keeps-op_make_tuple,
    Keeps-op_tuple_elem, Keeps-op_cons, Keeps-op_cell_word,
  )

  Keeps-dispatch : (pc op : ℕ) → Keeps T P (dispatch hal pc op)
  unfolding dispatch
  Keeps-dispatch pc op =
      search (Keeps-if, Keeps-pure, case_rules, Keeps-yield, Keeps-halt, failing) depth 24

  pub Keeps-execute : Keeps T P (execute hal)
  unfolding execute
  Keeps-execute = record {
    at = λ m h.
        (Keeps-bind need_u8 (λ op. dispatch hal m.proc.pc op) fetch
            (λ op. Keeps-dispatch m.proc.pc op)).at
          m h;
  }
