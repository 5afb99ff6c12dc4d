-- ===== src/Vm/Safe/Bifs.antt =====
-- The built-in functions of src/mb_vm.c (erts/example/mini_beam_esp32) on processes with a property that
-- obeys the laws.
use os_ii.Prelude.{
  ℕ, zero, suc, ◌<◌, ◌≡◌, arith, ◌==◌, ==→eq, not, Bool, false, if◌then◌else◌, List, [], ◌∷◌,
  length, get_elem?, ℤ, ltb, ltb→lt,
}
use os_ii.BifNumber
use os_ii.Status.{Status, bad_argc, bad_argument}
use os_ii.Run.{in_range}
use os_ii.Process.{Process, reg_count}
use os_ii.Hal.{Hal}
use os_ii.Machine.{Cmd, pure, lift, drive, ◌>>=◌, valid_reg}
use os_ii.Vm.Bif.{
  arg_int, answer, bif_gpio_write, bif_gpio_read, bif_pwm_set_duty, bif_pwm_config,
  bif_i2c_read_reg, bif_i2c_write_reg, bif_monotonic_ms, call_bif,
}
use os_ii.Vm.Safe.{Laws, Safely, Any}
use os_ii.Vm.Safe.Rules.{
  Regs, Safely-bind, Safely-pure, Safely-if, Safely-drive, Safely-reg_int, Safely-set_int,
}

not_true→eq : (n k : ℕ) → not (n == k) ≡ false → n ≡ k
not_true→eq n k e = ground (arith, ==→eq n k)

not_false→lt : (n k : ℕ) → not (ltb n k) ≡ false → n < k
not_false→lt n k e = ground (arith, ltb→lt n k)

module _ {G : Process → Type 0} ⦃laws : Laws G⦄ {W : Type 0} where
  argument :
      (argv : List ℕ) (i : ℕ)
      → Regs argv
      → i < length argv
      → Safely {W = W} G (λ r. r < reg_count) (lift (in_range (get_elem? argv i)))
  argument [] i rs lt = absurd (omega arith)
  argument (r ∷ argv) zero rs lt = Safely-pure rs.0
  argument (r ∷ argv) (suc i) rs lt = argument argv i rs.1 (omega arith)

  Safely-arg_int :
      (argv : List ℕ) (i : ℕ) → Regs argv → i < length argv → Safely {W = W} G Any (arg_int argv i)
  unfolding arg_int
  Safely-arg_int argv i rs lt = Safely-bind (argument argv i rs lt) λ r lt'. Safely-reg_int r lt'

  Safely-answer : (dst : ℕ) (v : ℤ) → dst < reg_count → Safely {W = W} G Any (answer dst v)
  unfolding answer
  Safely-answer dst v lt = Safely-bind (Safely-set_int dst v lt) λ _ _. Safely-pure tt

  -- The test of the number of arguments.
  counted :
      (n : ℕ) (argv : List ℕ) {c : Cmd W Status}
      → (length argv ≡ n → Safely G Any c)
      → Safely {W = W} G Any (if not (length argv == n) then pure bad_argc else c)
  counted n argv k =
      Safely-if (not (length argv == n)) (λ _. Safely-pure tt)
        (λ e. k (not_true→eq (length argv) n e))

  -- The test of the arguments.
  validated :
      (bad : Bool) {c : Cmd W Status}
      → Safely G Any c
      → Safely {W = W} G Any (if bad then pure bad_argument else c)
  validated bad k = Safely-if bad (λ _. Safely-pure tt) (λ _. k)

module _ {G : Process → Type 0} ⦃laws : Laws G⦄ {W : Type 0} (hal : Hal W) (argv : List ℕ) (dst : ℕ)
    (rs : Regs argv) (lt : dst < reg_count) where
  drive-answer :
      {A : Type 0} (f : W → A × W) (v : A → ℤ)
      → Safely {W = W} G Any (drive f >>= λ a. answer dst (v a))
  drive-answer f v = Safely-bind (Safely-drive f) λ a _. Safely-answer dst (v a) lt

  Safely-bif_gpio_write : Safely G Any (bif_gpio_write hal argv dst)
  unfolding bif_gpio_write
  Safely-bif_gpio_write = counted 2 argv λ n.
      Safely-bind (Safely-arg_int argv 0 rs (omega arith)) λ pin _.
        Safely-bind (Safely-arg_int argv 1 rs (omega arith))
          λ level _. validated _ (drive-answer _ (λ rc. rc))

  Safely-bif_gpio_read : Safely G Any (bif_gpio_read hal argv dst)
  unfolding bif_gpio_read
  Safely-bif_gpio_read = counted 1 argv λ n.
      Safely-bind (Safely-arg_int argv 0 rs (omega arith)) λ pin _. validated _ (drive-answer _ _)

  Safely-bif_pwm_set_duty : Safely G Any (bif_pwm_set_duty hal argv dst)
  unfolding bif_pwm_set_duty
  Safely-bif_pwm_set_duty = counted 2 argv λ n.
      Safely-bind (Safely-arg_int argv 0 rs (omega arith)) λ ch _.
        Safely-bind (Safely-arg_int argv 1 rs (omega arith))
          λ duty _. validated _ (drive-answer _ (λ rc. rc))

  Safely-bif_pwm_config : Safely G Any (bif_pwm_config hal argv dst)
  unfolding bif_pwm_config
  Safely-bif_pwm_config = counted 2 argv λ n.
      Safely-bind (Safely-arg_int argv 0 rs (omega arith)) λ ch _.
        Safely-bind (Safely-arg_int argv 1 rs (omega arith))
          λ freq _. validated _ (drive-answer _ (λ rc. rc))

  Safely-bif_i2c_read_reg : Safely G Any (bif_i2c_read_reg hal argv dst)
  unfolding bif_i2c_read_reg
  Safely-bif_i2c_read_reg = counted 3 argv λ n.
      Safely-bind (Safely-arg_int argv 0 rs (omega arith)) λ bus _.
        Safely-bind (Safely-arg_int argv 1 rs (omega arith)) λ addr _.
          Safely-bind (Safely-arg_int argv 2 rs (omega arith)) λ r _. validated _ (drive-answer _ _)

  Safely-bif_i2c_write_reg : Safely G Any (bif_i2c_write_reg hal argv dst)
  unfolding bif_i2c_write_reg
  Safely-bif_i2c_write_reg = counted 4 argv λ n.
      Safely-bind (Safely-arg_int argv 0 rs (omega arith)) λ bus _.
        Safely-bind (Safely-arg_int argv 1 rs (omega arith)) λ addr _.
          Safely-bind (Safely-arg_int argv 2 rs (omega arith)) λ r _.
            Safely-bind (Safely-arg_int argv 3 rs (omega arith))
              λ val _. validated _ (drive-answer _ (λ rc. rc))

  Safely-bif_monotonic_ms : Safely G Any (bif_monotonic_ms hal argv dst)
  unfolding bif_monotonic_ms
  Safely-bif_monotonic_ms = counted 0 argv λ n. drive-answer _ _

module _ {G : Process → Type 0} ⦃laws : Laws G⦄ {W : Type 0} (hal : Hal W) where
  -- Whatever the number of the function and the destination.
  pub Safely-call_bif :
      (bif : ℕ) (argv : List ℕ) (dst : ℕ) → Regs argv → Safely G Any (call_bif hal bif argv dst)
  unfolding call_bif valid_reg
  Safely-call_bif bif argv dst rs =
      Safely-if (not (ltb dst reg_count)) (λ _. Safely-pure tt)
        λ e.
          let lt = not_false→lt dst reg_count e in
          Safely-if (bif == BifNumber.gpio_write) (λ _. Safely-bif_gpio_write hal argv dst rs lt)
            λ _.
              Safely-if (bif == BifNumber.gpio_read) (λ _. Safely-bif_gpio_read hal argv dst rs lt)
                λ _.
                  Safely-if (bif == BifNumber.pwm_set_duty)
                    (λ _. Safely-bif_pwm_set_duty hal argv dst rs lt)
                    λ _.
                      Safely-if (bif == BifNumber.pwm_config)
                        (λ _. Safely-bif_pwm_config hal argv dst rs lt)
                        λ _.
                          Safely-if (bif == BifNumber.i2c_read_reg)
                            (λ _. Safely-bif_i2c_read_reg hal argv dst rs lt)
                            λ _.
                              Safely-if (bif == BifNumber.i2c_write_reg)
                                (λ _. Safely-bif_i2c_write_reg hal argv dst rs lt)
                                λ _.
                                  Safely-if (bif == BifNumber.monotonic_ms)
                                    (λ _. Safely-bif_monotonic_ms hal argv dst rs lt)
                                    (λ _. Safely-pure tt)
