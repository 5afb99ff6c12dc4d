-- ===== src/Demos/Single.antt =====
-- The programs of erts/example/mini_beam_esp32 that run one process through the single-process
-- interface: src/main_host.c, src/main_mailbox_host.c and espidf_app/main/app_main.c. What they print
-- or log is their result. A run has one round of fuel more than its steps; none of the bytecode
-- yields.
use os_ii.Prelude.{ℕ, ◌+◌, if◌then◌else◌, List, [], ◌∷◌, ◌++◌, get_elem?, ℤ, pos, not}
use os_ii.Status.{Status, is_ok}
use os_ii.Run.{Run, done, ◌>>=◌, in_range}
use os_ii.Term.{get_smallint}
use os_ii.Command.{cmd_gpio_write, cmd_pwm_set_duty, cmd_i2c_read, cmd_i2c_write}
use os_ii.Hal.{Hal}
use os_ii.Opcode
use os_ii.BifNumber
use os_ii.Compat.{Vm, mailbox_push}
use os_ii.Compat
use os_ii.Demos.Stability.{const_i32}
use os_ii.Regression.Check.{i32le}

abbrev pub demo_program : List ℕ
demo_program =
    const_i32 0 (pos 2)
    ++ (const_i32 1 (pos 1)
        ++ ((Opcode.call_bif ∷ BifNumber.gpio_write ∷ 2 ∷ 0 ∷ 1 ∷ 15 ∷ [])
            ++ (const_i32 2 (pos 0)
                ++ (const_i32 3 (pos 600)
                    ++ ((Opcode.call_bif ∷ BifNumber.pwm_set_duty ∷ 2 ∷ 2 ∷ 3 ∷ 15 ∷ [])
                        ++ (const_i32 4 (pos 0)
                            ++ (const_i32 5 (pos 0x68)
                                ++ (const_i32 6 (pos 0x75)
                                    ++ ((Opcode.call_bif ∷ BifNumber.i2c_read_reg ∷ 3 ∷ 4 ∷ 5 ∷ 6
                                          ∷ 7 ∷ [])
                                        ++ (const_i32 9 (pos 2)
                                            ++ ((Opcode.call_bif ∷ BifNumber.gpio_read ∷ 1 ∷ 9 ∷ 10
                                                  ∷ [])
                                                ++ (const_i32 11 (pos 1000)
                                                    ++ ((Opcode.call_bif ∷ BifNumber.pwm_config ∷ 2
                                                          ∷ 2 ∷ 11 ∷ 15 ∷ [])
                                                        ++ (const_i32 12 (pos 0x1C)
                                                            ++ ((Opcode.call_bif
                                                            ∷ BifNumber.i2c_write_reg ∷ 4 ∷ 4 ∷ 5
                                                            ∷ 6 ∷ 12 ∷ 15 ∷ [])
                                                            ++ (const_i32 8 (pos 50)
                                                            ++ (Opcode.sleep_ms ∷ 8 ∷ Opcode.halt
                                                            ∷ [])))))))))))))))))

abbrev pub mailbox_program : List ℕ
mailbox_program = Opcode.recv_cmd ∷ 0 ∷ 1 ∷ 2 ∷ 3 ∷ 4 ∷ Opcode.halt ∷ []

-- `CONST_I32`, `SUB` and `JMP_IF_ZERO`: a jump over `offset` bytes for commands of the type.
unfoldable pub jump_on : ℤ → ℤ → List ℕ
jump_on type offset =
    const_i32 5 type ++ (Opcode.sub ∷ 6 ∷ 0 ∷ 5 ∷ Opcode.jmp_if_zero ∷ 6 ∷ i32le offset)

unfoldable pub app_program : List ℕ
unfolding jump_on
app_program =
    (Opcode.recv_cmd ∷ 0 ∷ 1 ∷ 2 ∷ 3 ∷ 4 ∷ [])
    ++ (jump_on cmd_gpio_write (pos 21)
        ++ (jump_on cmd_pwm_set_duty (pos 15)
            ++ (jump_on cmd_i2c_read (pos 9)
                ++ ((Opcode.halt ∷ [])
                    ++ ((Opcode.call_bif ∷ BifNumber.gpio_write ∷ 2 ∷ 1 ∷ 2 ∷ 15 ∷ Opcode.halt ∷ [])
                        ++ ((Opcode.call_bif ∷ BifNumber.pwm_set_duty ∷ 2 ∷ 1 ∷ 2 ∷ 15 ∷ Opcode.halt
                              ∷ [])
                            ++ (Opcode.call_bif ∷ BifNumber.i2c_read_reg ∷ 3 ∷ 1 ∷ 2 ∷ 3 ∷ 7
                                ∷ Opcode.halt ∷ [])))))))

-- `MB_GET_SMALLINT(vm.regs[r])`
unfoldable pub int_of : Vm → ℕ → Run ℤ
int_of vm r = in_range (get_elem? vm.regs r) >>= λ t. done (get_smallint t)

-- What a program says at its end: the push was refused, the run failed with this code at this `pc`,
-- or the values of a run that did not.
pub data Report : Type 0 where
  push_failed : Status → Report
  vm_failed : Status → ℕ → Report
  values : List ℤ → Report
  last_error : Status → Report
  received : List ℤ → Status → Report

-- The exit status of the two programs on the host.
unfoldable pub exit_code : Report → ℕ
exit_code (push_failed rc) = 1
exit_code (vm_failed rc pc) = 1
exit_code (values vs) = 0
exit_code (last_error rc) = 0
exit_code (received vs rc) = 0

module _ {W : Type 0} (hal : Hal W) where
  -- `mb_vm_run` up to the error line, and what follows a run without an error.
  unfoldable pub run_then :
      (Status → Vm → Status) → ℕ → Vm → (Vm → Run Report) → W → Run (Report × W)
  run_then err max_steps vm next w =
      Compat.run hal (max_steps + 1) vm max_steps w >>= λ (rc, vm', w').
      if not (is_ok rc)
      then done (vm_failed (err rc vm') vm'.pc, w')
      else (next vm' >>= λ r. done (r, w'))

  -- `main` of main_host.c.
  unfoldable pub host_main : W → Run (Report × W)
  host_main w =
      run_then (λ rc vm. vm.last_error) 1024 (Compat.init demo_program)
        (λ vm. int_of vm 7 >>= λ i2c_value.
          int_of vm 10 >>= λ gpio_level. done (values (i2c_value ∷ gpio_level ∷ [])))
        w

  -- `main` of main_mailbox_host.c.
  unfoldable pub mailbox_main : W → Run (Report × W)
  mailbox_main w =
      let (rc, vm) =
        mailbox_push (Compat.init mailbox_program)
          (record { type = cmd_i2c_write; a = pos 0; b = pos 0x68; c = pos 0x75; d = pos 0x1C }) in
      if not (is_ok rc)
      then done (push_failed rc, w)
      else run_then (λ rc vm. vm.last_error) 8 vm
          (λ vm'. int_of vm' 0 >>= λ type. int_of vm' 1 >>= λ a. int_of vm' 2 >>= λ b.
            int_of vm' 3 >>= λ c. int_of vm' 4 >>= λ d.
            let (rc', _) =
              mailbox_push vm'
                (record { type = pos 999; a = pos 0; b = pos 0; c = pos 0; d = pos 0 }) in
            done (received (type ∷ a ∷ b ∷ c ∷ d ∷ []) rc'))
          w

  -- `app_main`.
  unfoldable pub app_main : W → Run (Report × W)
  unfolding app_program
  app_main w =
      let (rc, vm) =
        mailbox_push (Compat.init app_program)
          (record { type = cmd_gpio_write; a = pos 2; b = pos 1; c = pos 0; d = pos 0 }) in
      if not (is_ok rc)
      then done (push_failed rc, w)
      else run_then (λ rc vm'. rc) 128 vm (λ vm'. done (last_error vm'.last_error)) w
