-- ===== src/Demos/Multiproc.antt =====
-- src/main_multiproc_host.c (erts/example/mini_beam_esp32): a sensor's process that sends what it has
-- read to an actuator's. A tick has 65 rounds of fuel.
use os_ii.Prelude.{
  ℕ, zero, suc, ◌+◌, ◌==◌, not, if◌then◌else◌, List, [], ◌∷◌, ◌++◌, pos, Option, none, some,
}
use os_ii.Status.{Status, ok, is_ok, code}
use os_ii.Run.{Run, done, ◌>>=◌}
use os_ii.Term.{get_smallint}
use os_ii.Hal.{Hal}
use os_ii.Process.{halted}
use os_ii.Scheduler.{Scheduler, init, spawn, tick}
use os_ii.Regression.Check.{check_int, check_num, check_state, proc_at, reg_of}
use os_ii.Demos.Stability.{const_i32, is_idle}

abbrev pub prog_sensor : List ℕ
prog_sensor =
    const_i32 0 (pos 0)
    ++ (const_i32 1 (pos 0x68)
        ++ (const_i32 2 (pos 0x75)
            ++ ((0x10 ∷ 3 ∷ 3 ∷ 0 ∷ 1 ∷ 2 ∷ 7 ∷ [])
                ++ (const_i32 3 (pos 2)
                    ++ (const_i32 4 (pos 2)
                        ++ (const_i32 5 (pos 0)
                            ++ ((0x02 ∷ 6 ∷ 7 ∷ 0 ∷ [])
                                ++ (const_i32 8 (pos 0)
                                    ++ (0x21 ∷ 3 ∷ 4 ∷ 5 ∷ 6 ∷ 8 ∷ 8 ∷ 0xFF ∷ [])))))))))

abbrev pub prog_actuator : List ℕ
prog_actuator = 0x20 ∷ 0 ∷ 1 ∷ 2 ∷ 3 ∷ 4 ∷ 0x10 ∷ 2 ∷ 2 ∷ 1 ∷ 2 ∷ 5 ∷ 0xFF ∷ []

-- The checks after the loop, with those before it.
unfoldable pub checks : ℕ → ℕ → Scheduler → Run ℕ
checks pid_a pid_b sched = do
  proc_a ← proc_at sched pid_a
  proc_b ← proc_at sched pid_b
  a7 ← reg_of proc_a 7
  a3 ← reg_of proc_a 3
  b0 ← reg_of proc_b 0
  b1 ← reg_of proc_b 1
  b2 ← reg_of proc_b 2
  b5 ← reg_of proc_b 5
  done (
      check_num 1 pid_a
      + check_num 2 pid_b
      + check_state halted proc_a.state
      + check_int (pos 29) (get_smallint a7)
      + check_int (pos (code ok)) (get_smallint a3)
      + check_state halted proc_b.state
      + check_int (pos 2) (get_smallint b0)
      + check_int (pos 0) (get_smallint b1)
      + check_int (pos 29) (get_smallint b2)
      + check_int (pos 0) (get_smallint b5))

unfoldable pub exit_status : ℕ → ℕ → Option Scheduler → Run ℕ
exit_status pid_a pid_b none = done 1
exit_status pid_a pid_b (some sched) =
    checks pid_a pid_b sched >>= λ failures. done (if failures == 0 then 0 else 1)

-- The rest of a round, with the call for the next one: `none` is the return after an error.
unfoldable pub next_round :
    {W : Type 0}
    → (Scheduler → W → Run (Option Scheduler))
    → Status
    → Scheduler
    → W
    → Run (Option Scheduler)
next_round again rc sched w =
    if is_idle rc then done (some sched) else if not (is_ok rc) then done none else again sched w

module _ {W : Type 0} (hal : Hal W) where
  -- `while (ticks < 100)`, with `n` ticks left.
  unfoldable pub tick_while : ℕ → Scheduler → W → Run (Option Scheduler)
  tick_while zero sched w = done (some sched)
  tick_while (suc n) sched w =
      tick hal 65 sched w >>= λ (rc, sched', w'). next_round (λ s v. tick_while n s v) rc sched' w'

  -- `main`: its exit status.
  unfoldable pub multiproc : W → Run ℕ
  multiproc w =
      let (pid_a, sched_a) = spawn init prog_sensor in
      let (pid_b, sched_b) = spawn sched_a prog_actuator in
      tick_while 100 sched_b w >>= λ end. exit_status pid_a pid_b end
