-- ===== src/Demos/Stability.antt =====
-- src/main_stability_host.c (erts/example/mini_beam_esp32): a producer and a consumer under the
-- scheduler, and what is checked after a number of slices. The loop takes fuel for its rounds, a tick 65
-- rounds.
use os_ii.Prelude.{
  ℕ, zero, suc, ◌+◌, ◌%◌, ◌==◌, ltb, leb, ◌||◌, Bool, true, false, if◌then◌else◌, List, ◌∷◌, ◌++◌,
  ℤ, pos, negsuc, leb_ℤ, not,
}
use os_ii.Status.{Status, sched_idle, is_ok}
use os_ii.Run.{Run, done, out_of_fuel, ◌>>=◌}
use os_ii.Term.{get_smallint}
use os_ii.Hal.{Hal}
use os_ii.Process.{Process}
use os_ii.Scheduler.{Scheduler, init, spawn, tick}
use os_ii.Regression.Check.{i32le, check_num, check_bool, proc_at, reg_of}

-- `MB_OP_CONST_I32` with its operands.
abbrev pub const_i32 : ℕ → ℤ → List ℕ
const_i32 r v = 0x01 ∷ r ∷ i32le v

abbrev pub prog_producer : List ℕ
prog_producer =
    const_i32 0 (pos 0)
    ++ (const_i32 1 (pos 1)
        ++ (const_i32 2 (pos 2)
            ++ (const_i32 3 (pos 3)
                ++ (const_i32 4 (pos 0)
                    ++ (const_i32 5 (pos 0x39)
                        ++ (0x03
                            ∷ 6
                            ∷ 0
                            ∷ 1
                            ∷ 0x50
                            ∷ 7
                            ∷ 2
                            ∷ 0
                            ∷ 6
                            ∷ 0x21
                            ∷ 2
                            ∷ 3
                            ∷ 4
                            ∷ 5
                            ∷ 4
                            ∷ 0
                            ∷ 0x03
                            ∷ 0
                            ∷ 0
                            ∷ 1
                            ∷ 0x23
                            ∷ 0x30
                            ∷ i32le (negsuc 25)))))))

abbrev pub prog_consumer : List ℕ
prog_consumer =
    const_i32 2 (pos 1)
    ++ (0x20
        ∷ 3
        ∷ 4
        ∷ 5
        ∷ 6
        ∷ 7
        ∷ 0x03
        ∷ 1
        ∷ 1
        ∷ 2
        ∷ 0x50
        ∷ 0
        ∷ 2
        ∷ 1
        ∷ 7
        ∷ 0x23
        ∷ 0x30
        ∷ i32le (negsuc 14))

abbrev pub stability_ticks : ℕ
stability_ticks = 200000

-- Where the loop ends: the failures, the slices, and the scheduler.
pub record Outcome : Type 0 where
  pub failures : ℕ
  pub ticks : ℕ
  pub sched : Scheduler

-- `heap.hp > heap.capacity`
abbrev overflown : Process → Bool
overflown p = ltb p.heap.capacity p.heap.hp

abbrev pub is_idle : Status → Bool
is_idle sched_idle = true
is_idle _ = false

module _ {W : Type 0} (hal : Hal W) (limit : ℕ) where
  -- The rest of a round, on what the tick returned and with the call for the next round. A round that
  -- breaks off is `done`.
  unfoldable pub after_tick :
      (ℕ → ℕ → Scheduler → W → Run Outcome) → ℕ → ℕ → Status → Scheduler → W → Run Outcome
  after_tick again ticks idle_count rc sched w =
      if is_idle rc
      then (if ltb 100 (idle_count + 1)
          then done (record { failures = 0; ticks = ticks; sched = sched })
          else again ticks (idle_count + 1) sched w)
      else if not (is_ok rc)
      then done (record { failures = 1; ticks = ticks; sched = sched })
      else if ((ticks + 1) % 10000) == 0
      then (proc_at sched 1 >>= λ pa. proc_at sched 2 >>= λ pb.
          if overflown pa || overflown pb
          then done (record { failures = 1; ticks = ticks + 1; sched = sched })
          else again (ticks + 1) 0 sched w)
      else again (ticks + 1) 0 sched w

  -- `while (ticks < STABILITY_TICKS)`
  unfoldable pub tick_loop : ℕ → ℕ → ℕ → Scheduler → W → Run Outcome
  tick_loop zero ticks idle_count sched w = out_of_fuel
  tick_loop (suc fuel) ticks idle_count sched w = elim (ltb ticks limit) [
    | false ↦ done (record { failures = 0; ticks = ticks; sched = sched })
    | true ↦ tick hal 65 sched w >>= λ (rc, sched', w').
        after_tick (λ t i s v. tick_loop fuel t i s v) ticks idle_count rc sched' w'
  ]

  -- The failures of `main`, with `limit` for `STABILITY_TICKS`.
  unfoldable pub stability_failures : ℕ → W → Run ℕ
  stability_failures fuel w = do
    let (pid_a, sched_a) = spawn init prog_producer
    let (pid_b, sched_b) = spawn sched_a prog_consumer
    end ← tick_loop fuel 0 0 sched_b w
    pa ← proc_at end.sched pid_a
    pb ← proc_at end.sched pid_b
    counter ← reg_of pa 0
    processed ← reg_of pb 1
    done (
        check_num 1 pid_a
        + check_num 2 pid_b
        + end.failures
        + check_bool true (leb limit end.ticks)
        + check_bool true (ltb 0 pa.heap.gc_count)
        + check_bool true (ltb 0 pb.heap.gc_count)
        + check_bool true (leb pa.heap.hp pa.heap.capacity)
        + check_bool true (leb pb.heap.hp pb.heap.capacity)
        + check_bool true (not (leb_ℤ (get_smallint counter) (pos 1000)))
        + check_bool true (not (leb_ℤ (get_smallint processed) (pos 1000))))
