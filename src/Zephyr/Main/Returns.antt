-- ===== src/Zephyr/Main/Returns.antt =====
-- `main` of zephyr_app/src/main.c (erts/example/mini_beam_esp32) on programs that build no tuple: it does
-- not fault.
use os_ii.Prelude.{
  is_negative, ℕ, zero, suc, ◌<◌, ◌≡◌, arith, u32_mod, Bool-cases, inl, inr, List, ◌∷◌, length, All,
  Option,
}
use os_ii.Run.{done, Secure, Secure->>=, Secure-Gives, Secure-Returns}
use os_ii.Hal.{Hal}
use os_ii.Process.{max_processes}
use os_ii.Scheduler.{tick}
use os_ii.Scheduler.Safe.Ticks.{SafeSched, tick-SafeSched}
use os_ii.Vm.Safe.Tupleless.{NoTuples}
use os_ii.Zephyr.Enqueue.{Target}
use os_ii.Zephyr.Monitor.{boot_counter_next}
use os_ii.Zephyr.Boot.{Board, task_wdt_start}
use os_ii.Zephyr.Boot.Wait.{wait_dtr_lem}
use os_ii.Zephyr.Boot.Spawns.{spawn_flow-Placed}
use os_ii.Zephyr.MainLoop.{Summary, Loop, Next, running, returned, feed, round}
use os_ii.Zephyr.Main.{Platform, Boot, no_watchdog, booted, start_loop, boot_on, boot, rounds, main}
use os_ii.Zephyr.Main.Steps.{Keeps, main-Keeps}

module _ {W : Type 0} (hal : Hal W) (z : Platform W) where
  abbrev SafeNext : Next W → Type 0
  SafeNext (running line l) = SafeSched l.sched
  SafeNext (returned rc) = Unit

  abbrev SafeBoot : Boot W → Type 0
  SafeBoot (no_watchdog rc) = Unit
  SafeBoot (booted idx_a idx_s targets counter l) = SafeSched l.sched

  feed-SafeNext :
      (line : Option Summary) (l : Loop W)
      → SafeSched l.sched
      → SafeNext (feed z.task_wdt_feed line l)
  unfolding feed
  feed-SafeNext line l h = elim (Bool-cases (is_negative (z.task_wdt_feed l.world).0)) [
    | inl e ↦ rw e tt
    | inr e ↦ rw e h
  ]

  round-SafeNext :
      (idx_a idx_s : ℕ) (l : Loop W)
      → SafeSched l.sched
      → Secure (Unit {0}) SafeNext (round hal z.uptime z.task_wdt_feed idx_a idx_s 65 l)
  unfolding round
  round-SafeNext idx_a idx_s l h =
      Secure->>= Unit (λ x. SafeSched x.1) SafeNext (tick hal 65 l.sched l.world) _
        (tick-SafeSched hal 65 l.sched l.world h) (λ (rc, sched, w) s. feed-SafeNext _ _ s)

  -- A round, and then the others.
  then_rounds :
      (n idx_a idx_s : ℕ)
      → ((l : Loop W)
          → SafeSched l.sched
          → Secure (Unit {0}) SafeNext (rounds z hal n idx_a idx_s l))
      → (x : Next W) → SafeNext x
      → Secure (Unit {0}) SafeNext (elim x [
        | returned rc ↦ done (returned rc)
        | running line l' ↦ rounds z hal n idx_a idx_s l'
      ])
  then_rounds n idx_a idx_s rest (running line l') s = rest l' s
  then_rounds n idx_a idx_s rest (returned rc) s = tt

  rounds-SafeNext :
      (n idx_a idx_s : ℕ) (l : Loop W)
      → SafeSched l.sched
      → Secure (Unit {0}) SafeNext (rounds z hal n idx_a idx_s l)
  unfolding rounds
  rounds-SafeNext zero idx_a idx_s l h = h
  rounds-SafeNext (suc n) idx_a idx_s l h =
      Secure->>= Unit SafeNext SafeNext (round hal z.uptime z.task_wdt_feed idx_a idx_s 65 l) _
        (round-SafeNext idx_a idx_s l h) (then_rounds n idx_a idx_s (rounds-SafeNext n idx_a idx_s))

  module _ (b : Board) (sensor : List ℕ) (sensors : List (List ℕ)) (actuator : List ℕ)
      (room : length (sensor ∷ sensors) < max_processes)
      (tupleless : All NoTuples (sensor ∷ sensors)) (tupleless' : NoTuples actuator) where
    start_loop-SafeBoot :
        (targets : List Target) (counter : ℕ) (w : W)
        → Secure (Unit {0}) SafeBoot (start_loop (sensor ∷ sensors) actuator targets counter w)
    unfolding start_loop
    start_loop-SafeBoot targets counter w =
        let (pid, pids, p) = spawn_flow-Placed sensor sensors actuator room tupleless tupleless' in
        rw (p.sensor, p.found, p.actuator_found) (p.safe)

    boot-SafeBoot : (w : W) → Secure (Unit {0}) SafeBoot (boot z b (sensor ∷ sensors) actuator w)
    unfolding boot boot_on
    boot-SafeBoot w =
        let (w1, waited) =
          wait_dtr_lem z.line_ctrl z.k_msleep 31 0 (z.usb_enable w).1 (omega arith) (omega arith) in
        let power = (boot_counter_next (z.power w1)).1 in
        let wdt =
          task_wdt_start z.task_wdt_init z.task_wdt_add
            (z.set_resetreas (z.resetreas w) (z.set_power power w1)) in
        rw waited (elim (Bool-cases (is_negative wdt.0)) [
          | inl e ↦ rw e tt
          | inr e ↦ rw e (start_loop-SafeBoot _ _ _)
        ])

    main-SafeNext :
        (n : ℕ) (w : W) → Secure (Unit {0}) SafeNext (main z hal n b (sensor ∷ sensors) actuator w)
    unfolding main
    main-SafeNext n w =
        Secure->>= Unit SafeBoot SafeNext (boot z b (sensor ∷ sensors) actuator w) _
          (boot-SafeBoot w) go
      where
        go :
            (x : Boot W)
            → SafeBoot x
            → Secure (Unit {0}) SafeNext (elim x [
              | no_watchdog rc ↦ done (returned rc)
              | booted idx_a idx_s targets counter l ↦ rounds z hal n idx_a idx_s l
            ])
        go (no_watchdog rc) s = tt
        go (booted idx_a idx_s targets counter l) s = rounds-SafeNext n idx_a idx_s l s

  -- The firmware does not fault: with one to seven sensor programs, and none among them and the
  -- actuator's with a byte 0x50, the opcode of `MAKE_TUPLE`, `main` gets to the end of any number of
  -- rounds of its loop below 2 ^ 32, whatever the programs do and on any board, drivers and answers of
  -- Zephyr. It has returned a negative number by then, or it goes on with a scheduler that the calls
  -- reach and with counters that add up.
  pub main-Returns :
      (n : ℕ) (b : Board) (sensor : List ℕ) (sensors : List (List ℕ)) (actuator : List ℕ) (w : W)
      → length (sensor ∷ sensors) < max_processes
      → All NoTuples (sensor ∷ sensors)
      → NoTuples actuator
      → n < u32_mod
      → (end : Next W) × (main z hal n b (sensor ∷ sensors) actuator w ≡ done end) × Keeps hal z end
  main-Returns n b sensor sensors actuator w room tupleless tupleless' small =
      let run = main z hal n b (sensor ∷ sensors) actuator w in
      let (end, e, both) = Secure-Returns _ run (
        Secure-Gives Unit ⊥ SafeNext (Keeps hal z) run
          (main-SafeNext b sensor sensors actuator room tupleless tupleless' n w)
          (main-Keeps hal z n b (sensor ∷ sensors) actuator w small)) in
      (end, e, both.1)
