-- ===== src/Zephyr/Main/Steps.antt =====
-- What `main` of zephyr_app/src/main.c (erts/example/mini_beam_esp32) keeps from its start on.
use os_ii.Prelude.{
  is_negative, ℕ, zero, suc, ◌+◌, ◌≤◌, ◌<◌, u32_mod, ◌≡◌, refl, arith, true, Bool-cases, inl, inr,
  List, Option,
}
use os_ii.Run.{Run, done, fault, out_of_fuel, Gives, Gives->>=, Gives-free}
use os_ii.Status.{Status}
use os_ii.Hal.{Hal}
use os_ii.Scheduler.{Scheduler, tick}
use os_ii.Scheduler.Reach.{Reached}
use os_ii.Zephyr.Boot.{Board}
use os_ii.Zephyr.MainLoop.{
  Telemetry, Summary, Loop, Next, running, returned, round, account, feed, count_result,
  count_event, track_depth, summarize,
}
use os_ii.Zephyr.MainLoop.Tally.{Tallied, GoesOn, round-Tallied}
use os_ii.Zephyr.Main.Boots.{Good, GoodBoot, boot-GoodBoot}
use os_ii.Zephyr.Main.{Platform, Boot, no_watchdog, booted, boot, rounds, main}

module _ {W : Type 0} (hal : Hal W) (z : Platform W) where
  -- The loop goes on with a reached scheduler and counters that add up, or `main` has returned a
  -- negative number.
  abbrev pub Keeps : Next W → Type 0
  Keeps (running line l) = Reached hal l.sched × Tallied l.telemetry
  Keeps (returned rc) = is_negative rc ≡ true

  -- A round counts one tick, or starts the count anew.
  account-few :
      (idx_a idx_s : ℕ) (rc : Status) (sched : Scheduler) (now_ms : ℕ) (t : Telemetry)
      → (account idx_a idx_s rc sched now_ms t).1.tick_count ≤ t.tick_count + 1
  unfolding account count_result count_event track_depth summarize
  account-few idx_a idx_s rc sched now_ms t = ground arith

  -- The count is at most `n`.
  abbrev Few : ℕ → Next W → Type 0
  Few n (running line l) = l.telemetry.tick_count ≤ n
  Few n (returned rc) = Unit

  -- What a round leaves, with its count.
  abbrev After : ℕ → Next W → Type 0
  After n (running line l) = Good hal z n l
  After n (returned rc) = is_negative rc ≡ true

  feed-Few :
      (n : ℕ) (line : Option Summary) (l : Loop W)
      → l.telemetry.tick_count ≤ n
      → Few n (feed z.task_wdt_feed line l)
  unfolding feed
  feed-Few n line l h = elim (Bool-cases (is_negative (z.task_wdt_feed l.world).0)) [
    | inl e ↦ rw e tt
    | inr e ↦ rw e h
  ]

  round-Few :
      (idx_a idx_s n : ℕ) (l : Loop W)
      → l.telemetry.tick_count ≤ n
      → Gives (Unit {0}) (Few (n + 1)) (round hal z.uptime z.task_wdt_feed idx_a idx_s 65 l)
  unfolding round
  round-Few idx_a idx_s n l h =
      Gives->>= Unit (λ _. Unit {0}) (Few (n + 1)) (tick hal 65 l.sched l.world) _
        (Gives-free _ (tick hal 65 l.sched l.world) (λ _. tt))
        λ (rc, sched, w) _.
          feed-Few (n + 1) _ _
            (omega (arith, account-few idx_a idx_s rc sched (z.uptime w).0 l.telemetry))

  both :
      (idx_a idx_s n : ℕ) (r : Run (Next W))
      → Gives ⊥ (GoesOn hal z.uptime z.task_wdt_feed idx_a idx_s) r
      → Gives (Unit {0}) (Few n) r
      → Gives ⊥ (After n) r
  both idx_a idx_s n (done (running line l)) (reached, tallied, _) few = record {
    reached = reached;
    tallied = tallied;
    few = few;
  }
  both idx_a idx_s n (done (returned rc)) e few = rw e refl
  both idx_a idx_s n fault e few = tt
  both idx_a idx_s n out_of_fuel e few = e

  -- A round, and then the others.
  then_rounds :
      (n idx_a idx_s k : ℕ)
      → ((l : Loop W) → Good hal z k l → Gives ⊥ Keeps (rounds z hal n idx_a idx_s l))
      → (x : Next W) → After k x
      → Gives ⊥ Keeps (elim x [
        | returned rc ↦ done (returned rc)
        | running line l' ↦ rounds z hal n idx_a idx_s l'
      ])
  then_rounds n idx_a idx_s k rest (running line l') g = rest l' g
  then_rounds n idx_a idx_s k rest (returned rc) g = g

  rounds-Keeps :
      (n idx_a idx_s before : ℕ) (l : Loop W)
      → Good hal z before l
      → before + n < u32_mod
      → Gives ⊥ Keeps (rounds z hal n idx_a idx_s l)
  unfolding rounds
  rounds-Keeps zero idx_a idx_s before l good small = (good.reached, good.tallied)
  rounds-Keeps (suc n) idx_a idx_s before l good small =
      Gives->>= ⊥ (After (before + 1)) Keeps (round hal z.uptime z.task_wdt_feed idx_a idx_s 65 l) _
        (both idx_a idx_s (before + 1) _
          (round-Tallied hal z.uptime z.task_wdt_feed idx_a idx_s 65 l good.reached good.tallied
            (omega (arith, good.few)) (omega arith))
          (round-Few idx_a idx_s before l good.few))
        (then_rounds n idx_a idx_s (before + 1)
          (λ l' g. rounds-Keeps n idx_a idx_s (before + 1) l' g (omega arith)))

  -- The firmware runs on: from its start, on any boards, programs, drivers and answers of Zephyr, and
  -- for fewer rounds of its loop than 2 ^ 32, no loop of `main` uses up its rounds. If `main` does not
  -- fault, it has returned a negative number, or it goes on with a scheduler that the calls reach and
  -- with counters that add up.
  pub main-Keeps :
      (n : ℕ) (b : Board) (sensors : List (List ℕ)) (actuator : List ℕ) (w : W)
      → n < u32_mod
      → Gives ⊥ Keeps (main z hal n b sensors actuator w)
  unfolding main
  main-Keeps n b sensors actuator w small =
      Gives->>= ⊥ (GoodBoot hal z) Keeps (boot z b sensors actuator w) _
        (boot-GoodBoot hal z b sensors actuator w) go
    where
      go :
          (x : Boot W)
          → (GoodBoot hal z) x
          → Gives ⊥ Keeps (elim x [
            | no_watchdog rc ↦ done (returned rc)
            | booted idx_a idx_s targets counter l ↦ rounds z hal n idx_a idx_s l
          ])
      go (no_watchdog rc) g = g
      go (booted idx_a idx_s targets counter l) g = rounds-Keeps n idx_a idx_s 0 l g (omega arith)
