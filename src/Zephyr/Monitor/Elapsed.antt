-- ===== src/Zephyr/Monitor/Elapsed.antt =====
-- The watchdog rule of zephyr_app/src/main.c (erts/example/mini_beam_esp32), which `main` does not call,
-- and how it counts boots.
use os_ii.Prelude.{
  ℕ, zero, suc, ◌+◌, ◌-◌, ◌%◌, ◌^◌, ◌<◌, ◌≤◌, ◌≡◌, refl, ◌≢◌, inl, inr, ◌↔◌, arith, Bool, true,
  ◌&&◌, leb, List, [], ◌∷◌, Bool-cases, All,
}
use mathlib.Core.Path.{subst}
use mathlib.Core.List.{Memᴰ}
use mathlib.Core.List.Memᴰ
use os_ii.Zephyr.Monitor.{
  Power, boot_magic, next_counter, boot_counter_next, Runtime, elapsed, wdt_degraded_grace_ms,
  should_withhold_wdt_feed,
}

-- The difference of two 32-bit readings of a clock is the time between them, also across the wrap of the
-- clock, if that is below 2 ^ 32 milliseconds.
pub elapsed_lem :
    (start duration : ℕ)
    → duration < 2 ^ 32
    → elapsed ((start + duration) % 2 ^ 32) (start % 2 ^ 32) ≡ duration
unfolding elapsed
elapsed_lem start duration h = ground arith

-- A sensor's runtime, with the time at which it degraded in milliseconds that do not wrap.
pub record Sensor : Type 0 where
  pub runtime : Runtime
  pub since : ℕ

-- The runtime holds the clock's 32-bit reading of that time, which is less than 2 ^ 32 milliseconds ago.
abbrev pub Stamped : ℕ → Sensor → Type 0
Stamped now s =
    (s.runtime.degraded_since_ms ≡ s.since % 2 ^ 32) × (s.since ≤ now) × (now < s.since + 2 ^ 32)

-- Degraded for ten seconds or more.
abbrev pub IsOverdue : ℕ → Sensor → Type 0
IsOverdue now s = (s.runtime.degraded ≡ true) × (s.since + 10000 ≤ now)

abbrev pub runtimes : List Sensor → List Runtime
runtimes [] = []
runtimes (s ∷ ss) = s.runtime ∷ runtimes ss

abbrev overdue : ℕ → Runtime → Bool
overdue now_ms r = r.degraded && leb wdt_degraded_grace_ms (elapsed now_ms r.degraded_since_ms)

elapsed-since :
    (now : ℕ) (s : Sensor)
    → Stamped now s
    → elapsed (now % 2 ^ 32) s.runtime.degraded_since_ms ≡ now - s.since
elapsed-since now s (stamp, past, recent) =
    let split : s.since + (now - s.since) ≡ now = omega arith in
    let here = elapsed_lem s.since (now - s.since) (omega arith) in
    rw stamp (subst (λ n. elapsed (n % 2 ^ 32) (s.since % 2 ^ 32) ≡ now - s.since) split here)

overdue→IsOverdue :
    (now : ℕ) (s : Sensor)
    → Stamped now s
    → overdue (now % 2 ^ 32) s.runtime ≡ true
    → IsOverdue now s
overdue→IsOverdue now s stamped e =
    let same = elapsed-since now s stamped in (ground arith, ground arith)

IsOverdue→overdue :
    (now : ℕ) (s : Sensor)
    → Stamped now s
    → IsOverdue now s
    → overdue (now % 2 ^ 32) s.runtime ≡ true
IsOverdue→overdue now s stamped (degraded, late) =
    let same = elapsed-since now s stamped in ground arith

withheld→IsOverdue :
    (ss : List Sensor) (now : ℕ)
    → All (Stamped now) ss
    → should_withhold_wdt_feed (runtimes ss) (now % 2 ^ 32) ≡ true
    → (s : Sensor) × Memᴰ s ss × IsOverdue now s
unfolding should_withhold_wdt_feed
withheld→IsOverdue [] now h e = absurd (cc)
withheld→IsOverdue (x ∷ xs) now (h, hs) e = elim (Bool-cases (overdue (now % 2 ^ 32) x.runtime)) [
  | inl own ↦ (x, Memᴰ.head refl, overdue→IsOverdue now x h own)
  | inr other ↦
      let (s, one, late) = withheld→IsOverdue xs now hs (ground arith) in (s, Memᴰ.tail one, late)
]

IsOverdue→withheld :
    (ss : List Sensor) (now : ℕ) (s : Sensor)
    → All (Stamped now) ss
    → Memᴰ s ss
    → IsOverdue now s
    → should_withhold_wdt_feed (runtimes ss) (now % 2 ^ 32) ≡ true
unfolding should_withhold_wdt_feed
IsOverdue→withheld [] now s h one late = absurd (Memᴰ.not-nil one)
IsOverdue→withheld (x ∷ xs) now s (h, hs) (Memᴰ.head same) late =
    let own = IsOverdue→overdue now x h (subst (IsOverdue now) same late) in ground arith
IsOverdue→withheld (x ∷ xs) now s (h, hs) (Memᴰ.tail one) late =
    let ih = IsOverdue→withheld xs now s hs one late in ground arith

-- `os2_should_withhold_wdt_feed` returns true exactly if some sensor has been degraded for 10000
-- milliseconds or more, also across the wrap of the 32-bit clock: where the runtimes hold the clock's
-- readings of the times at which the sensors degraded, each less than 2 ^ 32 milliseconds ago, and the
-- function is given its reading of the time now.
pub should_withhold_wdt_feed_lem :
    (ss : List Sensor) (now : ℕ)
    → All (Stamped now) ss
    → (should_withhold_wdt_feed (runtimes ss) (now % 2 ^ 32) ≡ true)
      ↔ ((s : Sensor) × Memᴰ s ss × IsOverdue now s)
should_withhold_wdt_feed_lem ss now h =
    (withheld→IsOverdue ss now h, λ (s, one, late). IsOverdue→withheld ss now s h one late)

-- The registers after a number-- The registers after a number of boots.
unfoldable pub power_after : ℕ → Power → Power
power_after zero power = power
power_after (suc n) power = (boot_counter_next (power_after n power)).1

-- After a power-on, when the register that holds the magic byte does not, the counter of the boots
-- goes from 1 to 255 and then from 1 again: it is never 0.
pub boot_counter_next_lem :
    (power : Power) (n : ℕ)
    → power.gpregret2 % 256 ≢ boot_magic
    → (boot_counter_next (power_after n power)).0 ≡ n % 255 + 1
unfolding boot_counter_next power_after next_counter
boot_counter_next_lem power zero h = ground arith
boot_counter_next_lem power (suc n) h = let ih = boot_counter_next_lem power n h in ground arith
