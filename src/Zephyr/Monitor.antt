-- ===== src/Zephyr/Monitor.antt =====
-- The boot counter and the watchdog rule of zephyr_app/src/main.c (erts/example/mini_beam_esp32).
pub mod Elapsed
use os_ii.Prelude.{
  ℕ, ◌+◌, ◌-◌, ◌%◌, leb, ◌==◌, ◌&&◌, ◌||◌, Bool, false, not, if◌then◌else◌, List, [], ◌∷◌, u32_mod,
  Option, none, some,
}

-- The two retained registers, of which the low byte is used.
pub record Power : Type 0 where
  pub gpregret : ℕ
  pub gpregret2 : ℕ

abbrev pub boot_magic : ℕ
boot_magic = 0xA5

-- `counter` after its increment, which skips 0.
unfoldable pub next_counter : ℕ → ℕ
next_counter counter = let n = (counter + 1) % 256 in if n == 0 then 1 else n

unfoldable pub boot_counter_next : Power → ℕ × Power
boot_counter_next power =
    let fresh = not ((power.gpregret2 % 256) == boot_magic) in
    let n = next_counter (if fresh then 0 else power.gpregret % 256) in
    (n, record { gpregret = n; gpregret2 = if fresh then boot_magic else power.gpregret2 })

-- `os2_sensor_runtime_t`
pub record Runtime : Type 0 where
  pub id : ℕ
  pub degraded : Bool
  pub read_count : ℕ
  pub consecutive_errors : ℕ
  pub backoff_until_ms : ℕ
  pub degraded_since_ms : ℕ

-- The index of the runtime that `os2_find_runtime` returns, `none` for `NULL`.
unfoldable pub find_runtime : List Runtime → ℕ → Option ℕ
find_runtime [] sensor_id = none
find_runtime (r ∷ rs) sensor_id =
    if r.id == sensor_id
    then some 0
    else elim (find_runtime rs sensor_id) [ none ↦ none | some i ↦ some (i + 1) ]

abbrev pub wdt_degraded_grace_ms : ℕ
wdt_degraded_grace_ms = 10000

-- `now_ms - since` of two `uint32_t`.
unfoldable pub elapsed : ℕ → ℕ → ℕ
elapsed now_ms since = (now_ms + u32_mod - since) % u32_mod

unfoldable pub should_withhold_wdt_feed : List Runtime → ℕ → Bool
should_withhold_wdt_feed [] now_ms = false
should_withhold_wdt_feed (r ∷ rs) now_ms =
    (r.degraded && leb wdt_degraded_grace_ms (elapsed now_ms r.degraded_since_ms))
    || should_withhold_wdt_feed rs now_ms
