-- ===== src/Zephyr/Scan.antt =====
-- The sensor scan of zephyr_app/src/main.c (erts/example/mini_beam_esp32). What a probe of a sensor
-- gives is a parameter: the bus and its time limit are Zephyr's.
pub mod Found
use Prim.Native.Nat.{bit_and}
use os_ii.Prelude.{ℕ, ◌+◌, ◌%◌, ltb, ◌==◌, ◌&&◌, if◌then◌else◌, List, [], ◌∷◌, ◌++◌, length, Bool}
use os_ii.Zephyr.Enqueue.{Target}

-- `os2_sensor_sig_t`; the name is the number of the string among those of the table.
pub record Sig : Type 0 where
  pub name : ℕ
  pub bus : ℕ
  pub addr : ℕ
  pub reg : ℕ
  pub expected : ℕ
  pub mask : ℕ

abbrev sig : ℕ → ℕ → ℕ → ℕ → ℕ → ℕ → Sig
sig name bus addr reg expected mask = record {
  name = name;
  bus = bus;
  addr = addr;
  reg = reg;
  expected = expected;
  mask = mask;
}

-- `os2_sensor_sigs`
abbrev pub sensor_sigs : List Sig
sensor_sigs =
    sig 0 0 0x68 0x75 0x68 0x7E
    ∷ sig 1 1 0x6A 0x0F 0x68 0xFF
    ∷ sig 2 1 0x1C 0x0F 0x3D 0xFF
    ∷ sig 3 1 0x6A 0x0F 0x69 0xFF
    ∷ sig 4 1 0x6A 0x0F 0x6C 0xFF
    ∷ sig 5 1 0x68 0x00 0x24 0xFF
    ∷ sig 6 1 0x10 0x40 0x32 0xFF
    ∷ sig 7 1 0x39 0x92 0xAB 0xFF
    ∷ sig 8 1 0x5F 0x0F 0xBC 0xFF
    ∷ sig 9 1 0x5C 0x0F 0xB1 0xFF
    ∷ sig 10 0 0x76 0xD0 0x60 0xFF
    ∷ sig 10 0 0x77 0xD0 0x60 0xFF
    ∷ sig 10 1 0x76 0xD0 0x60 0xFF
    ∷ sig 10 1 0x77 0xD0 0x60 0xFF
    ∷ []

-- What a probe gives: the bus is not ready, the probe timed out or failed, or the byte that was read.
pub data Probe : Type 0 where
  not_ready timed_out failed : Probe
  value : ℕ → Probe

-- `(value & sig->mask) == (sig->expected & sig->mask)`
unfoldable pub matches : Sig → ℕ → Bool
matches s v = bit_and v s.mask == bit_and s.expected s.mask

-- The targets found so far, in order, and `next_id`.
pub record Targets : Type 0 where
  pub found : List Target
  pub next_id : ℕ

unfoldable pub add_target : Sig → Targets → Targets
add_target s t = record {
  found =
      t.found
      ++ (record { name = s.name; id = t.next_id; bus = s.bus; addr = s.addr; reg = s.reg } ∷ []);
  next_id = (t.next_id + 1) % 256;
}

-- One round of the loop.
unfoldable pub scan_one : ℕ → Sig → Probe → Targets → Targets
scan_one max_targets s (value v) t =
    if ltb (length t.found) max_targets && matches s v then add_target s t else t
scan_one max_targets s _ t = t

unfoldable pub scan_sigs : ℕ → (Sig → Probe) → List Sig → Targets → Targets
scan_sigs max_targets probe [] t = t
scan_sigs max_targets probe (s ∷ ss) t =
    scan_sigs max_targets probe ss (scan_one max_targets s (probe s) t)

-- `os2_i2c_signature_scan`
unfoldable pub i2c_signature_scan : ℕ → (Sig → Probe) → Targets
i2c_signature_scan max_targets probe =
    scan_sigs max_targets probe sensor_sigs (record { found = []; next_id = 1 })
