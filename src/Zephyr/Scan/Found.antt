-- ===== src/Zephyr/Scan/Found.antt =====
-- What the sensor scan of zephyr_app/src/main.c (erts/example/mini_beam_esp32) reports.
use mathlib.Core.List.{Memᴰ}
use os_ii.Prelude.{
  ℕ, ◌+◌, ◌<◌, ◌≤◌, ◌≡◌, refl, arith, true, ◌&&◌, ltb, Bool-cases, inl, inr, List, [], ◌∷◌, ◌++◌,
  length, length-append, All, All-append,
}
use os_ii.Zephyr.Enqueue.{Target}
use os_ii.Zephyr.Scan.{
  Sig, sensor_sigs, Probe, not_ready, timed_out, failed, value, matches, Targets, add_target,
  scan_one, scan_sigs, i2c_signature_scan,
}

-- The targets have the ids from `n` on, in order.
abbrev pub Numbered : ℕ → List Target → Type 0
Numbered n [] = Unit
Numbered n (t ∷ ts) = (t.id ≡ n) × Numbered (n + 1) ts

Numbered-append :
    (n : ℕ) (ts : List Target) (t : Target)
    → Numbered n ts
    → t.id ≡ n + length ts
    → Numbered n (ts ++ (t ∷ []))
Numbered-append n [] t h e = (ground arith, tt)
Numbered-append n (x ∷ ts) t h e = (h.0, Numbered-append (n + 1) ts t h.1 (omega arith))

-- The target stands for a signature of the table whose sensor has answered with the byte expected.
pub record Answered (probe : Sig → Probe) (target : Target) : Type 0 where
  pub sig : Sig
  pub listed : Memᴰ sig sensor_sigs
  pub byte : ℕ
  pub read : probe sig ≡ value byte
  pub expected : matches sig byte ≡ true
  pub bus : target.bus ≡ sig.bus
  pub addr : target.addr ≡ sig.addr
  pub reg : target.reg ≡ sig.reg

-- At most `max_targets` targets, with the ids 1, 2, 3 and so on, each of a sensor that has answered.
pub record IsScan (max_targets : ℕ) (probe : Sig → Probe) (t : Targets) : Type 0 where
  pub bounded : length t.found ≤ max_targets
  pub next : t.next_id ≡ length t.found + 1
  pub numbered : Numbered 1 t.found
  pub answered : All (Answered probe) t.found

scan_one-IsScan :
    (max_targets : ℕ) (probe : Sig → Probe) (s : Sig) (p : Probe) (t : Targets)
    → max_targets < 255
    → Memᴰ s sensor_sigs
    → probe s ≡ p
    → IsScan max_targets probe t
    → IsScan max_targets probe (scan_one max_targets s p t)
unfolding scan_one add_target
scan_one-IsScan max_targets probe s not_ready t lt mem e h = h
scan_one-IsScan max_targets probe s timed_out t lt mem e h = h
scan_one-IsScan max_targets probe s failed t lt mem e h = h
scan_one-IsScan max_targets probe s (value v) t lt mem e h =
    elim (Bool-cases (ltb (length t.found) max_targets && matches s v)) [
      | inr skipped ↦ rw skipped h
      | inl hit ↦
          let target : Target = record {
            name = s.name;
            id = t.next_id;
            bus = s.bus;
            addr = s.addr;
            reg = s.reg;
          } in
          let new : Answered probe target = record {
            sig = s;
            listed = mem;
            byte = v;
            read = e;
            expected = ground arith;
            bus = refl;
            addr = refl;
            reg = refl;
          } in
          rw hit (record {
            bounded = ground (arith, length-append t.found (target ∷ []));
            next = ground (arith, length-append t.found (target ∷ []));
            numbered = Numbered-append 1 t.found target h.numbered (ground arith);
            answered = All-append (Answered probe) t.found (target ∷ []) h.answered (new, tt);
          })
    ]

scan_sigs-IsScan :
    (max_targets : ℕ) (probe : Sig → Probe) (ss : List Sig) (t : Targets)
    → max_targets < 255
    → ((s : Sig) → Memᴰ s ss → Memᴰ s sensor_sigs)
    → IsScan max_targets probe t
    → IsScan max_targets probe (scan_sigs max_targets probe ss t)
unfolding scan_sigs
scan_sigs-IsScan max_targets probe [] t lt sub h = h
scan_sigs-IsScan max_targets probe (s ∷ ss) t lt sub h =
    scan_sigs-IsScan max_targets probe ss _ lt (λ x mem. sub x (Memᴰ.tail mem))
      (scan_one-IsScan max_targets probe s (probe s) t lt (sub s (Memᴰ.head refl)) refl h)

-- For fewer than 255 targets, and whatever the probes give, the scan reports at most as many as there
-- is room for, with the ids 1, 2, 3 and so on in order, each for a signature of the table whose
-- sensor has answered with the byte expected under its mask.
pub i2c_signature_scan-IsScan :
    (max_targets : ℕ) (probe : Sig → Probe)
    → max_targets < 255
    → IsScan max_targets probe (i2c_signature_scan max_targets probe)
unfolding i2c_signature_scan
i2c_signature_scan-IsScan max_targets probe lt =
    scan_sigs-IsScan max_targets probe sensor_sigs _ lt (λ s mem. mem)
      (record { bounded = omega arith; next = refl; numbered = tt; answered = tt })
