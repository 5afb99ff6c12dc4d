-- ===== src/Scheduler/Pick.antt =====
-- The round-robin choice of `mb_sched_tick` in src/mb_scheduler.c
-- (erts/example/mini_beam_esp32): which process gets the next slice, and how much nearer it
-- brings the others.
use os_ii.Prelude.{
  ℕ, zero, suc, ◌+◌, ◌-◌, ◌%◌, ◌<◌, ◌≡◌, refl, ◌≢◌, arith, true, false, Option, none, some,
  if◌then◌else◌, Bool, ap, sym, ◌∙◌, ◌↔◌,
}
use mathlib.Core.Path.{subst}
use os_ii.Process.{max_processes}
use os_ii.Table.{Table, entry, is_ready}
use os_ii.Scheduler.{next_ready}

abbrev pub Ready : Table → ℕ → Type 0
Ready procs i = is_ready (entry procs i).state ≡ true

-- The choice among the `n` entries from step `i` on: a ready one with none ready before it, or no
-- ready entry among them.
abbrev Choice : ℕ → Table → ℕ → ℕ → Option ℕ → Type 0
Choice n procs start i none = (k : ℕ) → k < n → ¬ Ready procs ((start + i + k) % max_processes)
Choice n procs start i (some idx) =
    (k : ℕ) × (k < n)
    × (idx ≡ (start + i + k) % max_processes)
    × Ready procs idx
    × ((l : ℕ) → l < k → ¬ Ready procs ((start + i + l) % max_processes))

-- If the entry at step `i` is not ready, nor the `m` after it, then none of the `m + 1`.
none_before :
    (procs : Table) (start i m : ℕ)
    → ¬ Ready procs ((start + i) % max_processes)
    → ((k : ℕ) → k < m → ¬ Ready procs ((start + (i + 1) + k) % max_processes))
    → (k : ℕ) → k < suc m
    → ¬ Ready procs ((start + i + k) % max_processes)
none_before procs start i m first rest zero lt r =
    let same : start + i + zero ≡ start + i = omega arith in
    first (subst (λ x. Ready procs (x % max_processes)) same r)
none_before procs start i m first rest (suc k) lt r =
    let same : start + i + suc k ≡ start + (i + 1) + k = omega arith in
    rest k (omega arith) (subst (λ x. Ready procs (x % max_processes)) same r)

next_ready-Choice :
    (n : ℕ) (procs : Table) (start i : ℕ) → Choice n procs start i (next_ready n procs start i)
unfolding next_ready
next_ready-Choice zero procs start i = λ k lt. absurd (omega arith)
next_ready-Choice (suc n) procs start i =
    step (is_ready (entry procs ((start + i) % max_processes)).state) refl
      (next_ready n procs start (i + 1)) (next_ready-Choice n procs start (i + 1))
  where
    step :
        (b : Bool)
        → is_ready (entry procs ((start + i) % max_processes)).state ≡ b
        → (o : Option ℕ) → Choice n procs start (i + 1) o
        → Choice (suc n) procs start i (if b then some ((start + i) % max_processes) else o)
    step true e o c =
        (0, omega arith, ap (λ x. x % max_processes) (omega arith), e, λ l lt. absurd (omega arith))
    step false e none c = none_before procs start i n (λ r. cc) c
    step false e (some idx) (k, lt, at, r, before) = (
      suc k,
      omega arith,
      at ∙ ap (λ x. x % max_processes) (omega arith),
      r,
      none_before procs start i k (λ q. cc) before,
    )

-- How many entries the scan passes from `current` to `j`.
abbrev pub distance : ℕ → ℕ → ℕ
distance current j = (j + max_processes - current) % max_processes

at_distance :
    (c j : ℕ) → c < max_processes → j < max_processes → (c + 0 + distance c j) % max_processes ≡ j
at_distance c j hc hj = omega arith

passed_before :
    (procs : Table) (c k j : ℕ)
    → c < max_processes
    → j < max_processes
    → ((l : ℕ) → l < k → ¬ Ready procs ((c + 0 + l) % max_processes))
    → distance c j < k
    → ¬ Ready procs j
passed_before procs c k j hc hj before lt r =
    before (distance c j) lt (subst (λ x. Ready procs x) (sym (at_distance c j hc hj)) r)

chosen :
    (procs : Table) (c idx : ℕ)
    → next_ready max_processes procs c 0 ≡ some idx
    → Choice max_processes procs c 0 (some idx)
chosen procs c idx e =
    subst (Choice max_processes procs c 0) e (next_ready-Choice max_processes procs c 0)

chosen_none :
    (procs : Table) (c : ℕ)
    → c < max_processes
    → next_ready max_processes procs c 0 ≡ none
    → (j : ℕ) → j < max_processes
    → ¬ Ready procs j
chosen_none procs c hc e j hj =
    passed_before procs c max_processes j hc hj
      (subst (Choice max_processes procs c 0) e (next_ready-Choice max_processes procs c 0))
      (omega arith)

none_of :
    (procs : Table) (c : ℕ) (o : Option ℕ)
    → ((j : ℕ) → j < max_processes → ¬ Ready procs j)
    → Choice max_processes procs c 0 o
    → o ≡ none
none_of procs c none h ch = refl
none_of procs c (some idx) h (k, lt, at, r, before) = absurd (h idx (omega arith) r)

-- With `current` in range, `mb_sched_tick` picks a process exactly if one is ready, the one it
-- picks is ready, and no entry between the place where the scan starts and the one it picks is.
pub next_ready_lem :
    (procs : Table) (current : ℕ)
    → current < max_processes
    → ((next_ready max_processes procs current 0 ≡ none)
        ↔ ((j : ℕ) → j < max_processes → ¬ Ready procs j))
      × ((idx : ℕ)
          → next_ready max_processes procs current 0 ≡ some idx
          → (idx < max_processes)
            × Ready procs idx
            × ((j : ℕ)
                → j < max_processes
                → distance current j < distance current idx
                → ¬ Ready procs j))
next_ready_lem procs c hc = (
  (chosen_none procs c hc, λ h. none_of procs c _ h (next_ready-Choice max_processes procs c 0)),
  λ idx e.
      let (k, lt, at, r, before) = chosen procs c idx e in
      (omega arith, r, λ j hj near. passed_before procs c k j hc hj before (omega arith)),
)

-- With both indices in range, a slice for another process brings the turn of a ready process nearer.
pub next_ready-distance :
    (procs : Table) (current idx j : ℕ)
    → current < max_processes
    → j < max_processes
    → Ready procs j
    → next_ready max_processes procs current 0 ≡ some idx
    → idx ≢ j
    → distance ((idx + 1) % max_processes) j < distance current j
next_ready-distance procs c idx j hc hj r e ne =
    let (k, lt, at, _, before) = chosen procs c idx e in
    let near : ¬ (distance c j < k) = λ d. passed_before procs c k j hc hj before d r in omega arith
