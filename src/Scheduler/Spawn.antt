-- ===== src/Scheduler/Spawn.antt =====
-- What `mb_sched_spawn` of src/mb_scheduler.c (erts/example/mini_beam_esp32) does to the table.
use os_ii.Prelude.{
  ℕ, zero, suc, ◌+◌, ◌%◌, ◌<◌, ◌≤◌, ◌≡◌, refl, ◌≢◌, ◌⊎◌, inl, inr, arith, Bool, true, false,
  Bool-cases, List, length, set, get_or-set_self, get_or-set_ne, Option, none, some, if◌then◌else◌,
  sym, leb,
}
use mathlib.Core.Path.{subst}
use os_ii.Process.{zero_process, max_processes, pid_none, init as proc_init}
use os_ii.Table.{Table, entry, is_free, sched_proc}
use os_ii.Scheduler.{Scheduler, first_free, spawn}

abbrev pub Free : Table → ℕ → Type 0
Free procs i = is_free (entry procs i).state ≡ true

-- The first free entry of the `n` from `i` on, or none of them is free.
abbrev First : ℕ → Table → ℕ → Option ℕ → Type 0
First n procs i none = (j : ℕ) → i ≤ j → j < i + n → ¬ Free procs j
First n procs i (some k) =
    (i ≤ k) × (k < i + n) × Free procs k × ((j : ℕ) → i ≤ j → j < k → ¬ Free procs j)

-- An entry that is not free, and none of those behind it up to a bound.
taken_from :
    (procs : Table) (i bound : ℕ)
    → is_free (entry procs i).state ≡ false
    → ((j : ℕ) → i + 1 ≤ j → j < bound → ¬ Free procs j)
    → (j : ℕ) → i ≤ j
    → j < bound
    → ¬ Free procs j
taken_from procs i bound taken rest j le lt f = elim (Bool-cases (leb (i + 1) j)) [
  | inl behind ↦ rest j (ground arith) lt f
  | inr here ↦
      let same : i ≡ j = ground arith in
      absurd (let e = subst (λ x. is_free (entry procs x).state ≡ false) same taken in cc)
]

first_free-First : (n : ℕ) (procs : Table) (i : ℕ) → First n procs i (first_free n procs i)
unfolding first_free
first_free-First zero procs i = λ j le lt. absurd (omega arith)
first_free-First (suc n) procs i =
    step (is_free (entry procs i).state) refl (first_free n procs (i + 1))
      (first_free-First n procs (i + 1))
  where
    step :
        (b : Bool)
        → is_free (entry procs i).state ≡ b
        → (o : Option ℕ) → First n procs (i + 1) o
        → First (suc n) procs i (if b then some i else o)
    step true e o c = (omega arith, omega arith, e, λ j le lt. absurd (omega arith))
    step false e none c = taken_from procs i (i + suc n) e (λ j le lt. c j le (omega arith))
    step false e (some k) (le, lt, f, before) =
        (omega arith, omega arith, f, taken_from procs i k e before)

-- The scheduler after a spawn into entry `i`.
pub record SpawnedAt (sched : Scheduler) (program : List ℕ) (i pid : ℕ) (after : Scheduler)
    : Type 0 where
  pub in_table : i < max_processes
  pub was_free : Free sched.procs i
  pub first : (j : ℕ) → j < i → ¬ Free sched.procs j
  pub named : pid ≡ i + 1
  pub found : sched_proc after.procs pid ≡ some i
  pub fresh : entry after.procs i ≡ proc_init (i + 1) program
  pub others : (j : ℕ) → j ≢ i → entry after.procs j ≡ entry sched.procs j

abbrev pub Outcome : Scheduler → List ℕ → ℕ × Scheduler → Type 0
Outcome sched program (pid, after) =
    ((pid ≡ pid_none) × (after ≡ sched) × ((j : ℕ) → j < max_processes → ¬ Free sched.procs j))
    ⊎ ((i : ℕ) × SpawnedAt sched program i pid after)

fresh-found :
    (procs : Table) (i : ℕ) (program : List ℕ)
    → i < max_processes
    → entry procs i ≡ proc_init (i + 1) program
    → sched_proc procs (i + 1) ≡ some i
unfolding sched_proc proc_init
fresh-found procs i program lt e = ground arith

-- In a table of eight entries, `mb_sched_spawn` returns `MB_PID_NONE` and changes nothing if no entry
-- is free. Otherwise it puts a fresh process with the program into the first free entry, returns that
-- entry's index plus one, by which `mb_sched_proc` then finds it, and leaves every other entry alone.
pub spawn_lem :
    (sched : Scheduler) (program : List ℕ)
    → length sched.procs ≡ max_processes
    → Outcome sched program (spawn sched program)
unfolding spawn
spawn_lem sched program len =
    outcome (first_free max_processes sched.procs 0) (first_free-First max_processes sched.procs 0)
  where
    outcome :
        (o : Option ℕ)
        → First max_processes sched.procs 0 o
        → Outcome sched program (elim o as (λ _. ℕ × Scheduler) [
          | none ↦ (pid_none, sched)
          | some i ↦ (
            i + 1,
            record sched {
              procs = set sched.procs i (proc_init (i + 1) program);
              count = (sched.count + 1) % 256;
            },
          )
        ])
    outcome none c = inl (refl, refl, λ j lt. c j (omega arith) (omega arith))
    outcome (some i) (le, lt, f, before) =
        let fresh : entry (set sched.procs i (proc_init (i + 1) program)) i
            ≡ proc_init (i + 1) program =
          get_or-set_self sched.procs i (proc_init (i + 1) program) zero_process (omega arith) in
        inr (
          i,
          record {
            in_table = omega arith;
            was_free = f;
            first = λ j near. before j (omega arith) near;
            named = refl;
            found =
                fresh-found (set sched.procs i (proc_init (i + 1) program)) i program (omega arith)
                  fresh;
            fresh = fresh;
            others = λ j ne.
                get_or-set_ne sched.procs i j (proc_init (i + 1) program) zero_process
                  (λ e. ne (sym e));
          },
        )
