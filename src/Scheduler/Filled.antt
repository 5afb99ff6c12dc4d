-- ===== src/Scheduler/Filled.antt =====
-- Spawns of src/mb_scheduler.c (erts/example/mini_beam_esp32) into a table that no process has left: they
-- fill it from its start.
use os_ii.Prelude.{
  ℕ, zero, suc, ◌+◌, ◌≤◌, ◌<◌, ◌≡◌, ◌≢◌, refl, arith, false, Bool-cases, inl, inr, List, length,
  some, ltb, ltb→lt, ltb→le, ◌==◌, ==→eq, ==→ne, replicate,
}
use mathlib.Core.Path.{subst}
use os_ii.Process.{max_processes, init as proc_init, zero_process}
use os_ii.Table.{Table, entry, is_free, sched_proc}
use os_ii.Scheduler.{Scheduler, init, spawn}
use os_ii.Scheduler.Spawn.{Free, SpawnedAt, spawn_lem}

-- The first `k` entries hold a process each, and the others are free.
pub record Filled (k : ℕ) (procs : Table) : Type 0 where
  pub taken : (j : ℕ) → j < k → is_free (entry procs j).state ≡ false
  pub vacant : (j : ℕ) → k ≤ j → j < max_processes → Free procs j

entry-Free : (n j : ℕ) → Free (replicate n zero_process) j
entry-Free zero j = refl
entry-Free (suc n) zero = refl
entry-Free (suc n) (suc j) = entry-Free n j

pub init-Filled : Filled 0 init.procs
unfolding init
init-Filled = record {
  taken = λ j lt. absurd (omega arith);
  vacant = λ j le lt. entry-Free max_processes j;
}

pub Filled-sched_proc :
    (k i : ℕ) (procs : Table)
    → Filled k procs
    → i < k
    → i < max_processes
    → sched_proc procs (i + 1) ≡ some i
unfolding sched_proc
Filled-sched_proc k i procs f lt in_table = ground (arith, f.taken i lt)

-- The first free entry is the one behind the processes.
spawned-index :
    (k i pid : ℕ) (sched after : Scheduler) (program : List ℕ)
    → k < max_processes
    → Filled k sched.procs
    → SpawnedAt sched program i pid after
    → i ≡ k
spawned-index k i pid sched after program lt f s = elim (Bool-cases (ltb i k)) [
  | inl before ↦ absurd (cc (f.taken i (ltb→lt i k before), s.was_free))
  | inr behind ↦ elim (Bool-cases (ltb k i)) [
    | inl past ↦ absurd (s.first k (ltb→lt k i past) (f.vacant k (omega arith) lt))
    | inr here ↦ omega (arith, ltb→le i k behind, ltb→le k i here)
  ]
]

spawned-Filled :
    (k pid : ℕ) (sched after : Scheduler) (program : List ℕ)
    → Filled k sched.procs
    → SpawnedAt sched program k pid after
    → Filled (k + 1) after.procs
unfolding proc_init
spawned-Filled k pid sched after program f s = record {
  taken = λ j lt. elim (Bool-cases (j == k)) [
    | inl same ↦ rw (==→eq j k same, s.fresh) refl
    | inr other ↦ let ne : j ≢ k = ==→ne j k other in rw (s.others j ne) (f.taken j (omega arith))
  ];
  vacant = λ j le lt.
      let ne : j ≢ k = λ e. omega arith in rw (s.others j ne) (f.vacant j (omega arith) lt);
}

-- With room left a spawn fills the next entry, and returns its pid.
pub spawn-Filled :
    (k : ℕ) (sched : Scheduler) (program : List ℕ)
    → length sched.procs ≡ max_processes
    → k < max_processes
    → Filled k sched.procs
    → ((spawn sched program).0 ≡ k + 1) × Filled (k + 1) (spawn sched program).1.procs
spawn-Filled k sched program size lt f = elim (spawn_lem sched program size) [
  | inl (_, _, full) ↦ absurd (full k lt (f.vacant k (omega arith) lt))
  | inr (i, s) ↦
      let here : i ≡ k = spawned-index k i _ sched _ program lt f s in
      let s' =
        subst (λ x. SpawnedAt sched program x (spawn sched program).0 (spawn sched program).1) here
          s in
      (s'.named, spawned-Filled k _ sched _ program f s')
]
