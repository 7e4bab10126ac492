-- ===== src/Waiting/Kill.antt =====
-- kill of proc.c: which process it marks, and what becomes of a slot that it marks by mistake.
use cpu_scheduling_algos.Prelude.{
  ℕ, ◌<◌, ◌≡◌, ◌≢◌, ◌⊎◌, ap, ◌∙◌, inl, inr, true, false, some, arith, if◌then◌else◌, Option-cases,
  find_from, find_from-some, find_from_is, find_from-none, find_from_least, done,
}
use cpu_scheduling_algos.Prelude.Int.{ℤ, pos, negsuc, int_eqb}
use cpu_scheduling_algos.Vm.{Vm}
use cpu_scheduling_algos.Proc.{Kernel, runnable, is_sleeping, nproc}
use cpu_scheduling_algos.Queues.{enqueue}
use cpu_scheduling_algos.Lifecycle.{unused_at, allocproc}
use cpu_scheduling_algos.Lifecycle.Alloc.{allocproc_lem}
use cpu_scheduling_algos.Waiting.{kill, mark_killed}

-- The first slot of the table that holds a pid.
pub record IsFirstPid (k : Kernel) (pid i : ℕ) : Type 0 where
  pub inside : i < nproc
  pub same : (k.procs i).pid ≡ pid
  pub earlier : (j : ℕ) → j < i → (k.procs j).pid ≢ pid

-- What kill does to the process that it finds.
pub record Marked (k k' : Kernel) (i : ℕ) : Type 0 where
  pub killed : (k'.procs i).killed ≡ 1
  pub state :
      (k'.procs i).state ≡ (if is_sleeping (k.procs i).state then runnable else (k.procs i).state)
  pub pid : (k'.procs i).pid ≡ (k.procs i).pid
  pub others : (j : ℕ) → i ≢ j → k'.procs j ≡ k.procs j

mark_killed-Marked : (i : ℕ) (k : Kernel) → Marked k (mark_killed i k) i
unfolding mark_killed enqueue
mark_killed-Marked i k = record {
  killed = ground arith;
  state = ground arith;
  pid = ground arith;
  others = λ j ne. ground arith;
}

-- No slot of the table holds the pid.
abbrev pub NoPid : Kernel → ℕ → Type 0
NoPid k pid = (j : ℕ) → j < nproc → (k.procs j).pid ≢ pid

pid_is :
    (k : Kernel) (pid i : ℕ)
    → int_eqb (pos (k.procs i).pid) (pos pid) ≡ true
    → (k.procs i).pid ≡ pid
pid_is k pid i h = ground arith

pid_differs :
    (k : Kernel) (pid i : ℕ)
    → int_eqb (pos (k.procs i).pid) (pos pid) ≡ false
    → (k.procs i).pid ≢ pid
pid_differs k pid i h e = ground arith

kill_at :
    (k : Kernel) (pid i : ℕ) → IsFirstPid k pid i → kill (pos pid) k ≡ (pos 0, mark_killed i k)
unfolding kill
kill_at k pid i first =
    let found =
      find_from_is (λ j. int_eqb (pos (k.procs j).pid) (pos pid)) nproc 0 i (omega arith)
        (omega (arith, first.inside)) (ground (arith, first.same))
        (λ j lo hi. ground (arith, first.earlier j hi)) in
    rw (found, kill)

-- kill(pid) returns 0 if a slot of the table holds the pid: it sets `killed` on the first such slot,
-- makes its process RUNNABLE if it sleeps, and touches no other process. Otherwise it returns -1
-- and changes nothing.
pub kill_lem :
    (k : Kernel) (pid : ℕ)
    → ((i : ℕ) × IsFirstPid k pid i
        × ((kill (pos pid) k).0 ≡ pos 0)
        × Marked k (kill (pos pid) k).1 i)
      ⊎ (NoPid k pid × (kill (pos pid) k ≡ (negsuc 0, k)))
unfolding kill
kill_lem k pid =
    let test = λ (i : ℕ). int_eqb (pos (k.procs i).pid) (pos pid) in
    elim (Option-cases (find_from test nproc 0)) [
      | inl e ↦ inr (
        λ j lt. pid_differs k pid j (find_from-none test nproc 0 j e (omega arith) (omega arith)),
        rw (e, kill),
      )
      | inr (i, e) ↦
          let (t, lo, hi) = find_from-some test nproc 0 i e in
          let first : IsFirstPid k pid i = record {
            inside = omega arith;
            same = pid_is k pid i t;
            earlier =
                λ j lt. pid_differs k pid j (find_from_least test nproc 0 i j e (omega arith) lt);
          } in
          let at = kill_at k pid i first in
          inl (i, first, ap (λ (r : ℤ × Kernel). r.0) at, rw at (mark_killed-Marked i k))
    ]

-- A slot that is free holds pid 0, so kill(0) reports success on the first free slot. The mark
-- stays: a process that allocproc puts into that slot next is killed from its start.
pub kill_zero :
    (vm : Vm) (k k' : Kernel) (i : ℕ)
    → IsFirstPid k 0 i
    → unused_at k i ≡ true
    → allocproc vm (kill (pos 0) k).1 ≡ done (some i, k')
    → ((kill (pos 0) k).0 ≡ pos 0) × ((k'.procs i).killed ≡ 1)
kill_zero vm k k' i first free made =
    let at = kill_at k 0 i first in
    let (lt, t, least, a) = allocproc_lem vm (kill (pos 0) k).1 i k' made in
    (ap (λ (r : ℤ × Kernel). r.0) at, a.killed ∙ rw at (mark_killed-Marked i k).killed)
