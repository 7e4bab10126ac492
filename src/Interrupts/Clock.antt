-- ===== src/Interrupts/Clock.antt =====
-- clockintr of trap.c, seen from one process.
use cpu_scheduling_algos.Prelude.{
  ℕ, zero, suc, ◌+◌, ◌<◌, ◌≡◌, ◌==◌, ==_iff, ◌≢◌, subst, if◌then◌else◌, ◌&&◌, Bool-cases, inl, inr,
  arith, Option, for_from, leb, ltb,
}
use cpu_scheduling_algos.Proc.{Proc, Kernel, runnable, is_running, ticks_chan, nproc, wrap32}
use cpu_scheduling_algos.Waiting.{update_time, count_runtime}
use cpu_scheduling_algos.Waiting.Wakeup.{wakes, procs-wakeup}
use cpu_scheduling_algos.Interrupts.{clockintr}

-- The process after one more tick of its run time, if it runs.
abbrev pub timed : Proc → Proc
timed p = if is_running p.state then record p { rtime = wrap32 (p.rtime + 1) } else p

count_self : (i : ℕ) (k : Kernel) → (count_runtime i k).procs i ≡ timed (k.procs i)
unfolding count_runtime
count_self i k = ground arith

count_other : (i j : ℕ) (k : Kernel) → i ≢ j → (count_runtime i k).procs j ≡ k.procs j
unfolding count_runtime
count_other i j k ne = ground arith

count_from :
    (n i j : ℕ) (k : Kernel)
    → (for_from count_runtime n i k).procs j
      ≡ (if leb i j && ltb j (i + n) then timed (k.procs j) else k.procs j)
unfolding for_from
count_from zero i j k = ground arith
count_from (suc n) i j k = elim (Bool-cases (i == j)) [
  | inl e ↦
      let j_is : i ≡ j = (==_iff i j).0 e in
      rw (← j_is) (ground (arith, count_from n (i + 1) i (count_runtime i k), count_self i k))
  | inr ne ↦
      ground (arith, count_from n (i + 1) j (count_runtime i k), count_other i j k (ground arith))
]

procs-update_time : (j : ℕ) (k : Kernel) → j < nproc → (update_time k).procs j ≡ timed (k.procs j)
unfolding update_time
procs-update_time j k lt = ground (arith, count_from nproc 0 j k)

-- A clock tick counts one tick of run time for every process that runs, and makes every process
-- RUNNABLE that sleeps on the clock, whichever came first; it changes nothing else of any process.
pub procs-clockintr :
    (me : Option ℕ) (j : ℕ) (k : Kernel)
    → j < nproc
    → let p = timed (k.procs j) in
      (clockintr me k).procs j
      ≡ (if wakes me ticks_chan j p then record p { state = runnable } else p)
unfolding clockintr
procs-clockintr me j k lt =
    let ticked : Kernel = record k { ticks = wrap32 (k.ticks + 1) } in
    subst
      (λ p.
        (clockintr me k).procs j
        ≡ (if wakes me ticks_chan j p then record p { state = runnable } else p))
      (procs-update_time j ticked lt) (procs-wakeup me ticks_chan j (update_time ticked) lt)
