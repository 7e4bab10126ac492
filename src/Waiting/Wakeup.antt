-- ===== src/Waiting/Wakeup.antt =====
-- wakeup of proc.c over the whole table: whom it wakes, and where the woken processes stand.
use cpu_scheduling_algos.Prelude.{
  ℕ, zero, suc, ◌+◌, ◌<◌, ◌≡◌, ◌≢◌, inl, inr, Bool, not, ◌&&◌, Option, some, arith, ltb, leb, ◌==◌,
  ==_iff, if◌then◌else◌, Bool-cases, for_from,
}
use cpu_scheduling_algos.Proc.{Proc, Kernel, runnable, is_sleeping, Chan, chan_eqb, nproc}
use cpu_scheduling_algos.Queues.{enqueue}
use cpu_scheduling_algos.Waiting.{same_proc, wake, wakeup}

-- Whom wakeup wakes: a sleeper on the channel other than the running process.
abbrev pub wakes : Option ℕ → Chan → ℕ → Proc → Bool
wakes me chan i p = not (same_proc (some i) me) && is_sleeping p.state && chan_eqb p.chan chan

wake_other :
    (me : Option ℕ) (chan : Chan) (i j : ℕ) (k : Kernel)
    → i ≢ j
    → (wake me chan i k).procs j ≡ k.procs j
unfolding wake enqueue
wake_other me chan i j k ne = ground arith

wake_self :
    (me : Option ℕ) (chan : Chan) (i : ℕ) (k : Kernel)
    → (wake me chan i k).procs i
      ≡ (if wakes me chan i (k.procs i) then record (k.procs i) { state = runnable } else k.procs i)
unfolding wake enqueue
wake_self me chan i k = ground arith

wakeup_from :
    (me : Option ℕ) (chan : Chan) (n i j : ℕ) (k : Kernel)
    → (for_from (wake me chan) n i k).procs j ≡ (
        if leb i j && ltb j (i + n) && wakes me chan j (k.procs j)
        then record (k.procs j) { state = runnable }
        else k.procs j)
unfolding for_from
wakeup_from me chan zero i j k = ground arith
wakeup_from me chan (suc n) i j k = elim (Bool-cases (i == j)) [
  | inl e ↦
      let j_is : i ≡ j = (==_iff i j).0 e in
      rw (← j_is)
        (ground (arith, wakeup_from me chan n (i + 1) i (wake me chan i k), wake_self me chan i k))
  | inr ne ↦ ground (
    arith,
    wakeup_from me chan n (i + 1) j (wake me chan i k),
    wake_other me chan i j k (ground arith),
  )
]

-- wakeup makes exactly the processes RUNNABLE that sleep on the channel and are not the running
-- one, and changes nothing else of any process: a woken process keeps its queue number and its ticks.
pub procs-wakeup :
    (me : Option ℕ) (chan : Chan) (j : ℕ) (k : Kernel)
    → j < nproc
    → (wakeup me chan k).procs j
      ≡ (if wakes me chan j (k.procs j) then record (k.procs j) { state = runnable } else k.procs j)
unfolding wakeup
procs-wakeup me chan j k lt = ground (arith, wakeup_from me chan nproc 0 j k)
