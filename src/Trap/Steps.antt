-- ===== src/Trap/Steps.antt =====
-- The steps of initial-xv6/src/kernel/proc.c and trap.c that edit the queues, over runs of them.
use cpu_scheduling_algos.Prelude.{ℕ, ◌≤◌, ◌<◌, ◌≡◌, Option, done}
use cpu_scheduling_algos.Prelude.Int.{ℤ}
use cpu_scheduling_algos.Vm.{Vm}
use cpu_scheduling_algos.Proc.{Kernel, nproc, Chan}
use cpu_scheduling_algos.Sched.{mlfq_round}
use cpu_scheduling_algos.Lifecycle.{freeproc, allocproc, fork}
use cpu_scheduling_algos.Waiting.{wakeup, kill, exit_locked, fall_asleep, Round, wait_round}
use cpu_scheduling_algos.Trap.{demote, boost}
use cpu_scheduling_algos.Trap.Rows.{IsOrderly-bounded}
use cpu_scheduling_algos.Trap.Overflow.{
  AllOrderly, KeepsQueues, keeps-AllOrderly, boost-AllOrderly, demote-AllOrderly,
}
use cpu_scheduling_algos.Trap.Turns.{
  mlfq_round-AllOrderly, wakeup-AllOrderly, fall_asleep-AllOrderly,
}
use cpu_scheduling_algos.Trap.Births.{allocproc-AllOrderly, freeproc-AllOrderly, fork-AllOrderly}
use cpu_scheduling_algos.Trap.Deaths.{
  kernel_of, kill-AllOrderly, exit_locked-AllOrderly, wait_round-AllOrderly,
}

-- What the kernel does to its queues, and what it does that leaves them alone.
pub data Step (vm : Vm) : Kernel → Kernel → Type 0 where
  schedules : (k : Kernel) → Step vm k (mlfq_round k).1
  boosts : (k : Kernel) → Step vm k (boost k)
  demotes : (k : Kernel) (p : ℕ) → p < nproc → Step vm k (demote p k)
  wakes : (k : Kernel) (me : Option ℕ) (chan : Chan) → Step vm k (wakeup me chan k)
  sleeps : (k : Kernel) (p : ℕ) (chan : Chan) → Step vm k (fall_asleep p chan k)
  kills : (k : Kernel) (pid : ℤ) → Step vm k (kill pid k).1
  allocates : (k k' : Kernel) (slot : Option ℕ) → allocproc vm k ≡ done (slot, k') → Step vm k k'
  frees : (k k' : Kernel) (i : ℕ) → freeproc vm i k ≡ done k' → Step vm k k'
  forks : (k : Kernel) (me : ℕ) (r : ℤ × Kernel) → fork vm me k ≡ done r → Step vm k r.1
  exits : (k : Kernel) (status : ℤ) (p : ℕ) → Step vm k (exit_locked status p k)
  waits :
      (k : Kernel) (addr p : ℕ) (round : Round)
      → wait_round vm addr p k ≡ done round
      → Step vm k (kernel_of round)
  changes : (k k' : Kernel) → KeepsQueues k k' → Step vm k k'

pub data Run (vm : Vm) (k : Kernel) : Kernel → Type 0 where
  here : Run vm k k
  next : {s t : Kernel} → Run vm k s → Step vm s t → Run vm k t

Step-AllOrderly : (vm : Vm) {s t : Kernel} → Step vm s t → AllOrderly s → AllOrderly t
Step-AllOrderly vm (schedules k) all = mlfq_round-AllOrderly k all
Step-AllOrderly vm (boosts k) all = boost-AllOrderly k all
Step-AllOrderly vm (demotes k p lt) all = demote-AllOrderly p k lt all
Step-AllOrderly vm (wakes k me chan) all = wakeup-AllOrderly me chan k all
Step-AllOrderly vm (sleeps k p chan) all = fall_asleep-AllOrderly p chan k all
Step-AllOrderly vm (kills k pid) all = kill-AllOrderly pid k all
Step-AllOrderly vm (allocates k k' slot e) all = allocproc-AllOrderly vm slot k k' e all
Step-AllOrderly vm (frees k k' i e) all = freeproc-AllOrderly vm i k k' e all
Step-AllOrderly vm (forks k me r e) all = fork-AllOrderly vm me k r e all
Step-AllOrderly vm (exits k status p) all = exit_locked-AllOrderly status p k all
Step-AllOrderly vm (waits k addr p round e) all = wait_round-AllOrderly vm addr p k round e all
Step-AllOrderly vm (changes k k' same) all = keeps-AllOrderly k k' same all

Run-AllOrderly : (vm : Vm) {k k' : Kernel} → Run vm k k' → AllOrderly k → AllOrderly k'
Run-AllOrderly vm here all = all
Run-AllOrderly vm (next r s) all = Step-AllOrderly vm s (Run-AllOrderly vm r all)

-- Over any run of scheduler turns, boosts, demotions, wakeups, sleeps, kills, calls of allocproc,
-- freeproc and fork, exits (behind the closing of the files), turns of wait, and changes that leave the
-- queues alone, no row of the multi-level queue gets longer than its NPROC entries, if at first every
-- queue holds different processes of the table. The pids may change on the way.
pub rows_bounded :
    (vm : Vm) (k k' : Kernel) (q : ℕ) → Run vm k k' → AllOrderly k → k'.sizeofq q ≤ nproc
rows_bounded vm k k' q r all = IsOrderly-bounded k' q (Run-AllOrderly vm r all q)
