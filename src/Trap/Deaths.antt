-- ===== src/Trap/Deaths.antt =====
-- The order of the queues after exit, wait and kill of initial-xv6/src/kernel/proc.c.
use cpu_scheduling_algos.Prelude.{
  ℕ, ◌<◌, ◌≡◌, sym, ◌∙◌, subst, inl, inr, Bool, true, false, some, arith, Bool-cases, Option-cases,
  ◌==◌, find_from, find_from-some, for_from_inv, done, >>=-eq-done,
}
use cpu_scheduling_algos.Prelude.Int.{ℤ, pos, int_eqb}
use cpu_scheduling_algos.Vm.{Vm}
use cpu_scheduling_algos.Proc.{
  Kernel, nproc, runnable, zombie, is_sleeping, proc_chan, set_proc, set_state,
}
use cpu_scheduling_algos.Lifecycle.{freeproc}
use cpu_scheduling_algos.Waiting.{
  same_proc, parent_chan, wakeup, mark_killed, kill, reparent_one, reparent, exit_locked, Round,
  returns, sleeps, child_of, zombie_child, is_killed, add_counts, copy_status, finish_reap, reap,
  no_zombie, wait_round,
}
use cpu_scheduling_algos.Trap.Overflow.{
  AllOrderly, KeepsQueues, keeps-AllOrderly, enqueue-AllOrderly, dequeue-AllOrderly,
}
use cpu_scheduling_algos.Trap.Turns.{set_proc-AllOrderly, wakeup-AllOrderly, fall_asleep-AllOrderly}
use cpu_scheduling_algos.Trap.Births.{freeproc-AllOrderly}

mark_killed-AllOrderly :
    (i : ℕ) (k : Kernel) → i < nproc → AllOrderly k → AllOrderly (mark_killed i k)
unfolding mark_killed
mark_killed-AllOrderly i k lt all =
    let marked = set_proc i (record (k.procs i) { killed = 1 }) k in
    let marked_all : AllOrderly marked = set_proc-AllOrderly i _ k all in
    elim (Bool-cases (is_sleeping (k.procs i).state)) [
      | inl s ↦ rw s (
          enqueue-AllOrderly i (k.procs i).queue_number (set_state i runnable marked) lt
            (set_proc-AllOrderly i _ marked marked_all))
      | inr s ↦ rw s marked_all
    ]

pub kill-AllOrderly : (pid : ℤ) (k : Kernel) → AllOrderly k → AllOrderly (kill pid k).1
unfolding kill
kill-AllOrderly pid k all =
    elim (Option-cases (find_from (λ i. int_eqb (pos (k.procs i).pid) pid) nproc 0)) [
      | inl e ↦ rw (e, kill) all
      | inr (i, e) ↦
          let (t, lo, hi) = find_from-some (λ i. int_eqb (pos (k.procs i).pid) pid) nproc 0 i e in
          rw (e, kill) (mark_killed-AllOrderly i k (omega arith) all)
    ]

reparent_one-AllOrderly : (p i : ℕ) (k : Kernel) → AllOrderly k → AllOrderly (reparent_one p i k)
unfolding reparent_one
reparent_one-AllOrderly p i k all = elim (Bool-cases (same_proc (k.procs i).parent (some p))) [
  | inl t ↦
      rw t (wakeup-AllOrderly (some p) (parent_chan k.initproc) _ (set_proc-AllOrderly i _ k all))
  | inr f ↦ rw f all
]

reparent-AllOrderly : (p : ℕ) (k : Kernel) → AllOrderly k → AllOrderly (reparent p k)
unfolding reparent
reparent-AllOrderly p k all =
    for_from_inv (λ i s. AllOrderly s) (reparent_one p) nproc
      (λ i s lt. reparent_one-AllOrderly p i s) nproc 0 k (omega arith) all

pub exit_locked-AllOrderly :
    (status : ℤ) (p : ℕ) (k : Kernel) → AllOrderly k → AllOrderly (exit_locked status p k)
unfolding exit_locked
exit_locked-AllOrderly status p k all =
    let given = reparent p k in
    let woken = wakeup (some p) (parent_chan (given.procs p).parent) given in
    let dead =
      set_proc p (record (woken.procs p) { xstate = status; state = zombie; etime = woken.ticks })
        woken in
    dequeue-AllOrderly p (dead.procs p).queue_number dead (
      set_proc-AllOrderly p _ woken (
        wakeup-AllOrderly (some p) (parent_chan (given.procs p).parent) given
          (reparent-AllOrderly p k all)))

-- The kernel after one turn of the loop of wait.
abbrev pub kernel_of : Round → Kernel
kernel_of (returns value k) = k
kernel_of (sleeps k) = k

module _ (vm : Vm) where
  no_zombie-AllOrderly :
      (p : ℕ) (k : Kernel) → AllOrderly k → AllOrderly (kernel_of (no_zombie vm p k))
  unfolding no_zombie
  no_zombie-AllOrderly p k all = elim (Option-cases (find_from (child_of k p) nproc 0)) [
    | inl e ↦ rw (e, no_zombie) all
    | inr (i, e) ↦ elim (Bool-cases (is_killed k p)) [
      | inl t ↦ rw (e, t, no_zombie) all
      | inr f ↦ rw (e, f, no_zombie) (fall_asleep-AllOrderly p (proc_chan p) k all)
    ]
  ]

  copy_status-KeepsQueues :
      (addr p child : ℕ) (copied : Bool) (k k' : Kernel)
      → copy_status vm addr p child k ≡ done (copied, k')
      → KeepsQueues k k'
  unfolding copy_status
  copy_status-KeepsQueues addr p child copied k k' h = elim (Option-cases (k.procs p).pagetable) [
    | inl e ↦ elim (Bool-cases (addr == 0)) [
      | inl z ↦ record { rows = ground arith; sizes = ground arith }
      | inr z ↦ record { rows = ground arith; sizes = ground arith }
    ]
    | inr (table, e) ↦ elim (Bool-cases (addr == 0)) [
      | inl z ↦ record { rows = ground arith; sizes = ground arith }
      | inr z ↦ record { rows = ground arith; sizes = ground arith }
    ]
  ]

  finish_reap-AllOrderly :
      (child : ℕ) (copied : Bool) (k : Kernel) (round : Round)
      → finish_reap vm child copied k ≡ done round
      → AllOrderly k
      → AllOrderly (kernel_of round)
  unfolding finish_reap
  finish_reap-AllOrderly child false k round h all =
      let is : k ≡ kernel_of round = cc h in subst AllOrderly is all
  finish_reap-AllOrderly child true k round h all =
      let (freed, e, e') = >>=-eq-done (freeproc vm child k) _ h in
      let is : freed ≡ kernel_of round = cc e' in
      subst AllOrderly is (freeproc-AllOrderly vm child k freed e all)

  reap-AllOrderly :
      (addr p child : ℕ) (k : Kernel) (round : Round)
      → reap vm addr p child k ≡ done round
      → AllOrderly k
      → AllOrderly (kernel_of round)
  unfolding reap
  reap-AllOrderly addr p child k round h all =
      let counted = add_counts p child k in
      let (a, e, e') = >>=-eq-done (copy_status vm addr p child counted) _ h in
      finish_reap-AllOrderly child a.0 a.1 round e' (
        keeps-AllOrderly counted a.1 (copy_status-KeepsQueues addr p child a.0 counted a.1 e)
          (set_proc-AllOrderly p _ k all))

  pub wait_round-AllOrderly :
      (addr p : ℕ) (k : Kernel) (round : Round)
      → wait_round vm addr p k ≡ done round
      → AllOrderly k
      → AllOrderly (kernel_of round)
  unfolding wait_round
  wait_round-AllOrderly addr p k round h all =
      elim (Option-cases (find_from (zombie_child k p) nproc 0)) [
        | inl e ↦
            let is : wait_round vm addr p k ≡ done (no_zombie vm p k) = rw (e, wait_round) in
            let same : no_zombie vm p k ≡ round = cc in rw (← same) (no_zombie-AllOrderly p k all)
        | inr (child, e) ↦
            let is : wait_round vm addr p k ≡ reap vm addr p child k = rw (e, wait_round) in
            reap-AllOrderly addr p child k round (sym is ∙ h) all
      ]
