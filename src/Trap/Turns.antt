-- ===== src/Trap/Turns.antt =====
-- The order of the queues after a turn of the scheduler, a wakeup and a sleep (initial-xv6/src/kernel/proc.c).
use cpu_scheduling_algos.Prelude.{
  ℕ, ◌<◌, ◌≡◌, refl, sym, subst, inl, inr, not, ◌&&◌, Option, none, some, arith, Bool-cases,
  for_from, for_from_inv,
}
use cpu_scheduling_algos.Proc.{
  Proc, Kernel, nproc, runnable, sleeping, is_sleeping, Chan, chan_eqb, set_proc, set_state,
}
use cpu_scheduling_algos.Queues.{enqueue}
use cpu_scheduling_algos.Sched.{requeue, dispatch, pick_from, mlfq_round, runnable_at}
use cpu_scheduling_algos.Waiting.{same_proc, wake, wakeup, fall_asleep}
use cpu_scheduling_algos.Trap.Overflow.{
  AllOrderly, keeps-AllOrderly, enqueue-AllOrderly, dequeue-AllOrderly,
}

-- A change of one process.
pub set_proc-AllOrderly :
    (i : ℕ) (p : Proc) (k : Kernel) → AllOrderly k → AllOrderly (set_proc i p k)
set_proc-AllOrderly i p k all =
    keeps-AllOrderly k (set_proc i p k) (record { rows = refl; sizes = refl }) all

requeue-AllOrderly : (i : ℕ) (k : Kernel) → i < nproc → AllOrderly k → AllOrderly (requeue i k)
unfolding requeue enqueue
requeue-AllOrderly i k lt all = elim (Bool-cases (runnable_at k i)) [
  | inl run ↦
      let k' = enqueue i (k.procs i).queue_number k in
      let is : requeue i k
          ≡ set_proc i (record (k'.procs i) { queueticks = (k.procs i).queueticks }) k' =
        rw (run, requeue) in
      subst AllOrderly (sym is) (
        set_proc-AllOrderly i (record (k'.procs i) { queueticks = (k.procs i).queueticks }) k'
          (enqueue-AllOrderly i (k.procs i).queue_number k lt all))
  | inr idle ↦ let is : requeue i k ≡ k = rw (idle, requeue) in subst AllOrderly (sym is) all
]

wake-AllOrderly :
    (me : Option ℕ) (chan : Chan) (i : ℕ) (k : Kernel)
    → i < nproc
    → AllOrderly k
    → AllOrderly (wake me chan i k)
unfolding wake enqueue
wake-AllOrderly me chan i k lt all =
    let p = k.procs i in
    let woken = set_state i runnable k in
    let k' = enqueue i p.queue_number woken in
    elim (Bool-cases (not (same_proc (some i) me) && is_sleeping p.state && chan_eqb p.chan chan)) [
      | inl hit ↦
          let is : wake me chan i k
              ≡ set_proc i (record (k'.procs i) { queueticks = p.queueticks }) k' =
            rw (hit, wake) in
          subst AllOrderly (sym is) (
            set_proc-AllOrderly i (record (k'.procs i) { queueticks = p.queueticks }) k'
              (enqueue-AllOrderly i p.queue_number woken lt
                (set_proc-AllOrderly i (record p { state = runnable }) k all)))
      | inr miss ↦ let is : wake me chan i k ≡ k = rw (miss, wake) in subst AllOrderly (sym is) all
    ]

pub wakeup-AllOrderly :
    (me : Option ℕ) (chan : Chan) (k : Kernel) → AllOrderly k → AllOrderly (wakeup me chan k)
unfolding wakeup
wakeup-AllOrderly me chan k all =
    for_from_inv (λ i s. AllOrderly s) (wake me chan) nproc
      (λ i s lt. wake-AllOrderly me chan i s lt) nproc 0 k (omega arith) all

requeues-AllOrderly : (k : Kernel) → AllOrderly k → AllOrderly (for_from requeue nproc 0 k)
requeues-AllOrderly k all =
    for_from_inv (λ i s. AllOrderly s) requeue nproc (λ i s lt. requeue-AllOrderly i s lt) nproc 0 k
      (omega arith) all

dispatch-AllOrderly : (who : Option ℕ) (k : Kernel) → AllOrderly k → AllOrderly (dispatch who k).1
unfolding dispatch
dispatch-AllOrderly none k all = all
dispatch-AllOrderly (some i) k all =
    keeps-AllOrderly k (dispatch (some i) k).1
      (record { rows = ground arith; sizes = ground arith }) all

pub mlfq_round-AllOrderly : (k : Kernel) → AllOrderly k → AllOrderly (mlfq_round k).1
unfolding mlfq_round
mlfq_round-AllOrderly k all =
    let s = for_from requeue nproc 0 k in
    dispatch-AllOrderly (pick_from s 4 0) s (requeues-AllOrderly k all)

pub fall_asleep-AllOrderly :
    (p : ℕ) (chan : Chan) (k : Kernel) → AllOrderly k → AllOrderly (fall_asleep p chan k)
unfolding fall_asleep
fall_asleep-AllOrderly p chan k all =
    dequeue-AllOrderly p (k.procs p).queue_number
      (set_proc p (record (k.procs p) { chan = chan; state = sleeping }) k)
      (set_proc-AllOrderly p (record (k.procs p) { chan = chan; state = sleeping }) k all)
