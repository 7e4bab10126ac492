-- ===== src/Trap.antt =====
-- The clock interrupt and the timer part of usertrap() of initial-xv6/src/kernel/trap.c: alarms,
-- and the time slices and priority boost of the multi-level queue.
pub mod Boost
pub mod Slices
pub mod Rows
pub mod Overflow
pub mod Turns
pub mod Births
pub mod Deaths
pub mod Steps
use cpu_scheduling_algos.Prelude.{
  ℕ, zero, suc, ◌+◌, ◌-◌, ◌%◌, ◌==◌, ltb, leb, if◌then◌else◌, Bool, true, false, not, ◌&&◌, Option,
  none, some, update, Outcome, done, panic, ◌>>=◌, for_from,
}
use cpu_scheduling_algos.Prelude.Int.{ℤ, pos, int_leb}
use cpu_scheduling_algos.Kalloc.{Memory, kalloc}
use cpu_scheduling_algos.Proc.Frame
use cpu_scheduling_algos.Proc.{
  Proc, Kernel, ProcState, running, runnable, is_running, set_proc, set_state, timesliceq, wrap32,
}
use cpu_scheduling_algos.Queues.{enqueue, dequeue}

-- `memmove(dst, src, n)` from one page to another, for a length of `n` words.
abbrev pub copy_words : ℕ → ℕ → ℕ → Memory → Memory
copy_words n dst src m = record m {
  words = update m.words dst (λ w. if ltb w n then m.words src w else m.words dst w);
}

-- `pa` as a pointer to a page: a null pointer is no page, and its use stops the machine.
abbrev pub page_of : Option ℕ → Outcome ℕ
page_of none = panic
page_of (some pa) = done pa

-- The kernel after a fired alarm that saves the trapframe page `frame` in the new page `tf`.
unfoldable pub jump_to_handler : ℕ → ℕ → ℕ → Memory → Kernel → Kernel
jump_to_handler p tf frame m k =
    let saved = copy_words Frame.size tf frame m in
    let jumped = record saved {
      words = update saved.words frame (update (saved.words frame) Frame.epc (k.procs p).handler);
    } in
    set_proc p (record (k.procs p) { in_alarm_handler = 1; alarm_tf = some tf; cur_ticks = 0 })
      (record k { memory = jumped })

-- The alarm fires: the trapframe is saved in a new page, and the process continues in its handler.
unfoldable pub fire_alarm : ℕ → Kernel → Outcome Kernel
unfolding jump_to_handler
fire_alarm p k = do
  let (page, m) = kalloc k.memory
  tf ← page_of page
  frame ← page_of (k.procs p).trapframe
  done (jump_to_handler p tf frame m k)

-- `p->ticks > 0 && p->cur_ticks >= p->ticks && p->in_alarm_handler == 0`
abbrev pub alarm_due : Proc → Bool
alarm_due p =
    not (int_leb p.ticks (pos 0)) && int_leb p.ticks (pos p.cur_ticks) && p.in_alarm_handler == 0

-- The first block under `which_dev == 2`.
unfoldable pub alarm_tick : ℕ → Kernel → Outcome Kernel
unfolding fire_alarm
alarm_tick p k =
    let k' = set_proc p (record (k.procs p) { cur_ticks = (k.procs p).cur_ticks + 1 }) k in
    if is_running (k.procs p).state
    then if alarm_due (k'.procs p) then fire_alarm p k' else done k'
    else done k

-- One round of the boost's inner loop: the process of entry `j` leaves its queue for queue 0. (A
-- null entry below sizeofq would stop the machine; there is none.)
unfoldable pub boost_entry : ℕ → ℕ → Kernel → Kernel
boost_entry level j k = elim (k.multique level j) [
  | none ↦ k
  | some temp ↦ enqueue temp 0 (dequeue temp (k.procs temp).queue_number k)
]

-- `for (j = 0; j < sizeofq[level]; j++)`, whose bound is read anew in each round.
unfoldable pub boost_level : ℕ → ℕ → ℕ → Kernel → Kernel
boost_level zero level j k = k
boost_level (suc fuel) level j k =
    let rest = boost_level fuel level (j + 1) (boost_entry level j k) in
    if ltb j (k.sizeofq level) then rest else k

-- The priority boost over the levels 1, 2 and 3.
unfoldable pub boost : Kernel → Kernel
unfolding boost_level boost_entry
boost k =
    let k1 = boost_level (k.sizeofq 1) 1 0 k in
    let k2 = boost_level (k1.sizeofq 2) 2 0 k1 in boost_level (k2.sizeofq 3) 3 0 k2

-- The end of a time slice: one queue down, and not below queue 3.
unfoldable pub demote : ℕ → Kernel → Kernel
demote p k =
    let q = (k.procs p).queue_number in
    enqueue p (if ltb 3 (q + 1) then q else q + 1) (dequeue p q k)

-- `sched p` is what the machine does from the call of sched() by process `p` until it returns.
module _ (sched : ℕ → Kernel → Kernel) where
  -- yield()
  unfoldable pub yield_cpu : ℕ → Kernel → Kernel
  yield_cpu p k = sched p (set_state p runnable k)

  -- `for (i = 0; i < p->queue_number; i++) if (sizeofq[i] > 0) yield();` Queue numbers are at most 3.
  unfoldable pub preempt : ℕ → ℕ → ℕ → Kernel → Kernel
  unfolding yield_cpu
  preempt zero i p k = k
  preempt (suc fuel) i p k =
      let rest = preempt fuel (i + 1) p (if ltb 0 (k.sizeofq i) then yield_cpu p k else k) in
      if ltb i (k.procs p).queue_number then rest else k

  -- The block under `#ifdef MLFQ` of usertrap().
  unfoldable pub mlfq_tick : ℕ → Kernel → Kernel
  unfolding preempt boost demote
  mlfq_tick p k =
      let counted = set_proc p (record (k.procs p) { queueticks = (k.procs p).queueticks + 1 }) k in
      let boosted = if k.ticks % 48 == 0 then boost counted else counted in
      let slice = timesliceq (boosted.procs p).queue_number in
      let sliced =
        if leb slice (boosted.procs p).queueticks
        then yield_cpu p (demote p boosted)
        else boosted in
      preempt 4 0 p sliced
