-- ===== src/Waiting.antt =====
-- Sleeping, waking, exiting and reaping in initial-xv6/src/kernel/proc.c.
pub mod Wakeup
pub mod Kill
pub mod Reap
use cpu_scheduling_algos.Prelude.{
  ℕ, zero, suc, ◌+◌, ◌-◌, ◌/◌, ◌%◌, ◌^◌, ◌==◌, ltb, if◌then◌else◌, Bool, true, false, not, ◌&&◌,
  ◌||◌, Option, none, some, List, [], ◌∷◌, update, find_from, for_from, Outcome, done, panic, ◌>>=◌,
}
use cpu_scheduling_algos.Prelude.Int.{ℤ, pos, negsuc, int_eqb}
use cpu_scheduling_algos.Vm.{Vm}
use cpu_scheduling_algos.Proc.{
  Proc, Kernel, ProcState, runnable, sleeping, running, zombie, is_sleeping, is_zombie, is_running,
  Chan, no_chan, proc_chan, chan_eqb, nproc, set_proc, set_state, wrap32,
}
use cpu_scheduling_algos.Queues.{enqueue, dequeue}
use cpu_scheduling_algos.Lifecycle.{freeproc}

-- `p == q` on pointers to processes.
abbrev pub same_proc : Option ℕ → Option ℕ → Bool
same_proc none none = true
same_proc (some i) (some j) = i == j
same_proc _ _ = false

-- One round of wakeup(chan): a sleeper on the channel is made RUNNABLE and queued, its ticks kept.
-- `me` is the process that runs, if any.
unfoldable pub wake : Option ℕ → Chan → ℕ → Kernel → Kernel
wake me chan i k =
    let p = k.procs i in
    let old_ticks = p.queueticks in
    let k' = enqueue i p.queue_number (set_state i runnable k) in
    if not (same_proc (some i) me) && is_sleeping p.state && chan_eqb p.chan chan
    then set_proc i (record (k'.procs i) { queueticks = old_ticks }) k'
    else k

unfoldable pub wakeup : Option ℕ → Chan → Kernel → Kernel
wakeup me chan k = for_from (wake me chan) nproc 0 k

-- sleep(chan, lk) up to its call of sched(): the process leaves its queue.
unfoldable pub fall_asleep : ℕ → Chan → Kernel → Kernel
fall_asleep p chan k =
    dequeue p (k.procs p).queue_number
      (set_proc p (record (k.procs p) { chan = chan; state = sleeping }) k)

-- sleep after sched() has returned.
abbrev pub awake : ℕ → Kernel → Kernel
awake p k = set_proc p (record (k.procs p) { chan = no_chan }) k

-- kill(pid): the first process with the pid is marked, and woken if it sleeps.
unfoldable pub mark_killed : ℕ → Kernel → Kernel
mark_killed i k =
    let marked = set_proc i (record (k.procs i) { killed = 1 }) k in
    if is_sleeping (k.procs i).state
    then enqueue i (k.procs i).queue_number (set_state i runnable marked)
    else marked

unfoldable pub kill : ℤ → Kernel → ℤ × Kernel
kill pid k = elim (find_from (λ i. int_eqb (pos (k.procs i).pid) pid) nproc 0) [
  | none ↦ (negsuc 0, k)
  | some i ↦ (pos 0, mark_killed i k)
]

-- setkilled(p) and killed(p).
abbrev pub setkilled : ℕ → Kernel → Kernel
setkilled p k = set_proc p (record (k.procs p) { killed = 1 }) k

abbrev pub is_killed : Kernel → ℕ → Bool
is_killed k p = not ((k.procs p).killed == 0)

-- The channel of `wakeup(q)` for a pointer to a process.
abbrev pub parent_chan : Option ℕ → Chan
parent_chan none = no_chan
parent_chan (some j) = proc_chan j

-- reparent(p): the children of `p` go to init, which is woken for each.
unfoldable pub reparent_one : ℕ → ℕ → Kernel → Kernel
reparent_one p i k =
    let init = k.initproc in
    let given = set_proc i (record (k.procs i) { parent = init }) k in
    if same_proc (k.procs i).parent (some p) then wakeup (some p) (parent_chan init) given else k

unfoldable pub reparent : ℕ → Kernel → Kernel
reparent p k = for_from (reparent_one p) nproc 0 k

-- exit(status) behind the closing of the files: up to the call of sched(), which does not return.
unfoldable pub exit_locked : ℤ → ℕ → Kernel → Kernel
exit_locked status p k =
    let given = reparent p k in
    let woken = wakeup (some p) (parent_chan (given.procs p).parent) given in
    let dead =
      set_proc p (record (woken.procs p) { xstate = status; state = zombie; etime = woken.ticks })
        woken in
    dequeue p (dead.procs p).queue_number dead

-- exit(status). `close_files` is what closing the open files and the directory does (file.c, log.c,
-- fs.c); the pointers to them are cleared here.
unfoldable pub exit : (ℕ → Kernel → Kernel) → ℤ → ℕ → Kernel → Outcome Kernel
exit close_files status p k =
    let closed = close_files p k in
    let cleared = set_proc p (record (closed.procs p) { ofile = λ _. none; cwd = none }) closed in
    if same_proc (some p) k.initproc then panic else done (exit_locked status p cleared)

-- What one turn of the loop in wait comes to: it returns a value, or it goes to sleep.
pub data Round : Type 0 where
  returns : ℤ → Kernel → Round
  sleeps : Kernel → Round

abbrev pub child_of : Kernel → ℕ → ℕ → Bool
child_of k p i = same_proc (k.procs i).parent (some p)

abbrev pub zombie_child : Kernel → ℕ → ℕ → Bool
zombie_child k p i = child_of k p i && is_zombie (k.procs i).state

-- The exit status as the four bytes that copyout copies.
abbrev pub status_bytes : ℤ → List ℕ
status_bytes status =
    let w : ℕ = elim status [ pos n ↦ n % 2 ^ 32 | negsuc n ↦ (2 ^ 32 - 1 - n % 2 ^ 32) ] in
    w % 256 ∷ w / 256 % 256 ∷ w / 65536 % 256 ∷ w / 16777216 % 256 ∷ []

-- The counters of a reaped child are added to the parent's.
abbrev pub add_counts : ℕ → ℕ → Kernel → Kernel
add_counts p child k =
    set_proc p
      (record (k.procs p) {
        syscall_count = λ n.
            (k.procs p).syscall_count n + (if ltb n 32 then (k.procs child).syscall_count n else 0);
      })
      k

module _ (vm : Vm) where
  -- `addr != 0 && copyout(p->pagetable, addr, &child->xstate, 4) < 0`, and the memory after it. A null
  -- page table stops the machine.
  unfoldable pub copy_status : ℕ → ℕ → ℕ → Kernel → Outcome (Bool × Kernel)
  copy_status addr p child k = elim (k.procs p).pagetable [
    | none ↦ if addr == 0 then done (true, k) else panic
    | some table ↦
        let (copied, m) = vm.copyout table addr (status_bytes (k.procs child).xstate) k.memory in
        if addr == 0 then done (true, k) else done (copied, record k { memory = m })
  ]

  -- The end of a successful wait.
  unfoldable pub finish_reap : ℕ → Bool → Kernel → Outcome Round
  finish_reap child false k = done (returns (negsuc 0) k)
  finish_reap child true k = do
    freed ← freeproc vm child k
    done (returns (pos (k.procs child).pid) freed)

  -- Reaping a zombie in wait: the counters are added before the status is copied.
  unfoldable pub reap : ℕ → ℕ → ℕ → Kernel → Outcome Round
  reap addr p child k = do
    (copied, k') ← copy_status addr p child (add_counts p child k)
    finish_reap child copied k'

  -- No zombie among the children: an error if there are none or the process is killed, else sleep.
  unfoldable pub no_zombie : ℕ → Kernel → Round
  no_zombie p k = elim (find_from (child_of k p) nproc 0) [
    | none ↦ returns (negsuc 0) k
    | some _ ↦
        if is_killed k p then returns (negsuc 0) k else sleeps (fall_asleep p (proc_chan p) k)
  ]

  -- One turn of the loop of wait(addr).
  unfoldable pub wait_round : ℕ → ℕ → Kernel → Outcome Round
  wait_round addr p k = elim (find_from (zombie_child k p) nproc 0) [
    | none ↦ done (no_zombie p k)
    | some child ↦ reap addr p child k
  ]

  -- One turn of the loop of waitx(addr, &wtime, &rtime), with the two times. Unlike wait it adds no
  -- counters. The times are unsigned, and not set where no child is reaped.
  unfoldable pub waitx_round : ℕ → ℕ → Kernel → Outcome (Option (ℕ × ℕ) × Round)
  waitx_round addr p k = elim (find_from (zombie_child k p) nproc 0) [
    | none ↦ done (none, no_zombie p k)
    | some child ↦
        let np = k.procs child in
        let wtime = (np.etime + 2 ^ 32 - np.ctime % 2 ^ 32 + 2 ^ 32 - np.rtime % 2 ^ 32) % 2 ^ 32 in
        do
          (copied, k') ← copy_status addr p child k
          round ← finish_reap child copied k'
          done (some (wtime, np.rtime), round)
  ]

-- update_time(): every RUNNING process has run for one more tick. (It also prints queue numbers.)
unfoldable pub count_runtime : ℕ → Kernel → Kernel
count_runtime i k =
    if is_running (k.procs i).state
    then set_proc i (record (k.procs i) { rtime = wrap32 ((k.procs i).rtime + 1) }) k
    else k

unfoldable pub update_time : Kernel → Kernel
update_time k = for_from count_runtime nproc 0 k
