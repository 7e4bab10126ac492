-- ===== src/Sched.antt =====
-- scheduler() of initial-xv6/src/kernel/proc.c under its three build options, and rand().
-- A function `…_round` is one turn of the endless loop up to swtch: the process that the CPU
-- switches to, if any, and the kernel at that moment.
pub mod Lottery
pub mod Ties
pub mod Draw
pub mod Interval
pub mod Levels
pub mod Pick
pub mod RoundRobin
use Prim.Native.Nat.{bit_and}
use cpu_scheduling_algos.Prelude.{
  ℕ, zero, suc, ◌+◌, ◌*◌, ◌%◌, ◌^◌, ◌==◌, ltb, if◌then◌else◌, Bool, true, false, not, ◌&&◌, ◌||◌,
  Option, none, some, List, [], ◌∷◌, find_from, for_from,
}
use cpu_scheduling_algos.Prelude.Int.{ℤ, pos, ◌+ℤ◌, int_leb, int_eqb, word_of, wrap_int}
use cpu_scheduling_algos.Proc.{Proc, Kernel, running, is_runnable, nproc, set_proc, set_state}
use cpu_scheduling_algos.Queues.{enqueue}

-- rand(): `seed = (LCG_A * seed + LCG_C) & LCG_M` in 64 bits, returned as an unsigned int.
unfoldable pub rand : Kernel → ℕ × Kernel
rand k =
    let seed = bit_and ((1664525 * k.seed + 1013904223) % 2 ^ 64) 0xFFFFFFFF in
    (seed % 2 ^ 32, record k { seed = seed })

-- rand_at_max(parameter), for a parameter other than -1: the remainder is that of unsigned ints.
unfoldable pub rand_at_max : ℤ → Kernel → ℤ × Kernel
unfolding rand wrap_int ◌+ℤ◌
rand_at_max parameter k =
    let (r, k') = rand k in (wrap_int (pos (r % word_of (parameter +ℤ pos 1))), k')

abbrev pub runnable_at : Kernel → ℕ → Bool
runnable_at k i = is_runnable (k.procs i).state

-- `sum += p->tickets`, which wraps around.
unfoldable pub add_tickets : Kernel → ℕ → ℤ → ℤ
unfolding wrap_int ◌+ℤ◌
add_tickets k i sum = wrap_int (sum +ℤ (k.procs i).tickets)

-- Step 1 of LBS: the tickets of all RUNNABLE processes from `i` on.
unfoldable pub total_tickets : Kernel → ℕ → ℕ → ℤ → ℤ
total_tickets k zero i total = total
total_tickets k (suc n) i total =
    total_tickets k n (i + 1) (if runnable_at k i then add_tickets k i total else total)

-- The first RUNNABLE process at which the sum of tickets reaches the drawn value.
unfoldable pub draw_winner : Kernel → ℕ → ℕ → ℤ → ℤ → Option ℕ
draw_winner k zero i sum value = none
draw_winner k (suc n) i sum value =
    let sum' = if runnable_at k i then add_tickets k i sum else sum in
    if runnable_at k i && int_leb value sum' then some i else draw_winner k n (i + 1) sum' value

-- The tie-break: among the RUNNABLE processes with as many tickets, an earlier arrival wins.
unfoldable pub break_ties : Kernel → ℕ → ℕ → ℕ → ℕ
break_ties k zero i winner = winner
break_ties k (suc n) i winner =
    let p = k.procs i in
    let w = k.procs winner in
    let skip = not (is_runnable p.state) || not (int_eqb p.tickets w.tickets) in
    break_ties k n (i + 1)
      (if skip then winner else if ltb p.arrival_time w.arrival_time then i else winner)

unfoldable pub lbs_winner : Kernel → ℤ → Option ℕ
lbs_winner k value = elim (draw_winner k nproc 0 (pos 0) value) [
  | none ↦ none
  | some w ↦ some (break_ties k nproc 0 w)
]

-- `if (p->state == RUNNABLE) { p->state = RUNNING; swtch(…); }`
unfoldable pub dispatch : Option ℕ → Kernel → Option ℕ × Kernel
dispatch none k = (none, k)
dispatch (some i) k = if runnable_at k i then (some i, set_state i running k) else (none, k)

-- The scheduler under -DLBS.
unfoldable pub lbs_round : Kernel → Option ℕ × Kernel
lbs_round k =
    let total = total_tickets k nproc 0 (pos 0) in
    let (r, k') = rand_at_max total k in
    if int_leb total (pos 0) then (none, k) else dispatch (lbs_winner k (wrap_int (r +ℤ pos 1))) k'

-- Under -DMLFQ: every RUNNABLE process is put into the queue of its number, its ticks kept.
unfoldable pub requeue : ℕ → Kernel → Kernel
requeue i k =
    let old_ticks = (k.procs i).queueticks in
    let k' = enqueue i (k.procs i).queue_number k in
    if runnable_at k i then set_proc i (record (k'.procs i) { queueticks = old_ticks }) k' else k

-- `multique[level][j]->state == RUNNABLE`
abbrev pub runnable_entry : Kernel → Option ℕ → Bool
runnable_entry k none = false
runnable_entry k (some i) = runnable_at k i

-- The search of one level, and of the levels from `level` on.
unfoldable pub pick_level : Kernel → ℕ → Option ℕ
unfolding find_from
pick_level k level =
    elim (find_from (λ j. runnable_entry k (k.multique level j)) (k.sizeofq level) 0) [
      | none ↦ none
      | some j ↦ k.multique level j
    ]

unfoldable pub pick_from : Kernel → ℕ → ℕ → Option ℕ
unfolding pick_level
pick_from k zero level = none
pick_from k (suc n) level = elim (pick_level k level) [
  | none ↦ pick_from k n (level + 1)
  | some p ↦ some p
]

-- The scheduler under -DMLFQ.
unfoldable pub mlfq_round : Kernel → Option ℕ × Kernel
mlfq_round k = let k' = for_from requeue nproc 0 k in dispatch (pick_from k' 4 0) k'

-- The default scheduler passes over the table once for each turn of its loop. `switch i` is what
-- the machine does from the swtch to process `i` until the scheduler runs again.
unfoldable pub rr_pass : (ℕ → Kernel → Kernel) → ℕ → ℕ → Kernel → List ℕ × Kernel
rr_pass switch zero i k = ([], k)
rr_pass switch (suc n) i k =
    let (ran, k') =
      rr_pass switch n (i + 1) (if runnable_at k i then switch i (set_state i running k) else k) in
    (if runnable_at k i then i ∷ ran else ran, k')
