-- ===== src/Tests/Lives.antt =====
-- Creating, killing, waking and reaping processes at concrete tables.
use cpu_scheduling_algos.Prelude.{
  ℕ, ◌+◌, ◌<◌, ◌≡◌, refl, ◌==◌, if◌then◌else◌, true, false, none, some, arith, done, find_from,
}
use cpu_scheduling_algos.Prelude.Int.{pos, negsuc}
use cpu_scheduling_algos.Kalloc.{kalloc}
use cpu_scheduling_algos.Proc.{Kernel, runnable, sleeping, zombie, ticks_chan, nproc}
use cpu_scheduling_algos.Queues.{dequeue, find_entry}
use cpu_scheduling_algos.Trap.{alarm_due}
use cpu_scheduling_algos.Lifecycle.{
  allocproc, unused_at, alloc_slot, alloc_table, finish_alloc, install, map_slot, claim_slot,
  allocpid, clear_proc, freeproc, free_page, free_pagetable, proc_pagetable, map_trapframe,
  check_trapframe,
}
use cpu_scheduling_algos.Lifecycle.Alloc.{Allocated, allocproc_lem, stale_alarm}
use cpu_scheduling_algos.Waiting.{wakeup, kill, mark_killed, returns, wait_round, zombie_child}
use cpu_scheduling_algos.Waiting.Wakeup.{wakes, procs-wakeup}
use cpu_scheduling_algos.Waiting.Kill.{kill_zero}
use cpu_scheduling_algos.Waiting.Reap.{wait_counts_twice}
use cpu_scheduling_algos.Tests.World.{free_slot, kernel_with, easy_vm}

-- Every slot is free; the first one was left by a process in its alarm handler.
abbrev stale : Kernel
stale = kernel_with (λ i. if i == 0 then record free_slot { in_alarm_handler = 1 } else free_slot)

-- What allocproc makes of a kernel whose first slot is free.
abbrev made : Kernel → Kernel
unfolding allocpid
made k = install easy_vm 0 (
    map_slot easy_vm 0 (some 7) (kalloc k.memory).1
      (claim_slot easy_vm 0 k.nextpid (some 4096) (kalloc k.memory).1 (allocpid k).1))

makes : allocproc easy_vm stale ≡ done (some 0, made stale)
unfolding allocproc alloc_slot alloc_table finish_alloc proc_pagetable map_trapframe check_trapframe
    kalloc allocpid find_from made claim_slot
makes = refl

allocproc_lem_example :
    (0 < nproc)
    × (unused_at stale 0 ≡ true)
    × ((j : ℕ) → j < 0 → unused_at stale j ≡ false)
    × Allocated stale (made stale) 0
allocproc_lem_example = allocproc_lem easy_vm stale 0 (made stale) makes

-- A process that ended in its alarm handler, with no pages left, and the kernel after freeproc.
abbrev ended : Kernel
ended = kernel_with (λ i.
    if i == 0
    then record free_slot { state = zombie; pid = 4; in_alarm_handler = 1 }
    else free_slot)

abbrev swept : Kernel
unfolding clear_proc
swept = clear_proc 0 ended

sweeps : freeproc easy_vm 0 ended ≡ done swept
unfolding freeproc free_page free_pagetable swept
sweeps = refl

reuses : allocproc easy_vm swept ≡ done (some 0, made swept)
unfolding allocproc find_from alloc_slot alloc_table finish_alloc proc_pagetable map_trapframe
    check_trapframe kalloc allocpid made claim_slot clear_proc dequeue find_entry
reuses = refl

stale_alarm_example :
    (((made swept).procs 0).in_alarm_handler ≡ 1)
    × (alarm_due (record ((made swept).procs 0) { ticks = pos 2; cur_ticks = 9 }) ≡ false)
stale_alarm_example =
    stale_alarm easy_vm ended swept (made swept) 0 (pos 2) 9 (omega arith) sweeps reuses

-- The process in slot 1 sleeps on the clock.
abbrev dozing : Kernel
dozing = kernel_with (λ i.
    if i == 1 then record free_slot { state = sleeping; pid = 3; chan = ticks_chan } else free_slot)

procs-wakeup_example : (wakeup none ticks_chan dozing).procs 1 ≡ (
    if wakes none ticks_chan 1 (dozing.procs 1)
    then record (dozing.procs 1) { state = runnable }
    else dozing.procs 1)
procs-wakeup_example = procs-wakeup none ticks_chan 1 dozing (omega arith)

abbrev hit : Kernel
unfolding kill
hit = (kill (pos 0) stale).1

makes_hit : allocproc easy_vm hit ≡ done (some 0, made hit)
unfolding allocproc alloc_slot alloc_table finish_alloc proc_pagetable map_trapframe check_trapframe
    kalloc allocpid find_from made hit kill mark_killed claim_slot
makes_hit = refl

kill_zero_example : ((kill (pos 0) stale).0 ≡ pos 0) × (((made hit).procs 0).killed ≡ 1)
unfolding kill hit
kill_zero_example =
    kill_zero easy_vm stale (made hit) 0
      (record { inside = omega arith; same = refl; earlier = λ j lt. absurd (omega arith) }) refl
      makes_hit

-- Process 3 in slot 1 waits for its child in slot 2, which is a zombie.
abbrev family : Kernel
family = kernel_with (λ i.
    if i == 1
    then record free_slot { state = runnable; pid = 3; pagetable = some 7 }
    else if i == 2
    then record free_slot { state = zombie; pid = 4; parent = some 1; syscall_count = λ _. 6 }
    else free_slot)

wait_counts_twice_example :
    (k1 : Kernel) × (k2 : Kernel) × (wait_round easy_vm 100 1 family ≡ done (returns (negsuc 0) k1))
    × (wait_round easy_vm 100 1 k1 ≡ done (returns (negsuc 0) k2))
    × (k2.procs 2 ≡ family.procs 2)
    × (zombie_child k2 1 2 ≡ true)
    × ((k2.procs 1).syscall_count 5 ≡ 0 + 6 + 6)
unfolding find_from
wait_counts_twice_example =
    wait_counts_twice easy_vm family 100 1 2 7 5 refl (omega arith) (omega arith) refl (λ m. refl)
      (omega arith)
