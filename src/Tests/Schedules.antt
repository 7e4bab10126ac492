-- ===== src/Tests/Schedules.antt =====
-- The three schedulers at concrete process tables.
use mathlib.Core.List.{Mem}
use cpu_scheduling_algos.Prelude.{
  ℕ, ◌<◌, ◌≤◌, ◌≡◌, refl, ◌==◌, Bool-cases, ◌&&◌, true, none, some, ◌⊎◌, inl, inr, arith, for_from,
  ◌^◌, ◌+◌, ◌-◌, if◌then◌else◌, ltb,
}
use cpu_scheduling_algos.Prelude.Int.{pos, negsuc, ◌+ℤ◌, wrap_int}
use cpu_scheduling_algos.Proc.{Kernel, nproc}
use cpu_scheduling_algos.Sched.{
  runnable_at, requeue, mlfq_round, lbs_round, draw_winner, lbs_winner, break_ties, rr_pass,
  total_tickets, add_tickets,
}
use cpu_scheduling_algos.Sched.Lottery.{TicketsNonneg, sum_tickets}
use cpu_scheduling_algos.Sched.Levels.{IsFirst}
use cpu_scheduling_algos.Sched.Pick.{IdleAbove, EntriesIn, DistinctPids, mlfq_round_picks}
use cpu_scheduling_algos.Sched.Draw.{drawn, round_total, Dispatches, lbs_round_draw}
use cpu_scheduling_algos.Sched.RoundRobin.{KeepsRunnable, GoesUp, rr_pass_fair}
use cpu_scheduling_algos.Tests.World.{queued, kernel_with, ready, free_slot}

entries : EntriesIn queued
entries q j m lt h = elim (Bool-cases (q == 1 && j == 0)) [
  | inl t ↦ ground arith
  | inr f ↦ ground arith
]

levels : (j : ℕ) → (queued.procs j).queue_number < 4
levels j = ground arith

distinct : DistinctPids queued
distinct i j hi hj run same = ground arith

nonneg : TicketsNonneg queued
nonneg i run = ground arith

mlfq_round_picks_example :
    let s = for_from requeue nproc 0 queued in
    (p : ℕ) × (l : ℕ) × ((mlfq_round queued).0 ≡ some p)
    × (runnable_at queued p ≡ true)
    × (l < 4)
    × IsFirst s l p
    × IdleAbove s l
mlfq_round_picks_example = mlfq_round_picks queued 1 entries levels distinct (omega arith) refl

positive : 0 < round_total queued
unfolding sum_tickets ◌+ℤ◌
positive = omega arith

small : round_total queued < 2 ^ 31 - 1
unfolding sum_tickets ◌+ℤ◌
small = omega arith

lbs_round_draw_example :
    (r : ℕ) × (drawn queued ≡ pos r)
    × (r ≤ round_total queued)
    × (((r ≡ round_total queued) × ((lbs_round queued).0 ≡ none))
        ⊎ ((r < round_total queued) × Dispatches queued (lbs_round queued)))
lbs_round_draw_example = lbs_round_draw queued nonneg positive small

-- The value 2 lies in the interval of the process in slot 0; the one in slot 1 arrived before it.
tie : lbs_winner queued (pos 2) ≡ some 1
unfolding lbs_winner draw_winner break_ties add_tickets wrap_int ◌+ℤ◌
tie = refl

-- Two processes with 2147483647 tickets each: the sum wraps around to -2, and no process runs.
abbrev rich : Kernel
rich = kernel_with (λ i. if ltb i 2 then ready (i + 1) 2147483647 1 else free_slot)

overflow : total_tickets rich nproc 0 (pos 0) ≡ negsuc 1
unfolding total_tickets add_tickets wrap_int ◌+ℤ◌
overflow = refl

-- A process that ends at once.
abbrev ends : ℕ → Kernel → Kernel
ends i k = k

ends_keeps : KeepsRunnable ends
ends_keeps i j k ne run = run

rr_pass_fair_example :
    Mem 1 (rr_pass ends nproc 0 queued).0 × GoesUp 0 nproc (rr_pass ends nproc 0 queued).0
rr_pass_fair_example = rr_pass_fair ends queued 1 ends_keeps (omega arith) refl
