-- ===== src/Sched/Interval.antt =====
-- The lottery of the scheduler under -DLBS (proc.c): which values select a process.
use cpu_scheduling_algos.Prelude.{ℕ, ◌+◌, ◌-◌, ◌^◌, ◌<◌, ◌≡◌, ◌↔◌, true, some, arith}
use cpu_scheduling_algos.Prelude.Int.{ℤ, pos, ◌+ℤ◌, ◌≤ℤ◌, ◌<ℤ◌}
use cpu_scheduling_algos.Proc.{Kernel, nproc}
use cpu_scheduling_algos.Sched.{runnable_at, draw_winner}
use cpu_scheduling_algos.Sched.Lottery.{
  TicketsNonneg, sum_tickets, first_reaching, first_reaching_bounds, first_reaching_hit,
  draw_winner_exact,
}
use cpu_scheduling_algos.Sched.Draw.{round_total, fits}

-- The tickets of the RUNNABLE processes before slot `w`.
abbrev pub tickets_before : Kernel → ℕ → ℤ
tickets_before k w = sum_tickets k w 0 (pos 0)

-- If no RUNNABLE process has negative tickets and the sum of all is below 2 ^ 31 - 1, a value selects the
-- process in slot `w` exactly when that process is RUNNABLE and the value lies above the tickets
-- before it, and not above them with its own added: each process owns as many values as it has tickets.
pub draw_winner_interval :
    (k : Kernel) (value w : ℕ)
    → TicketsNonneg k
    → 0 < round_total k
    → round_total k < 2 ^ 31 - 1
    → 0 < value
    → w < nproc
    → (draw_winner k nproc 0 (pos 0) (pos value) ≡ some w) ↔ (
        (runnable_at k w ≡ true)
        × (tickets_before k w <ℤ pos value)
        × (pos value ≤ℤ tickets_before k w +ℤ (k.procs w).tickets))
draw_winner_interval k value w h some_sum bound lt hw =
    rw (draw_winner_exact k nproc 0 (pos 0) (pos value) h (omega arith) (fits k some_sum bound))
      (found, owns)
  where
    found :
        first_reaching k nproc 0 (pos 0) (pos value) ≡ some w
        → (runnable_at k w ≡ true)
          × (tickets_before k w <ℤ pos value)
          × (pos value ≤ℤ tickets_before k w +ℤ (k.procs w).tickets)
    found e =
        let (d, w_is, ltd, run, lo, hi) =
          first_reaching_bounds k nproc 0 w (pos 0) (pos value) (omega arith) e in
        let d_is : d ≡ w = omega arith in (run, rw d_is at lo, rw d_is at hi)

    owns :
        (runnable_at k w ≡ true)
          × (tickets_before k w <ℤ pos value)
          × (pos value ≤ℤ tickets_before k w +ℤ (k.procs w).tickets)
        → first_reaching k nproc 0 (pos 0) (pos value) ≡ some w
    owns (run, lo, hi) =
        let w_is : 0 + w ≡ w = omega arith in
        rw w_is at
          (first_reaching_hit k nproc 0 w (pos 0) (pos value) h hw (rw w_is run) lo (rw w_is hi))
