-- ===== src/Sched/Draw.antt =====
-- One round of the scheduler under -DLBS (proc.c): the lottery as a whole.
use native.Mathlib.Decide.{ℕ_discrete}
use cpu_scheduling_algos.Prelude.{
  ℕ, ◌+◌, ◌-◌, ◌%◌, ◌^◌, ◌≤◌, ◌<◌, ◌≡◌, ◌⊎◌, ◌∙◌, ap, refl, inl, inr, true, false, Option, none,
  some, arith,
}
use cpu_scheduling_algos.Prelude.Int.{
  ℤ, pos, negsuc, ◌+ℤ◌, ◌<ℤ◌, int_leb, pos_part, word_of, wrap_int, wrap_int_small,
}
use cpu_scheduling_algos.Proc.{Kernel, nproc, running, set_state}
use cpu_scheduling_algos.Sched.{
  runnable_at, total_tickets, draw_winner, lbs_winner, rand, rand_at_max, dispatch, lbs_round,
  break_ties,
}
use cpu_scheduling_algos.Sched.Lottery.{
  TicketsNonneg, sum_tickets, first_reaching_total, first_reaching_above, total_tickets_exact,
  draw_winner_exact,
}
use cpu_scheduling_algos.Sched.Ties.{lbs_winner_lem}

-- The tickets that count in one round: the sum of those of the RUNNABLE processes, without a bound.
abbrev pub round_total : Kernel → ℕ
round_total k = pos_part (sum_tickets k nproc 0 (pos 0))

sum_is : (k : Kernel) → 0 < round_total k → sum_tickets k nproc 0 (pos 0) ≡ pos (round_total k)
sum_is k lt = of_pos (sum_tickets k nproc 0 (pos 0)) lt
  where
    of_pos : (z : ℤ) → 0 < pos_part z → z ≡ pos (pos_part z)
    of_pos (pos n) lt = refl
    of_pos (negsuc n) lt = absurd (omega arith)

-- Such a sum is an int.
pub fits :
    (k : Kernel)
    → 0 < round_total k
    → round_total k < 2 ^ 31 - 1
    → sum_tickets k nproc 0 (pos 0) <ℤ pos (2 ^ 31)
fits k lt hi = rw (sum_is k lt) (omega arith)

total_is :
    (k : Kernel)
    → TicketsNonneg k
    → 0 < round_total k
    → round_total k < 2 ^ 31 - 1
    → total_tickets k nproc 0 (pos 0) ≡ pos (round_total k)
total_is k h lt hi =
    total_tickets_exact k nproc 0 (pos 0) h (omega arith) (fits k lt hi) ∙ sum_is k lt

dispatch_run :
    (k : Kernel) (i : ℕ)
    → runnable_at k i ≡ true
    → dispatch (some i) k ≡ (some i, set_state i running k)
unfolding dispatch
dispatch_run k i h = rw h

-- The random number of a round.
abbrev pub drawn : Kernel → ℤ
drawn k = (rand_at_max (pos (round_total k)) k).0

lbs_round_step :
    (k : Kernel)
    → total_tickets k nproc 0 (pos 0) ≡ pos (round_total k)
    → 0 < round_total k
    → lbs_round k
      ≡ dispatch
          (lbs_winner k (wrap_int (drawn k +ℤ pos 1)))
          (rand_at_max (pos (round_total k)) k).1
unfolding lbs_round
lbs_round_step k same lt =
    let more : int_leb (pos (round_total k)) (pos 0) ≡ false = ground arith in
    rw (same, more, lbs_round) refl

procs-rand : (n : ℤ) (k : Kernel) → (rand_at_max n k).1.procs ≡ k.procs
unfolding rand_at_max
procs-rand n k = refl

plus_one : (n : ℕ) → pos n +ℤ pos 1 ≡ pos (n + 1)
unfolding ◌+ℤ◌
plus_one n = ground arith

rand-le :
    (n : ℕ) (k : Kernel) → n < 2 ^ 31 - 1 → (r : ℕ) × ((rand_at_max (pos n) k).0 ≡ pos r) × (r ≤ n)
unfolding rand_at_max
rand-le n k lt =
    let r = (rand k).0 % (n + 1) in
    let low : (n + 1) % 2 ^ 32 ≡ n + 1 = omega arith in
    let divisor : word_of (pos n +ℤ pos 1) ≡ n + 1 = ap word_of (plus_one n) ∙ low in
    let rest : r < n + 1 = omega arith in
    (
      r,
      ap (λ d. wrap_int (pos ((rand k).0 % d))) divisor
          ∙ wrap_int_small (pos r) (omega arith) (omega (arith, rest, lt)),
      omega (arith, rest),
    )

-- The drawn value of a round.
value_is :
    (k : Kernel) (r : ℕ)
    → drawn k ≡ pos r
    → r < 2 ^ 31 - 1
    → wrap_int (drawn k +ℤ pos 1) ≡ pos (r + 1)
value_is k r e lt =
    ap (λ z. wrap_int (z +ℤ pos 1)) e
    ∙ ap wrap_int (plus_one r)
    ∙ wrap_int_small (pos (r + 1)) (omega arith) (omega arith)

lbs_winner-none :
    (k : Kernel) (value : ℤ)
    → draw_winner k nproc 0 (pos 0) value ≡ none
    → lbs_winner k value ≡ none
unfolding lbs_winner
lbs_winner-none k value h = rw (h, lbs_winner)

lbs_winner-some :
    (k : Kernel) (value : ℤ) (w : ℕ)
    → draw_winner k nproc 0 (pos 0) value ≡ some w
    → (p : ℕ) × (lbs_winner k value ≡ some p)
unfolding lbs_winner
lbs_winner-some k value w h = (break_ties k nproc 0 w, rw (h, lbs_winner))

dispatch-none : (k : Kernel) → (dispatch none k).0 ≡ none
unfolding dispatch
dispatch-none k = refl

dispatched :
    (k k' : Kernel) (p : ℕ)
    → k'.procs ≡ k.procs
    → runnable_at k p ≡ true
    → ((dispatch (some p) k').0 ≡ some p)
      × ((dispatch (some p) k').1.procs ≡ (set_state p running k).procs)
dispatched k k' p e run =
    let run' : runnable_at k' p ≡ true = ground arith in
    rw (dispatch_run k' p run') (refl, ground arith)

-- A round that switches to a RUNNABLE process, and only marks that process RUNNING.
abbrev pub Dispatches : Kernel → Option ℕ × Kernel → Type 0
Dispatches k round =
    (p : ℕ) × (round.0 ≡ some p)
    × (runnable_at k p ≡ true)
    × (round.1.procs ≡ (set_state p running k).procs)

round_wasted :
    (k : Kernel)
    → TicketsNonneg k
    → 0 < round_total k
    → round_total k < 2 ^ 31 - 1
    → drawn k ≡ pos (round_total k)
    → (lbs_round k).0 ≡ none
round_wasted k h lt hi e =
    let missed : draw_winner k nproc 0 (pos 0) (pos (round_total k + 1)) ≡ none =
      draw_winner_exact k nproc 0 (pos 0) (pos (round_total k + 1)) h (omega arith) (fits k lt hi)
      ∙ first_reaching_above k nproc 0 (pos 0) (pos (round_total k + 1)) h
          (rw (sum_is k lt) (omega arith)) in
    rw
      (
        lbs_round_step k (total_is k h lt hi) lt,
        value_is k (round_total k) e hi,
        lbs_winner-none k (pos (round_total k + 1)) missed,
      )
      (dispatch-none (rand_at_max (pos (round_total k)) k).1)

round-Dispatches :
    (k : Kernel) (r : ℕ)
    → TicketsNonneg k
    → 0 < round_total k
    → round_total k < 2 ^ 31 - 1
    → drawn k ≡ pos r
    → r < round_total k
    → Dispatches k (lbs_round k)
round-Dispatches k r h lt hi e below =
    let (w, found) =
      first_reaching_total k nproc 0 (pos 0) (pos (r + 1)) (omega arith)
        (rw (sum_is k lt) (omega arith)) in
    let exact = draw_winner_exact k nproc 0 (pos 0) (pos (r + 1)) h (omega arith) (fits k lt hi) in
    let (p, e') = lbs_winner-some k (pos (r + 1)) w (exact ∙ found) in
    let (w', e'', run, same, least) = lbs_winner_lem k (pos (r + 1)) p e' in
    let (at, marks) =
      dispatched k (rand_at_max (pos (round_total k)) k).1 p (procs-rand (pos (round_total k)) k)
        run in
    rw (lbs_round_step k (total_is k h lt hi) lt, value_is k r e (omega arith), e')
      (p, at, run, marks)

-- Let the tickets of the RUNNABLE processes be not negative and their sum be positive and below
-- 2 ^ 31 - 1, so that no int wraps around. Then the random number of a round lies between 0 and the sum,
-- both included, where the README says that the drawn value lies between 1 and the total. The round
-- switches to no process if the number is the sum; otherwise it switches to a RUNNABLE process and only
-- marks that one RUNNING.
pub lbs_round_draw :
    (k : Kernel)
    → TicketsNonneg k
    → 0 < round_total k
    → round_total k < 2 ^ 31 - 1
    → (r : ℕ) × (drawn k ≡ pos r)
      × (r ≤ round_total k)
      × (((r ≡ round_total k) × ((lbs_round k).0 ≡ none))
          ⊎ ((r < round_total k) × Dispatches k (lbs_round k)))
lbs_round_draw k h lt hi =
    let (r, e, le) = rand-le (round_total k) k hi in
    (
      r,
      e,
      le,
      elim (ℕ_discrete r (round_total k)) [
        | yes same ↦ inl (same, round_wasted k h lt hi (e ∙ ap pos same))
        | no ne ↦ inr (omega arith, round-Dispatches k r h lt hi e (omega arith))
      ],
    )
