-- ===== src/Sched/Ties.antt =====
-- The tie-break of the scheduler under -DLBS (proc.c): the earliest arrival among equal tickets.
use cpu_scheduling_algos.Prelude.{
  ℕ, zero, suc, ◌+◌, ◌≤◌, ◌<◌, ◌≡◌, refl, inl, inr, true, some, arith, ltb, ◌==◌, if◌then◌else◌,
  Bool-cases, Option-cases, ◌&&◌, ◌∙◌, sym,
}
use native.Mathlib.Nat.{le_trans}
use cpu_scheduling_algos.Prelude.Int.{ℤ, pos, int_eqb, int_eqb→eq}
use cpu_scheduling_algos.Proc.{Kernel, nproc}
use cpu_scheduling_algos.Sched.{runnable_at, break_ties, draw_winner, lbs_winner}
use cpu_scheduling_algos.Sched.Lottery.{draw_winner_run}

-- What a pass over the table from `i` on makes of the winner `w`.
pub record Broke (k : Kernel) (n i w r : ℕ) : Type 0 where
  pub run : runnable_at k r ≡ true
  pub same : (k.procs r).tickets ≡ (k.procs w).tickets
  pub early : (k.procs r).arrival_time ≤ (k.procs w).arrival_time
  pub least :
      (j : ℕ)
      → i ≤ j
      → j < i + n
      → runnable_at k j ≡ true
      → (k.procs j).tickets ≡ (k.procs w).tickets
      → (k.procs r).arrival_time ≤ (k.procs j).arrival_time

-- The winner after one step of the pass.
abbrev better : Kernel → ℕ → ℕ → ℕ
better k i w =
    if runnable_at k i && int_eqb (k.procs i).tickets (k.procs w).tickets
    then if ltb (k.procs i).arrival_time (k.procs w).arrival_time then i else w
    else w

break_ties_step :
    (k : Kernel) (n i w : ℕ) → break_ties k (suc n) i w ≡ break_ties k n (i + 1) (better k i w)
unfolding break_ties
break_ties_step k n i w = ground arith

better_lem :
    (k : Kernel) (i w : ℕ)
    → runnable_at k w ≡ true
    → (runnable_at k (better k i w) ≡ true)
      × ((k.procs (better k i w)).tickets ≡ (k.procs w).tickets)
      × ((k.procs (better k i w)).arrival_time ≤ (k.procs w).arrival_time)
better_lem k i w run = ground (arith, int_eqb→eq (k.procs i).tickets (k.procs w).tickets)

better_self :
    (k : Kernel) (i w : ℕ)
    → runnable_at k i ≡ true
    → (k.procs i).tickets ≡ (k.procs w).tickets
    → (k.procs (better k i w)).arrival_time ≤ (k.procs i).arrival_time
better_self k i w run e = ground arith

Broke-step :
    (k : Kernel) (n i w r : ℕ)
    → runnable_at k w ≡ true
    → Broke k n (i + 1) (better k i w) r
    → Broke k (suc n) i w r
Broke-step k n i w r run ih = record {
  run = ih.run;
  same = ih.same ∙ step.1;
  early = le_trans ih.early step.2;
  least = λ j lo hi rj e. elim (Bool-cases (i == j)) [
    | inl eq ↦
        let j_is_i : i ≡ j = ground arith in
        let self = better_self k i w (rw j_is_i rj) (rw j_is_i e) in
        rw (← j_is_i) (le_trans ih.early self)
    | inr ne ↦ ih.least j (ground arith) (omega arith) rj (e ∙ sym step.1)
  ];
}
  where
    step :
        (runnable_at k (better k i w) ≡ true)
        × ((k.procs (better k i w)).tickets ≡ (k.procs w).tickets)
        × ((k.procs (better k i w)).arrival_time ≤ (k.procs w).arrival_time)
    step = better_lem k i w run

break_ties-Broke :
    (k : Kernel) (n i w : ℕ) → runnable_at k w ≡ true → Broke k n i w (break_ties k n i w)
unfolding break_ties
break_ties-Broke k zero i w run = record {
  run = run;
  same = refl;
  early = omega arith;
  least = λ j lo hi r e. absurd (omega arith);
}
break_ties-Broke k (suc n) i w run = rw (break_ties_step k n i w) (
    Broke-step k n i w (break_ties k n (i + 1) (better k i w)) run
      (break_ties-Broke k n (i + 1) (better k i w) (better_lem k i w run).0))

-- No RUNNABLE process with that many tickets arrived before `r`.
abbrev pub FirstArrival : Kernel → ℕ → ℤ → Type 0
FirstArrival k r tickets =
    (j : ℕ)
    → j < nproc
    → runnable_at k j ≡ true
    → (k.procs j).tickets ≡ tickets
    → (k.procs r).arrival_time ≤ (k.procs j).arrival_time

-- The process that a drawn value selects is RUNNABLE, holds as many tickets as the process at which the
-- draw stops, and no RUNNABLE process with as many tickets arrived before it.
pub lbs_winner_lem :
    (k : Kernel) (value : ℤ) (r : ℕ)
    → lbs_winner k value ≡ some r
    → (w : ℕ) × (draw_winner k nproc 0 (pos 0) value ≡ some w)
      × (runnable_at k r ≡ true)
      × ((k.procs r).tickets ≡ (k.procs w).tickets)
      × FirstArrival k r (k.procs w).tickets
unfolding lbs_winner
lbs_winner_lem k value r h = elim (Option-cases (draw_winner k nproc 0 (pos 0) value)) [
  | inl e ↦ absurd (ground arith)
  | inr (w, e) ↦
      let run = draw_winner_run k nproc 0 w (pos 0) value e in
      let b = break_ties-Broke k nproc 0 w run in
      let r_is : break_ties k nproc 0 w ≡ r = ground arith in
      let b' : Broke k nproc 0 w r = rw (← r_is) b in
      (w, e, b'.run, b'.same, λ j lt j_run same. b'.least j (omega arith) (omega arith) j_run same)
]
