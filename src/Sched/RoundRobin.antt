-- ===== src/Sched/RoundRobin.antt =====
-- The default scheduler's pass over the table (proc.c): nobody who waits is passed over.
use mathlib.Core.List.{Mem, mem-cons_self, mem-cons_of_mem}
use cpu_scheduling_algos.Prelude.{
  ℕ, zero, suc, ◌+◌, ◌≤◌, ◌<◌, ◌≡◌, ◌≢◌, sym, inl, inr, true, arith, ◌==◌, ==_iff, Bool-cases, List,
  [], ◌∷◌,
}
use cpu_scheduling_algos.Proc.{Kernel, nproc, running, set_state}
use cpu_scheduling_algos.Sched.{runnable_at, rr_pass}

-- While another process runs, a RUNNABLE process stays RUNNABLE.
abbrev pub KeepsRunnable : (ℕ → Kernel → Kernel) → Type 0
KeepsRunnable switch =
    (i j : ℕ) (k : Kernel) → i ≢ j → runnable_at k j ≡ true → runnable_at (switch i k) j ≡ true

rr_pass_mem :
    (switch : ℕ → Kernel → Kernel) (n i j : ℕ) (k : Kernel)
    → KeepsRunnable switch
    → i ≤ j
    → j < i + n
    → runnable_at k j ≡ true
    → Mem j (rr_pass switch n i k).0
unfolding rr_pass
rr_pass_mem switch zero i j k keeps lo hi run = absurd (omega arith)
rr_pass_mem switch (suc n) i j k keeps lo hi run = elim (Bool-cases (i == j)) [
  | inl e ↦
      let j_is : j ≡ i = sym ((==_iff i j).0 e) in
      let run' : runnable_at k i ≡ true = rw j_is at run in rw (j_is, run') mem-cons_self
  | inr ne ↦ elim (Bool-cases (runnable_at k i)) [
    | inl r ↦ rw r (
        mem-cons_of_mem i (
          rr_pass_mem switch n (i + 1) j (switch i (set_state i running k)) keeps (ground arith)
            (omega arith) (keeps i j (set_state i running k) (ground arith) (ground arith))))
    | inr r ↦ rw r (rr_pass_mem switch n (i + 1) j k keeps (ground arith) (omega arith) run)
  ]
]

-- The list goes up, from `lo` on and below `hi`.
abbrev pub GoesUp : ℕ → ℕ → List ℕ → Type 0
GoesUp lo hi [] = Unit
GoesUp lo hi (x ∷ xs) = (lo ≤ x) × (x < hi) × GoesUp (x + 1) hi xs

GoesUp-mono : (lo lo' hi : ℕ) (xs : List ℕ) → lo ≤ lo' → GoesUp lo' hi xs → GoesUp lo hi xs
GoesUp-mono lo lo' hi [] le h = tt
GoesUp-mono lo lo' hi (x ∷ xs) le h = (omega arith, h.1, h.2)

rr_pass-GoesUp :
    (switch : ℕ → Kernel → Kernel) (n i last : ℕ) (k : Kernel)
    → i + n ≡ last
    → GoesUp i last (rr_pass switch n i k).0
unfolding rr_pass
rr_pass-GoesUp switch zero i last k e = tt
rr_pass-GoesUp switch (suc n) i last k e = elim (Bool-cases (runnable_at k i)) [
  | inl r ↦ rw r (
    omega arith,
    omega arith,
    rr_pass-GoesUp switch n (i + 1) last (switch i (set_state i running k)) (omega arith),
  )
  | inr r ↦ rw r (
      GoesUp-mono i (i + 1) last (rr_pass switch n (i + 1) k).0 (omega arith)
        (rr_pass-GoesUp switch n (i + 1) last k (omega arith)))
]

-- One pass of the default scheduler runs every process that is RUNNABLE when it begins, provided
-- that a process that waits stays RUNNABLE while another runs; and it runs processes in the order of
-- the table, each at most once.
pub rr_pass_fair :
    (switch : ℕ → Kernel → Kernel) (k : Kernel) (j : ℕ)
    → KeepsRunnable switch
    → j < nproc
    → runnable_at k j ≡ true
    → Mem j (rr_pass switch nproc 0 k).0 × GoesUp 0 nproc (rr_pass switch nproc 0 k).0
rr_pass_fair switch k j keeps lt run = (
  rr_pass_mem switch nproc 0 j k keeps (omega arith) (omega arith) run,
  rr_pass-GoesUp switch nproc 0 nproc k (omega arith),
)
