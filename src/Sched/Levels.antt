-- ===== src/Sched/Levels.antt =====
-- The search of the scheduler under -DMLFQ (proc.c) through the levels of the queue.
use cpu_scheduling_algos.Prelude.{
  ℕ, zero, suc, ◌+◌, ◌≤◌, ◌<◌, ◌≡◌, inl, inr, true, false, none, some, arith, ◌==◌, ==_iff,
  Bool-cases, Option-cases, find_from, find_from-some, find_from_least, find_from-none,
}
use cpu_scheduling_algos.Proc.{Kernel}
use cpu_scheduling_algos.Sched.{runnable_at, runnable_entry, pick_level, pick_from}

-- What it is to be the choice at a level: the first RUNNABLE entry.
pub record IsFirst (k : Kernel) (level p : ℕ) : Type 0 where
  pub place : ℕ
  pub inside : place < k.sizeofq level
  pub entry : k.multique level place ≡ some p
  pub run : runnable_at k p ≡ true
  pub earlier : (j : ℕ) → j < place → runnable_entry k (k.multique level j) ≡ false

-- No entry of a level is RUNNABLE.
abbrev pub NoneRunnable : Kernel → ℕ → Type 0
NoneRunnable k level = (j : ℕ) → j < k.sizeofq level → runnable_entry k (k.multique level j) ≡ false

pick_level-some : (k : Kernel) (level p : ℕ) → pick_level k level ≡ some p → IsFirst k level p
unfolding pick_level
pick_level-some k level p h =
    elim (Option-cases
      (find_from (λ j. runnable_entry k (k.multique level j)) (k.sizeofq level) 0)) [
        | inl e ↦ absurd (ground arith)
        | inr (j, e) ↦
            let (t, lo, hi) =
              find_from-some (λ j. runnable_entry k (k.multique level j)) (k.sizeofq level) 0 j e in
            let at : k.multique level j ≡ some p = ground arith in
            record {
              place = j;
              inside = omega arith;
              entry = at;
              run = ground arith;
              earlier = λ i lt.
                  find_from_least (λ j. runnable_entry k (k.multique level j)) (k.sizeofq level) 0 j
                    i e (omega arith) lt;
            }
      ]

pick_level-none : (k : Kernel) (level : ℕ) → pick_level k level ≡ none → NoneRunnable k level
unfolding pick_level
pick_level-none k level h i lt =
    elim (Option-cases
      (find_from (λ j. runnable_entry k (k.multique level j)) (k.sizeofq level) 0)) [
        | inl e ↦
            find_from-none (λ j. runnable_entry k (k.multique level j)) (k.sizeofq level) 0 i e
              (omega arith) (omega arith)
        | inr (j, e) ↦
            let (t, lo, hi) =
              find_from-some (λ j. runnable_entry k (k.multique level j)) (k.sizeofq level) 0 j e in
            absurd (ground arith)
      ]

-- The choice from level `level` on: from the first level with a RUNNABLE entry.
pub pick_from-some :
    (k : Kernel) (n level p : ℕ)
    → pick_from k n level ≡ some p
    → (l : ℕ) × (l < level + n)
      × IsFirst k l p
      × ((l' : ℕ) → level ≤ l' → l' < l → NoneRunnable k l')
unfolding pick_from
pick_from-some k zero level p h = absurd (ground arith)
pick_from-some k (suc n) level p h = elim (Option-cases (pick_level k level)) [
  | inl e ↦
      let (l, lt, first, above) = pick_from-some k n (level + 1) p (ground arith) in
      (
        l,
        omega arith,
        first,
        λ l' lo hi. elim (Bool-cases (level == l')) [
          | inl eq ↦
              let l_is : level ≡ l' = (==_iff level l').0 eq in
              rw (← l_is) (pick_level-none k level e)
          | inr ne ↦ above l' (ground arith) hi
        ],
      )
  | inr (q, e) ↦ (
    level,
    omega arith,
    pick_level-some k level p (ground arith),
    λ l' lo hi. absurd (omega arith),
  )
]

pub pick_from-none :
    (k : Kernel) (n level l : ℕ)
    → pick_from k n level ≡ none
    → level ≤ l
    → l < level + n
    → NoneRunnable k l
unfolding pick_from
pick_from-none k zero level l h lo hi = absurd (omega arith)
pick_from-none k (suc n) level l h lo hi = elim (Option-cases (pick_level k level)) [
  | inl e ↦ elim (Bool-cases (level == l)) [
    | inl eq ↦
        let l_is : level ≡ l = (==_iff level l).0 eq in rw (← l_is) (pick_level-none k level e)
    | inr ne ↦ pick_from-none k n (level + 1) l (ground arith) (ground arith) (omega arith)
  ]
  | inr (q, e) ↦ absurd (ground arith)
]
