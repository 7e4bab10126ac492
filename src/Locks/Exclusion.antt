-- ===== src/Locks/Exclusion.antt =====
-- Several CPUs at one spin lock of spinlock.c, where every access to the lock is a step of its own.
use cpu_scheduling_algos.Prelude.{
  ℕ, ◌≡◌, refl, Bool, true, false, ◌⊎◌, Bool-cases, inl, inr, arith, none, some, Option-cases,
  update,
}
use cpu_scheduling_algos.Locks.{Spinlock, initlock, holding}

-- Where a CPU is: outside, in acquire's spin loop, past its swap, between acquire and release, or
-- past release's store to `lk->cpu`.
pub data Phase : Type 0 where
  outside spinning taken inside leaving : Phase

pub record System : Type 0 where
  pub lock : Spinlock
  pub phase : ℕ → Phase

abbrev pub enter : ℕ → Phase → System → System
enter id ph s = record s { phase = update s.phase id ph }

-- The steps of acquire and release. A CPU outside may begin to acquire, and one inside to release;
-- `holding` guards both, and a failed guard is a panic, so no step.
pub data Step : System → System → Type 0 where
  begin :
      (s : System) (id : ℕ)
      → s.phase id ≡ outside
      → holding s.lock id ≡ false
      → Step s (enter id spinning s)
  swap :
      (s : System) (id : ℕ)
      → s.phase id ≡ spinning
      → s.lock.locked ≡ false
      → Step s (enter id taken (record s { lock = record s.lock { locked = true } }))
  spin : (s : System) (id : ℕ) → s.phase id ≡ spinning → s.lock.locked ≡ true → Step s s
  own :
      (s : System) (id : ℕ)
      → s.phase id ≡ taken
      → Step s (enter id inside (record s { lock = record s.lock { holder = some id } }))
  disown :
      (s : System) (id : ℕ)
      → s.phase id ≡ inside
      → holding s.lock id ≡ true
      → Step s (enter id leaving (record s { lock = record s.lock { holder = none } }))
  free :
      (s : System) (id : ℕ)
      → s.phase id ≡ leaving
      → Step s (enter id outside (record s { lock = record s.lock { locked = false } }))

pub data Reach (s : System) : System → Type 0 where
  here : Reach s s
  next : {t u : System} → Reach s t → Step t u → Reach s u

abbrev pub past_swap : Phase → Bool
past_swap outside = false
past_swap spinning = false
past_swap _ = true

abbrev pub is_inside : Phase → Bool
is_inside inside = true
is_inside _ = false

-- At most one CPU is past its swap, exactly when the lock is locked, and the lock names the CPU that
-- is inside.
pub record IsExclusive (s : System) : Type 0 where
  pub alone : (i j : ℕ) → past_swap (s.phase i) ≡ true → past_swap (s.phase j) ≡ true → i ≡ j
  pub locks : (i : ℕ) → past_swap (s.phase i) ≡ true → s.lock.locked ≡ true
  pub names : (i : ℕ) → is_inside (s.phase i) ≡ true → s.lock.holder ≡ some i
  pub named : (i : ℕ) → s.lock.holder ≡ some i → is_inside (s.phase i) ≡ true

abbrev pub fresh : System
fresh = record { lock = initlock; phase = λ _. outside }

fresh-IsExclusive : IsExclusive fresh
fresh-IsExclusive = record {
  alone = λ i j h h'. ground arith;
  locks = λ i h. ground arith;
  names = λ i h. ground arith;
  named = λ i h. cc;
}

Step-IsExclusive : {s t : System} → Step s t → IsExclusive s → IsExclusive t
Step-IsExclusive (begin s id at h) e = record {
  alone = λ i j hi hj. ground (arith, e.alone i j);
  locks = λ i h. ground (arith, e.locks i);
  names = λ i h. ground (arith, e.names i);
  named = λ i h. ground (arith, e.named i);
}
Step-IsExclusive (swap s id at h) e = record {
  alone = λ i j hi hj. ground (arith, e.alone i j, e.locks i, e.locks j);
  locks = λ i h. ground (arith, e.locks i);
  names = λ i h. ground (arith, e.names i);
  named = λ i h. ground (arith, e.named i);
}
Step-IsExclusive (spin s id at h) e = e
Step-IsExclusive (own s id at) e = record {
  alone = λ i j hi hj. ground (arith, e.alone i j, e.alone i id, e.alone j id);
  locks = λ i h. ground (arith, e.locks i, e.locks id);
  names = λ i h. ground (arith, e.names i, e.alone i id);
  named = λ i h. ground (arith, e.named i);
}
Step-IsExclusive (disown s id at h) e = record {
  alone = λ i j hi hj. ground (arith, e.alone i j, e.alone i id, e.alone j id);
  locks = λ i h. ground (arith, e.locks i, e.locks id);
  names = λ i h. ground (arith, e.names i, e.alone i id);
  named = λ i h. ground (arith, e.named i);
}
Step-IsExclusive (free s id at) e = record {
  alone = λ i j hi hj. ground (arith, e.alone i j, e.alone i id, e.alone j id);
  locks = λ i h. ground (arith, e.locks i, e.alone i id);
  names = λ i h. ground (arith, e.names i, e.alone i id);
  named = λ i h. ground (arith, e.named i);
}

Reach-IsExclusive : {s t : System} → Reach s t → IsExclusive s → IsExclusive t
Reach-IsExclusive here e = e
Reach-IsExclusive (next r s) e = Step-IsExclusive s (Reach-IsExclusive r e)

inside_past : (ph : Phase) → is_inside ph ≡ true → past_swap ph ≡ true
inside_past outside h = h
inside_past spinning h = h
inside_past taken h = refl
inside_past inside h = refl
inside_past leaving h = refl

holding_inside : (s : System) (j : ℕ) → IsExclusive s → holding s.lock j ≡ is_inside (s.phase j)
unfolding holding
holding_inside s j e = elim (Bool-cases (is_inside (s.phase j))) [
  | inl h ↦ ground (arith, e.names j h, e.locks j (inside_past (s.phase j) h))
  | inr h ↦ elim (Option-cases s.lock.holder) [
    | inl n ↦ ground arith
    | inr (i, n) ↦ ground (arith, e.named i n)
  ]
]

-- Mutual exclusion: however the accesses of the CPUs to a lock interleave from a free lock on,
-- `holding` is true of a CPU exactly when it is between acquire and release, and of two different CPUs
-- at most one is there.
pub exclusion :
    (s : System) (i j : ℕ)
    → Reach fresh s
    → (holding s.lock j ≡ is_inside (s.phase j))
      × ((j ≡ i) ⊎ ((is_inside (s.phase i) ≡ false) ⊎ (is_inside (s.phase j) ≡ false)))
exclusion s i j r =
    let e = Reach-IsExclusive r fresh-IsExclusive in
    (
      holding_inside s j e,
      elim (Bool-cases (is_inside (s.phase j))) [
        | inl h' ↦ elim (Bool-cases (is_inside (s.phase i))) [
          | inl h ↦ inl (e.alone j i (inside_past (s.phase j) h') (inside_past (s.phase i) h))
          | inr h ↦ inr (inl h)
        ]
        | inr h' ↦ inr (inr h')
      ],
    )
