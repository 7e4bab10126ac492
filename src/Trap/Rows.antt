-- ===== src/Trap/Rows.antt =====
-- The rows of multique in initial-xv6/src/kernel/proc.c have NPROC entries, and enqueue does not test
-- that bound: why it is kept.
use cpu_scheduling_algos.Prelude.{
  ℕ, zero, suc, ◌≤◌, ◌<◌, ◌≡◌, ap, inl, inr, Bool, arith, ◌==◌, Bool-cases, List, [], ◌∷◌, length,
  length-window, erase_first,
}
use cpu_scheduling_algos.Proc.{Kernel, nproc}
use cpu_scheduling_algos.Queues.{queue}
use cpu_scheduling_algos.Trap.Boost.{entries, length-entries, Fresh, PidsDistinct}

-- All processes of the list stand in the first `n` slots of the table.
abbrev pub Below : ℕ → List ℕ → Type 0
Below n [] = Unit
Below n (x ∷ xs) = (x < n) × Below n xs

abbrev pub own_pid : ℕ → ℕ
own_pid j = j

erase_Fresh :
    (pid : ℕ → ℕ) (x : ℕ) (test : ℕ → Bool) (xs : List ℕ)
    → Fresh pid x xs
    → Fresh pid x (erase_first test xs)
erase_Fresh pid x test [] f = tt
erase_Fresh pid x test (y ∷ xs) f = elim (Bool-cases (test y)) [
  | inl t ↦ rw t f.1
  | inr t ↦ rw t (f.0, erase_Fresh pid x test xs f.1)
]

pub erase_PidsDistinct :
    (pid : ℕ → ℕ) (test : ℕ → Bool) (xs : List ℕ)
    → PidsDistinct pid xs
    → PidsDistinct pid (erase_first test xs)
erase_PidsDistinct pid test [] d = tt
erase_PidsDistinct pid test (y ∷ xs) d = elim (Bool-cases (test y)) [
  | inl t ↦ rw t d.1
  | inr t ↦ rw t (erase_Fresh pid y test xs d.0, erase_PidsDistinct pid test xs d.1)
]

pub erase_Below :
    (n : ℕ) (test : ℕ → Bool) (xs : List ℕ) → Below n xs → Below n (erase_first test xs)
erase_Below n test [] b = tt
erase_Below n test (y ∷ xs) b = elim (Bool-cases (test y)) [
  | inl t ↦ rw t b.1
  | inr t ↦ rw t (b.0, erase_Below n test xs b.1)
]

length-erase_first :
    (test : ℕ → Bool) (xs : List ℕ) → length xs ≤ suc (length (erase_first test xs))
length-erase_first test [] = omega arith
length-erase_first test (y ∷ xs) = ground (arith, length-erase_first test xs)

Below-Fresh : (n : ℕ) (xs : List ℕ) → Fresh own_pid n xs → Below (suc n) xs → Below n xs
Below-Fresh n [] f b = tt
Below-Fresh n (y ∷ xs) f b = (omega (arith, f.0, b.0), Below-Fresh n xs f.1 b.1)

erase_top :
    (n : ℕ) (xs : List ℕ)
    → PidsDistinct own_pid xs
    → Below (suc n) xs
    → Below n (erase_first (λ y. y == n) xs)
erase_top n [] d b = tt
erase_top n (y ∷ xs) d b = elim (Bool-cases (y == n)) [
  | inl t ↦ let y_is : y ≡ n = ground arith in rw t (Below-Fresh n xs (rw (← y_is) d.0) b.1)
  | inr t ↦ rw t (ground arith, erase_top n xs d.1 b.1)
]

-- Different numbers below `n` are at most `n`.
pub pigeonhole : (n : ℕ) (xs : List ℕ) → PidsDistinct own_pid xs → Below n xs → length xs ≤ n
pigeonhole n [] d b = omega arith
pigeonhole zero (x ∷ xs) d b = absurd (omega arith)
pigeonhole (suc n) (x ∷ xs) d b = omega (
  arith,
  length-erase_first (λ y. y == n) (x ∷ xs),
  pigeonhole n (erase_first (λ y. y == n) (x ∷ xs))
      (erase_PidsDistinct own_pid (λ y. y == n) (x ∷ xs) d) (erase_top n (x ∷ xs) d b),
)

-- Processes with different pids are different.
pub Fresh-own : (pid : ℕ → ℕ) (x : ℕ) (xs : List ℕ) → Fresh pid x xs → Fresh own_pid x xs
Fresh-own pid x [] f = tt
Fresh-own pid x (y ∷ xs) f = ((λ e. f.0 (ap pid e)), Fresh-own pid x xs f.1)

abbrev pub pids_of : Kernel → ℕ → ℕ
pids_of k j = (k.procs j).pid

-- A queue in order: its entries are processes of the table that all differ.
pub record IsOrderly (k : Kernel) (q : ℕ) : Type 0 where
  pub members : List ℕ
  pub listed : queue k q ≡ entries members
  pub distinct : PidsDistinct own_pid members
  pub inside : Below nproc members

pub IsOrderly-bounded : (k : Kernel) (q : ℕ) → IsOrderly k q → k.sizeofq q ≤ nproc
IsOrderly-bounded k q o = omega (
  arith,
  length-window (k.multique q) (k.sizeofq q) 0,
  ap length o.listed,
  length-entries o.members,
  pigeonhole nproc o.members o.distinct o.inside,
)
