-- ===== src/Queues/Refine.antt =====
-- enqueue and dequeue of proc.c, on arrays, against operations on the lists of their entries.
use cpu_scheduling_algos.Prelude.{
  ℕ, zero, suc, ◌+◌, ◌-◌, ◌≡◌, refl, inl, inr, ◌==◌, ltb, leb, if◌then◌else◌, Bool, true, false,
  ◌&&◌, Option, none, some, [], ◌∷◌, ◌++◌, update, window, find_from, arith, find_from-some,
  window_eq, window_snoc, any, erase_first, without, erase_first-window, any-window-none,
  any-window-some, erase_first-none, ◌∙◌, Option-cases,
}
use cpu_scheduling_algos.Proc.{Kernel}
use cpu_scheduling_algos.Queues.{
  has_pid, find_entry, append_entry, enqueue, shift_down, dequeue, queue,
}

-- The entry test of a process: the one that both loops make.
abbrev pub same_pid : Kernel → ℕ → Option ℕ → Bool
same_pid k p = has_pid k (k.procs p).pid

-- What the shifting loop leaves at an index.
shift_down_lem :
    (n j : ℕ) (row : ℕ → Option ℕ) (i : ℕ)
    → shift_down n j row i ≡ (if leb j i && ltb i (j + n) then row (i + 1) else row i)
unfolding shift_down
shift_down_lem zero j row i = ground arith
shift_down_lem (suc n) j row i =
    ground (arith, shift_down_lem n (j + 1) (update row j (row (j + 1))) i)

row_append :
    (row : ℕ → Option ℕ) (n : ℕ) (v : Option ℕ)
    → window (update row n v) 0 (n + 1) ≡ window row 0 n ++ v ∷ []
row_append row n v = ground (
  arith,
  window_snoc (update row n v) n 0,
  window_eq (update row n v) row n 0 0 (λ i lt. ground arith),
)

row_remove :
    (test : Option ℕ → Bool) (row : ℕ → Option ℕ) (n i : ℕ)
    → find_from (λ j. test (row j)) n 0 ≡ some i
    → window (update (shift_down (n - 1 - i) i row) (n - 1) none) 0 (n - 1)
      ≡ erase_first test (window row 0 n)
row_remove test row zero i h = refl
row_remove test row (suc n) i h =
    window_eq (update (shift_down (suc n - 1 - i) i row) (suc n - 1) none) (without row i)
      (suc n - 1) 0 0
      (λ j lt. ground (
        arith,
        shift_down_lem (suc n - 1 - i) i row (0 + j),
        find_from-some (λ j. test (row j)) (suc n) 0 i h,
      ))
    ∙ ground (arith, erase_first-window test row n 0 i h)

-- enqueue appends the process to the named queue, unless an entry of that queue has its pid, and
-- leaves the other queues as they are.
pub queue-enqueue :
    (p q q' : ℕ) (k : Kernel)
    → queue (enqueue p q k) q' ≡ (
        if q == q'
        then if any (same_pid k p) (queue k q) then queue k q else queue k q ++ some p ∷ []
        else queue k q')
unfolding enqueue
queue-enqueue p q q' k = elim (Option-cases (find_entry p q k)) [
  | inl e ↦ ground (
    arith,
    row_append (k.multique q) (k.sizeofq q) (some p),
    any-window-none (same_pid k p) (k.multique q) (k.sizeofq q) 0 e,
  )
  | inr (i, e) ↦ ground (arith, any-window-some (same_pid k p) (k.multique q) (k.sizeofq q) 0 i e)
]

-- dequeue takes the first entry with the pid of the process out of the named queue, which is
-- unchanged if there is none, and leaves the other queues as they are.
pub queue-dequeue :
    (p q q' : ℕ) (k : Kernel)
    → queue (dequeue p q k) q'
      ≡ (if q == q' then erase_first (same_pid k p) (queue k q) else queue k q')
unfolding dequeue
queue-dequeue p q q' k = elim (Option-cases (find_entry p q k)) [
  | inl e ↦ ground (
    arith,
    any-window-none (same_pid k p) (k.multique q) (k.sizeofq q) 0 e,
    erase_first-none (same_pid k p) (queue k q),
  )
  | inr (i, e) ↦ ground (
    arith,
    row_remove (same_pid k p) (k.multique q) (k.sizeofq q) i e,
    find_from-some (λ j. same_pid k p (k.multique q j)) (k.sizeofq q) 0 i e,
  )
]

-- Where no entry has the pid, enqueue appends.
pub enqueue_fresh :
    (p q : ℕ) (k : Kernel)
    → any (same_pid k p) (queue k q) ≡ false
    → (((enqueue p q k).procs p).queue_number ≡ q) × (((enqueue p q k).procs p).queueticks ≡ 0)
unfolding enqueue append_entry
enqueue_fresh p q k h = elim (Option-cases (find_entry p q k)) [
  | inl e ↦ ground arith
  | inr (i, e) ↦ ground (arith, any-window-some (same_pid k p) (k.multique q) (k.sizeofq q) 0 i e)
]

-- Where an entry has the pid, enqueue changes nothing.
pub enqueue_held :
    (p q : ℕ) (k : Kernel) → any (same_pid k p) (queue k q) ≡ true → enqueue p q k ≡ k
unfolding enqueue
enqueue_held p q k h = elim (Option-cases (find_entry p q k)) [
  | inl e ↦ ground (arith, any-window-none (same_pid k p) (k.multique q) (k.sizeofq q) 0 e)
  | inr (i, e) ↦ rw (e, enqueue) refl
]
