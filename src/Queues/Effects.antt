-- ===== src/Queues/Effects.antt =====
-- What enqueue and dequeue of proc.c leave alone, and where enqueue leaves its process.
use cpu_scheduling_algos.Prelude.{
  ℕ, ◌<◌, ◌≡◌, refl, inl, inr, true, Option, none, some, arith, ==_iff, Option-cases, ◌⊎◌,
  find_from-some, ◌≢◌,
}
use cpu_scheduling_algos.Proc.{Kernel}
use cpu_scheduling_algos.Queues.{has_pid, find_entry, append_entry, enqueue, remove_entry, dequeue}

-- The fields of a process that enqueue does not write.
pub enqueue_keeps_proc :
    (p q j : ℕ) (k : Kernel)
    → ((enqueue p q k).procs j ≡ record (k.procs j) {
      queueticks = ((enqueue p q k).procs j).queueticks;
      queue_number = ((enqueue p q k).procs j).queue_number;
    })
unfolding enqueue append_entry
enqueue_keeps_proc p q j k = ground arith

pub enqueue_keeps_other : (p q j : ℕ) (k : Kernel) → p ≢ j → (enqueue p q k).procs j ≡ k.procs j
unfolding enqueue append_entry
enqueue_keeps_other p q j k ne = ground arith

-- The queue number changes only for an appended process, to the number of the queue.
pub enqueue_queue_number :
    (p q j : ℕ) (k : Kernel)
    → (((enqueue p q k).procs j).queue_number ≡ (k.procs j).queue_number)
      ⊎ ((p ≡ j) × (((enqueue p q k).procs j).queue_number ≡ q))
unfolding enqueue append_entry
enqueue_queue_number p q j k = ground arith

-- Entries stay where they are: enqueue only appends.
pub enqueue_keeps_entry :
    (p q q' j : ℕ) (k : Kernel)
    → j < k.sizeofq q'
    → (j < (enqueue p q k).sizeofq q') × ((enqueue p q k).multique q' j ≡ k.multique q' j)
unfolding enqueue append_entry
enqueue_keeps_entry p q q' j k lt = elim (Option-cases (find_entry p q k)) [
  | inl e ↦ ground arith
  | inr (i, e) ↦ ground arith
]

-- A new entry is the process itself.
pub enqueue_entry :
    (p q q' j m : ℕ) (k : Kernel)
    → j < (enqueue p q k).sizeofq q'
    → (enqueue p q k).multique q' j ≡ some m
    → m ≢ p
    → (j < k.sizeofq q') × (k.multique q' j ≡ some m)
unfolding enqueue append_entry
enqueue_entry p q q' j m k lt e ne = elim (Option-cases (find_entry p q k)) [
  | inl n ↦ ground arith
  | inr (i, n) ↦ ground arith
]

has_pid-some :
    (k : Kernel) (pid : ℕ) (entry : Option ℕ)
    → has_pid k pid entry ≡ true
    → (m : ℕ) × (entry ≡ some m) × ((k.procs m).pid ≡ pid)
has_pid-some k pid none h = absurd (ground arith)
has_pid-some k pid (some m) h = (m, refl, (==_iff (k.procs m).pid pid).0 h)

pub find_entry-some :
    (p q i : ℕ) (k : Kernel)
    → find_entry p q k ≡ some i
    → (m : ℕ) × (i < k.sizeofq q) × (k.multique q i ≡ some m) × ((k.procs m).pid ≡ (k.procs p).pid)
unfolding find_entry
find_entry-some p q i k h =
    let (t, lo, hi) =
      find_from-some (λ j. has_pid k (k.procs p).pid (k.multique q j)) (k.sizeofq q) 0 i h in
    let (m, e, same) = has_pid-some k (k.procs p).pid (k.multique q i) t in
    (m, omega arith, e, same)

-- After enqueue some entry of the queue has the pid of the process.
pub enqueue_has :
    (p q : ℕ) (k : Kernel)
    → (j : ℕ) × (m : ℕ) × (j < (enqueue p q k).sizeofq q)
      × ((enqueue p q k).multique q j ≡ some m)
      × ((k.procs m).pid ≡ (k.procs p).pid)
unfolding enqueue append_entry
enqueue_has p q k = elim (Option-cases (find_entry p q k)) [
  | inl n ↦ (k.sizeofq q, p, ground arith, ground arith, refl)
  | inr (i, n) ↦
      let (m, lt, e, same) = find_entry-some p q i k n in (i, m, ground arith, ground arith, same)
]

-- dequeue writes no process.
pub procs-dequeue : (p q : ℕ) (k : Kernel) → (dequeue p q k).procs ≡ k.procs
unfolding dequeue remove_entry
procs-dequeue p q k = ground arith
