-- ===== src/Queues.antt =====
-- The multi-level queue of initial-xv6/src/kernel/proc.c: enqueue and dequeue.
pub mod Refine
pub mod Effects
use cpu_scheduling_algos.Prelude.{
  ℕ, zero, suc, ◌+◌, ◌-◌, ◌==◌, if◌then◌else◌, Bool, true, false, Option, none, some, List, update,
  window, find_from,
}
use cpu_scheduling_algos.Proc.{Proc, Kernel}

-- `multique[q][i]->pid == pid`, of an entry that may be null.
abbrev pub has_pid : Kernel → ℕ → Option ℕ → Bool
has_pid k pid none = false
has_pid k pid (some j) = (k.procs j).pid == pid

-- The loops of enqueue and dequeue that look for an entry with the pid of `p`.
unfoldable pub find_entry : ℕ → ℕ → Kernel → Option ℕ
unfolding find_from
find_entry p q k = find_from (λ i. has_pid k (k.procs p).pid (k.multique q i)) (k.sizeofq q) 0

-- `multique[q][sizeofq[q]++] = p` and the two resets behind it.
pub append_entry : ℕ → ℕ → Kernel → Kernel
append_entry p q k = record k {
  multique = update k.multique q (update (k.multique q) (k.sizeofq q) (some p));
  sizeofq = update k.sizeofq q (k.sizeofq q + 1);
  procs = update k.procs p (record (k.procs p) { queueticks = 0; queue_number = q });
}

unfoldable pub enqueue : ℕ → ℕ → Kernel → Kernel
unfolding find_entry append_entry
enqueue p q k = elim (find_entry p q k) [ none ↦ append_entry p q k | some _ ↦ k ]

-- `for (; j < sizeofq[q] - 1; j++) multique[q][j] = multique[q][j + 1];` over the rounds left.
pub shift_down : ℕ → ℕ → (ℕ → Option ℕ) → ℕ → Option ℕ
shift_down zero j row = row
shift_down (suc n) j row = shift_down n (j + 1) (update row j (row (j + 1)))

-- What dequeue does at the index `i` that it has found.
pub remove_entry : ℕ → ℕ → Kernel → Kernel
unfolding shift_down
remove_entry i q k =
    let last = k.sizeofq q - 1 in
    let row = shift_down (last - i) i (k.multique q) in
    record k {
      multique = update k.multique q (update row last none);
      sizeofq = update k.sizeofq q last;
    }

unfoldable pub dequeue : ℕ → ℕ → Kernel → Kernel
unfolding find_entry remove_entry
dequeue p q k =
    if k.sizeofq q == 0
    then k
    else elim (find_entry p q k) [ none ↦ k | some i ↦ remove_entry i q k ]

-- The entries of queue `q`, first to last.
abbrev pub queue : Kernel → ℕ → List (Option ℕ)
queue k q = window (k.multique q) 0 (k.sizeofq q)
