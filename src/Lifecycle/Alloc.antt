-- ===== src/Lifecycle/Alloc.antt =====
-- What a successful allocproc (proc.c) makes of its slot, and what it leaves in it.
use cpu_scheduling_algos.Prelude.{
  ℕ, sym, ◌∙◌, ◌+◌, ◌<◌, ◌≡◌, ◌≢◌, inl, inr, true, false, Option, none, some, arith, Option-cases,
  find_from, find_from-some, find_from_least, find_from_is_none, done, >>=-eq-done,
}
use cpu_scheduling_algos.Prelude.Int.{ℤ, pos}
use cpu_scheduling_algos.Kalloc.{Memory, kalloc}
use cpu_scheduling_algos.Vm.{Vm}
use cpu_scheduling_algos.Proc.{Kernel, used, nproc}
use cpu_scheduling_algos.Queues.{dequeue}
use cpu_scheduling_algos.Trap.{alarm_due}
use cpu_scheduling_algos.Lifecycle.{
  allocpid, claim_slot, unused_at, init_proc, install, map_slot, finish_alloc, freeproc,
  proc_pagetable, alloc_table, alloc_slot, allocproc, clear_proc, free_page, free_pagetable,
}

-- A slot `i` of `k` that has become a new process of `k'`.
pub record Allocated (k k' : Kernel) (i : ℕ) : Type 0 where
  pub pid : (k'.procs i).pid ≡ k.nextpid
  pub next : k'.nextpid ≡ k.nextpid + 1
  pub state : (k'.procs i).state ≡ used
  pub killed : (k'.procs i).killed ≡ (k.procs i).killed
  pub alarm : (k'.procs i).in_alarm_handler ≡ (k.procs i).in_alarm_handler
  pub saved : (k'.procs i).alarm_tf ≡ none
  pub queue_number : (k'.procs i).queue_number ≡ (k.procs i).queue_number
  pub parent : (k'.procs i).parent ≡ (k.procs i).parent
  pub tickets : (k.procs i).parent ≡ none → (k'.procs i).tickets ≡ pos 1
  pub arrival : (k'.procs i).arrival_time ≡ k.ticks
  pub others : (j : ℕ) → i ≢ j → k'.procs j ≡ k.procs j
  pub entries : k'.multique ≡ k.multique
  pub sizes : k'.sizeofq ≡ k.sizeofq

module _ (vm : Vm) where
  finish_alloc_lem :
      (i j : ℕ) (table : Option ℕ) (k k' : Kernel)
      → finish_alloc vm i table k ≡ done (some j, k')
      → (j ≡ i) × (k' ≡ install vm i k)
  unfolding finish_alloc
  finish_alloc_lem i j none k k' h = let (freed, e, e') = >>=-eq-done (freeproc vm i k) _ h in cc e'
  finish_alloc_lem i j (some table) k k' h = (cc, cc)

  alloc_table_lem :
      (i j : ℕ) (page : Option ℕ) (k k' : Kernel)
      → alloc_table vm i page k ≡ done (some j, k')
      → (table : Option ℕ) × (m : Memory) × (j ≡ i) × (k' ≡ install vm i (map_slot vm i table m k))
  unfolding alloc_table
  alloc_table_lem i j none k k' h = let (freed, e, e') = >>=-eq-done (freeproc vm i k) _ h in cc e'
  alloc_table_lem i j (some trapframe) k k' h =
      let (a, e, e') = >>=-eq-done (proc_pagetable vm trapframe k.memory) _ h in
      let (j_is, k_is) = finish_alloc_lem i j a.0 (map_slot vm i a.0 a.1 k) k' e' in
      (a.0, a.1, j_is, k_is)

  install-Allocated :
      (i : ℕ) (k : Kernel) (page table : Option ℕ) (m m' : Memory)
      → Allocated k
          (install vm i (map_slot vm i table m' (claim_slot vm i k.nextpid page m (allocpid k).1)))
          i
  unfolding install init_proc map_slot claim_slot allocpid
  install-Allocated i k page table m m' = ground arith

  alloc_slot-Allocated :
      (i j : ℕ) (k k' : Kernel) → alloc_slot vm i k ≡ done (some j, k') → (j ≡ i) × Allocated k k' i
  unfolding alloc_slot allocpid
  alloc_slot-Allocated i j k k' h =
      let (table, m, j_is, k_is) =
        alloc_table_lem i j (kalloc k.memory).0
          (claim_slot vm i k.nextpid (kalloc k.memory).0 (kalloc k.memory).1 (allocpid k).1) k' h in
      (j_is, rw k_is (install-Allocated i k (kalloc k.memory).0 table (kalloc k.memory).1 m))

  -- allocproc fails without a change if no slot is UNUSED.
  pub allocproc_full :
      (k : Kernel) → ((j : ℕ) → j < nproc → unused_at k j ≡ false) → allocproc vm k ≡ done (none, k)
  unfolding allocproc
  allocproc_full k h =
      let e = find_from_is_none (unused_at k) nproc 0 (λ j lo hi. h j (omega arith)) in
      rw (e, allocproc)

  -- If allocproc succeeds, the slot is the first UNUSED one. The new process is USED under the next
  -- pid, arrives now, and has one ticket if its slot named no parent; the slot's `killed`,
  -- `in_alarm_handler` and `queue_number` are the ones that it had, where the README says that
  -- allocproc sets the queue number to 0; the other processes and the queues are as before.
  pub allocproc_lem :
      (k : Kernel) (i : ℕ) (k' : Kernel)
      → allocproc vm k ≡ done (some i, k')
      → (i < nproc)
        × (unused_at k i ≡ true)
        × ((j : ℕ) → j < i → unused_at k j ≡ false)
        × Allocated k k' i
  unfolding allocproc
  allocproc_lem k i k' h = elim (Option-cases (find_from (unused_at k) nproc 0)) [
    | inl e ↦ let n : allocproc vm k ≡ done (none, k) = rw (e, allocproc) in cc (sym n ∙ h)
    | inr (j, e) ↦
        let (t, lo, hi) = find_from-some (unused_at k) nproc 0 j e in
        let slot : alloc_slot vm j k ≡ done (some i, k') =
          let n : allocproc vm k ≡ alloc_slot vm j k = rw (e, allocproc) in sym n ∙ h in
        let (i_is, a) = alloc_slot-Allocated j i k k' slot in
        rw i_is
          (omega arith, t, λ l lt. find_from_least (unused_at k) nproc 0 j l e (omega arith) lt, a)
  ]

  -- What freeproc leaves, whatever pages it gives back.
  pub freeproc-clear_proc :
      (i : ℕ) (k k' : Kernel)
      → freeproc vm i k ≡ done k'
      → (m : Memory) × (k' ≡ clear_proc i (record k { memory = m }))
  unfolding freeproc
  freeproc-clear_proc i k k' h =
      let (m1, e1, h1) = >>=-eq-done (free_page vm (k.procs i).trapframe k.memory) _ h in
      let (m2, e2, h2) =
        >>=-eq-done (free_pagetable vm (k.procs i).pagetable (k.procs i).sz m1) _ h1 in
      (m2, cc h2)

  handler-clear_proc :
      (i : ℕ) (k : Kernel)
      → ((clear_proc i k).procs i).in_alarm_handler ≡ (k.procs i).in_alarm_handler
  unfolding clear_proc dequeue
  handler-clear_proc i k = ground arith

  -- Let freeproc clear the slot of a process that ended inside its alarm handler, and allocproc give the
  -- slot to a new process. The new process has the flag `in_alarm_handler` of the old one, and with it no
  -- alarm is due, whatever the period that it asks for and the ticks that it has counted.
  pub stale_alarm :
      (k k1 k' : Kernel) (i : ℕ) (ticks : ℤ) (cur_ticks : ℕ)
      → (k.procs i).in_alarm_handler ≢ 0
      → freeproc vm i k ≡ done k1
      → allocproc vm k1 ≡ done (some i, k')
      → ((k'.procs i).in_alarm_handler ≡ (k.procs i).in_alarm_handler)
        × (alarm_due (record (k'.procs i) { ticks = ticks; cur_ticks = cur_ticks }) ≡ false)
  stale_alarm k k1 k' i ticks cur_ticks stale freed h =
      let (lt, t, least, a) = allocproc_lem k1 i k' h in
      let (m, is) = freeproc-clear_proc i k k1 freed in
      let kept : (k1.procs i).in_alarm_handler ≡ (k.procs i).in_alarm_handler =
        rw is (handler-clear_proc i (record k { memory = m })) in
      (a.alarm ∙ kept, ground (arith, a.alarm ∙ kept))
