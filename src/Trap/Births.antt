-- ===== src/Trap/Births.antt =====
-- The order of the queues after allocproc, freeproc and fork of initial-xv6/src/kernel/proc.c.
use cpu_scheduling_algos.Prelude.{
  ℕ, zero, suc, ◌+◌, ◌<◌, ◌≡◌, refl, sym, ap, subst, inl, inr, Bool, true, false, Option, none,
  some, arith, Option-cases, find_from, done, done-injective, >>=-eq-done,
}
use cpu_scheduling_algos.Prelude.Int.{ℤ}
use cpu_scheduling_algos.Kalloc.{Memory, kalloc}
use cpu_scheduling_algos.Vm.{Vm}
use cpu_scheduling_algos.Proc.{Kernel, nproc, nofile, runnable, set_proc}
use cpu_scheduling_algos.Queues.{enqueue}
use cpu_scheduling_algos.Lifecycle.{
  allocpid, claim_slot, unused_at, install, map_slot, finish_alloc, clear_proc, freeproc,
  proc_pagetable, alloc_table, alloc_slot, allocproc, filedup, dup_file, dup_files, idup,
  copy_trapframe, start_child, finish_fork, copy_memory, fork_into, fork,
}
use cpu_scheduling_algos.Lifecycle.Alloc.{freeproc-clear_proc, allocproc_lem}
use cpu_scheduling_algos.Trap.Overflow.{
  AllOrderly, KeepsQueues, keeps-AllOrderly, enqueue-AllOrderly, dequeue-AllOrderly,
}
use cpu_scheduling_algos.Trap.Turns.{set_proc-AllOrderly}

memory-AllOrderly : (m : Memory) (k : Kernel) → AllOrderly k → AllOrderly (record k { memory = m })
memory-AllOrderly m k all =
    keeps-AllOrderly k (record k { memory = m }) (record { rows = refl; sizes = refl }) all

clear_proc-AllOrderly : (i : ℕ) (k : Kernel) → AllOrderly k → AllOrderly (clear_proc i k)
unfolding clear_proc
clear_proc-AllOrderly i k all =
    dequeue-AllOrderly i (k.procs i).queue_number (set_proc i _ k) (set_proc-AllOrderly i _ k all)

module _ (vm : Vm) where
  pub freeproc-AllOrderly :
      (i : ℕ) (k k' : Kernel) → freeproc vm i k ≡ done k' → AllOrderly k → AllOrderly k'
  freeproc-AllOrderly i k k' h all =
      let (m, is) = freeproc-clear_proc vm i k k' h in
      subst AllOrderly (sym is)
        (clear_proc-AllOrderly i (record k { memory = m }) (memory-AllOrderly m k all))

  install-AllOrderly : (i : ℕ) (k : Kernel) → AllOrderly k → AllOrderly (install vm i k)
  unfolding install
  install-AllOrderly i k all = set_proc-AllOrderly i _ k all

  finish_alloc-AllOrderly :
      (i : ℕ) (table r : Option ℕ) (k k' : Kernel)
      → finish_alloc vm i table k ≡ done (r, k')
      → AllOrderly k
      → AllOrderly k'
  unfolding finish_alloc
  finish_alloc-AllOrderly i none r k k' h all =
      let (freed, e, e') = >>=-eq-done (freeproc vm i k) _ h in
      let is : freed ≡ k' = cc e' in subst AllOrderly is (freeproc-AllOrderly i k freed e all)
  finish_alloc-AllOrderly i (some table) r k k' h all =
      let is : install vm i k ≡ k' = cc h in subst AllOrderly is (install-AllOrderly i k all)

  alloc_table-AllOrderly :
      (i : ℕ) (page r : Option ℕ) (k k' : Kernel)
      → alloc_table vm i page k ≡ done (r, k')
      → AllOrderly k
      → AllOrderly k'
  unfolding alloc_table map_slot
  alloc_table-AllOrderly i none r k k' h all =
      let (freed, e, e') = >>=-eq-done (freeproc vm i k) _ h in
      let is : freed ≡ k' = cc e' in subst AllOrderly is (freeproc-AllOrderly i k freed e all)
  alloc_table-AllOrderly i (some frame) r k k' h all =
      let (a, e, e') = >>=-eq-done (proc_pagetable vm frame k.memory) _ h in
      finish_alloc-AllOrderly i a.0 r (map_slot vm i a.0 a.1 k) k' e'
        (set_proc-AllOrderly i _ (record k { memory = a.1 }) (memory-AllOrderly a.1 k all))

  alloc_slot-AllOrderly :
      (i : ℕ) (r : Option ℕ) (k k' : Kernel)
      → alloc_slot vm i k ≡ done (r, k')
      → AllOrderly k
      → AllOrderly k'
  unfolding alloc_slot allocpid claim_slot
  alloc_slot-AllOrderly i r k k' h all =
      let claimed =
        claim_slot vm i k.nextpid (kalloc k.memory).0 (kalloc k.memory).1 (allocpid k).1 in
      alloc_table-AllOrderly i (kalloc k.memory).0 r claimed k' h
        (keeps-AllOrderly k claimed (record { rows = refl; sizes = refl }) all)

  pub allocproc-AllOrderly :
      (r : Option ℕ) (k k' : Kernel) → allocproc vm k ≡ done (r, k') → AllOrderly k → AllOrderly k'
  unfolding allocproc
  allocproc-AllOrderly r k k' h all = elim (Option-cases (find_from (unused_at k) nproc 0)) [
    | inl e ↦
        let is : allocproc vm k ≡ done (none, k) = rw (e, allocproc) in
        let same : k ≡ k' = cc in subst AllOrderly same all
    | inr (i, e) ↦
        let is : allocproc vm k ≡ alloc_slot vm i k = rw (e, allocproc) in
        alloc_slot-AllOrderly i r k k' (rw (← is) h) all
  ]

  dup_file-KeepsQueues :
      (me np i : ℕ) (k k' : Kernel) → dup_file vm me np i k ≡ done k' → KeepsQueues k k'
  unfolding dup_file filedup
  dup_file-KeepsQueues me np i k k' h = record { rows = ground arith; sizes = ground arith }

  dup_files-AllOrderly :
      (me np n i : ℕ) (k k' : Kernel)
      → dup_files vm me np n i k ≡ done k'
      → AllOrderly k
      → AllOrderly k'
  unfolding dup_files
  dup_files-AllOrderly me np zero i k k' h all = let is : k ≡ k' = cc h in subst AllOrderly is all
  dup_files-AllOrderly me np (suc n) i k k' h all =
      let (dup, e, e') = >>=-eq-done (dup_file vm me np i k) _ h in
      dup_files-AllOrderly me np n (i + 1) dup k' e'
        (keeps-AllOrderly k dup (dup_file-KeepsQueues me np i k dup e) all)

  idup-AllOrderly : (ip : Option ℕ) (k : Kernel) → AllOrderly k → AllOrderly (idup vm ip k)
  idup-AllOrderly none k all = all
  idup-AllOrderly (some ip) k all =
      keeps-AllOrderly k (idup vm (some ip) k) (record { rows = refl; sizes = refl }) all

  start_child-AllOrderly :
      (me np : ℕ) (k : Kernel) (r : ℤ × Kernel)
      → start_child vm me np k ≡ done r
      → np < nproc
      → AllOrderly k
      → AllOrderly r.1
  unfolding start_child
  start_child-AllOrderly me np k r h lt all =
      let sized = set_proc np (record (k.procs np) { sz = (k.procs me).sz }) k in
      let (m, e, e') =
        >>=-eq-done
          (copy_trapframe vm (sized.procs me).trapframe (sized.procs np).trapframe sized.memory) _
          h in
      let (files, f, f') =
        >>=-eq-done (dup_files vm me np nofile 0 (record sized { memory = m })) _ e' in
      let dup = idup vm (files.procs me).cwd files in
      let dup_all : AllOrderly dup = idup-AllOrderly (files.procs me).cwd files (
        dup_files-AllOrderly me np nofile 0 (record sized { memory = m }) files f
          (memory-AllOrderly m sized (set_proc-AllOrderly np _ k all))) in
      let child =
        set_proc np
          (record (dup.procs np) {
            cwd = (dup.procs me).cwd;
            name = (dup.procs me).name;
            parent = some me;
            state = runnable;
          })
          dup in
      let is : enqueue np 0 child ≡ r.1 = ap (λ (x : ℤ × Kernel). x.1) (done-injective f') in
      subst AllOrderly is (enqueue-AllOrderly np 0 child lt (set_proc-AllOrderly np _ dup dup_all))

  fork_into-AllOrderly :
      (me : ℕ) (np : Option ℕ) (k : Kernel) (r : ℤ × Kernel)
      → fork_into vm me np k ≡ done r
      → ((i : ℕ) → np ≡ some i → i < nproc)
      → AllOrderly k
      → AllOrderly r.1
  unfolding fork_into finish_fork
  fork_into-AllOrderly me none k r h lt all =
      let is : k ≡ r.1 = ap (λ (x : ℤ × Kernel). x.1) (done-injective h) in subst AllOrderly is all
  fork_into-AllOrderly me (some np) k r h lt all =
      let (a, e, e') =
        >>=-eq-done
          (copy_memory vm (k.procs me).pagetable (k.procs np).pagetable (k.procs me).sz k.memory) _
          h in
      finish a.0 (record k { memory = a.1 }) e' (memory-AllOrderly a.1 k all)
    where
      finish :
          (copied : Bool) (k1 : Kernel)
          → finish_fork vm me np copied k1 ≡ done r
          → AllOrderly k1
          → AllOrderly r.1
      finish true k1 h1 all1 = start_child-AllOrderly me np k1 r h1 (lt np refl) all1
      finish false k1 h1 all1 =
          let (freed, e, e') = >>=-eq-done (freeproc vm np k1) _ h1 in
          let is : freed ≡ r.1 = ap (λ (x : ℤ × Kernel). x.1) (done-injective e') in
          subst AllOrderly is (freeproc-AllOrderly np k1 freed e all1)

  pub fork-AllOrderly :
      (me : ℕ) (k : Kernel) (r : ℤ × Kernel) → fork vm me k ≡ done r → AllOrderly k → AllOrderly r.1
  unfolding fork
  fork-AllOrderly me k r h all =
      let (a, e, e') = >>=-eq-done (allocproc vm k) _ h in
      fork_into-AllOrderly me a.0 a.1 r e' (λ i is. (allocproc_lem vm k i a.1 (cc e)).0)
        (allocproc-AllOrderly a.0 k a.1 e all)
