-- ===== src/Waiting/Reap.antt =====
-- Reaping in proc.c: wait adds the counters of a child before it knows that it can reap it.
use cpu_scheduling_algos.Prelude.{
  ℕ, ◌+◌, ◌<◌, ◌≡◌, ◌≢◌, ◌∙◌, true, false, some, arith, done, find_from, find_from-some, fun_ext,
}
use cpu_scheduling_algos.Prelude.Int.{negsuc}
use cpu_scheduling_algos.Kalloc.{Memory}
use cpu_scheduling_algos.Vm.{Vm}
use cpu_scheduling_algos.Proc.{Kernel, nproc}
use cpu_scheduling_algos.Waiting.{
  returns, zombie_child, add_counts, status_bytes, copy_status, finish_reap, reap, wait_round,
}

wait_round_at :
    (vm : Vm) (k : Kernel) (addr p child : ℕ)
    → find_from (zombie_child k p) nproc 0 ≡ some child
    → wait_round vm addr p k ≡ reap vm addr p child k
unfolding wait_round
wait_round_at vm k addr p child found = rw (found, wait_round)

reap_fails :
    (vm : Vm) (k : Kernel) (addr p child table : ℕ)
    → p ≢ child
    → addr ≢ 0
    → (k.procs p).pagetable ≡ some table
    → (vm.copyout table addr (status_bytes (k.procs child).xstate) k.memory).0 ≡ false
    → reap vm addr p child k
      ≡ done (
          returns (negsuc 0) (record (add_counts p child k) {
            memory = (vm.copyout table addr (status_bytes (k.procs child).xstate) k.memory).1;
          }))
unfolding reap copy_status finish_reap
reap_fails vm k addr p child table ne bad has fails = ground arith

-- The kernel after such a round: the counters are added, and copyout has changed the memory.
abbrev counted : Vm → ℕ → ℕ → ℕ → ℕ → Kernel → Kernel
counted vm addr p child table k = record (add_counts p child k) {
  memory = (vm.copyout table addr (status_bytes (k.procs child).xstate) k.memory).1;
}

round_fails :
    (vm : Vm) (k : Kernel) (addr p child table : ℕ)
    → find_from (zombie_child k p) nproc 0 ≡ some child
    → p ≢ child
    → addr ≢ 0
    → (k.procs p).pagetable ≡ some table
    → (vm.copyout table addr (status_bytes (k.procs child).xstate) k.memory).0 ≡ false
    → wait_round vm addr p k ≡ done (returns (negsuc 0) (counted vm addr p child table k))
round_fails vm k addr p child table found ne bad has fails =
    wait_round_at vm k addr p child found ∙ reap_fails vm k addr p child table ne bad has fails

-- Let copyout fail at the address of the status, whatever the memory, and the parent wait twice for a
-- zombie. Both waits return -1 and leave the child a zombie of the table, and each adds the counters of
-- the child to the parent's.
pub wait_counts_twice :
    (vm : Vm) (k : Kernel) (addr p child table n : ℕ)
    → find_from (zombie_child k p) nproc 0 ≡ some child
    → p ≢ child
    → addr ≢ 0
    → (k.procs p).pagetable ≡ some table
    → ((m : Memory) → (vm.copyout table addr (status_bytes (k.procs child).xstate) m).0 ≡ false)
    → n < 32
    → (k1 : Kernel) × (k2 : Kernel) × (wait_round vm addr p k ≡ done (returns (negsuc 0) k1))
      × (wait_round vm addr p k1 ≡ done (returns (negsuc 0) k2))
      × (k2.procs child ≡ k.procs child)
      × (zombie_child k2 p child ≡ true)
      × ((k2.procs p).syscall_count n
          ≡ (k.procs p).syscall_count n
            + (k.procs child).syscall_count n
            + (k.procs child).syscall_count n)
wait_counts_twice vm k addr p child table n found ne bad has fails lt =
    let k1 = counted vm addr p child table k in
    let k2 = counted vm addr p child table k1 in
    let child_is : k1.procs child ≡ k.procs child = ground arith in
    let same : zombie_child k1 p ≡ zombie_child k p = fun_ext (λ i. ground arith) in
    let found1 : find_from (zombie_child k1 p) nproc 0 ≡ some child = rw same found in
    let fails1 : (vm.copyout table addr (status_bytes (k1.procs child).xstate) k1.memory).0
        ≡ false =
      rw child_is (fails k1.memory) in
    let (hit, lo, hi) = find_from-some (zombie_child k p) nproc 0 child found in
    (
      k1,
      k2,
      round_fails vm k addr p child table found ne bad has (fails k.memory),
      round_fails vm k1 addr p child table found1 ne bad (ground arith) fails1,
      ground arith,
      ground arith,
      ground arith,
    )
