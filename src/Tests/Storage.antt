-- ===== src/Tests/Storage.antt =====
-- The rows of the queues, the log, page tables, the block map and the inode table at concrete states.
use cpu_scheduling_algos.Prelude.{
  ◌≤◌, ◌≡◌, refl, subst, ◌==◌, ltb, if◌then◌else◌, Bool, true, false, ◌&&◌, none, some, [], ◌∷◌,
  inl, inr, ◌⊎◌, Outcome, find_from, Bool-cases, arith, done, panic,
}
use cpu_scheduling_algos.Kalloc.{Memory, kalloc}
use cpu_scheduling_algos.Proc.{Kernel, nproc}
use cpu_scheduling_algos.Prelude.Int.{ℤ, pos}
use cpu_scheduling_algos.Lifecycle.{
  fork, allocproc, fork_into, finish_fork, start_child, alloc_slot, alloc_table, finish_alloc,
  dup_files, dup_file, copy_memory, copy_trapframe, allocpid, proc_pagetable, map_trapframe,
  check_trapframe, install, map_slot, claim_slot, init_proc,
}
use cpu_scheduling_algos.Trap.{boost}
use cpu_scheduling_algos.Trap.Rows.{IsOrderly}
use cpu_scheduling_algos.Trap.Overflow.{AllOrderly, keeps-AllOrderly}
use cpu_scheduling_algos.Trap.Steps.{here, next, boosts, forks, rows_bounded}
use cpu_scheduling_algos.Log.{Log, Store, commit, log_write}
use cpu_scheduling_algos.Log.Commit.{is_logged}
use cpu_scheduling_algos.Log.Recover.{recovered}
use cpu_scheduling_algos.Log.Crash.{commit_atomic}
use cpu_scheduling_algos.Log.Absorb.{is_full, Logged, log_write_lem}
use cpu_scheduling_algos.Paging.{walkaddr, map_pages, walk, walk_low, descend, mappages, is_user}
use cpu_scheduling_algos.Paging.Mapping.{IsSeparate, walkaddr-mappages}
use cpu_scheduling_algos.Tests.World.{queued, easy_vm, two_pages}
use cpu_scheduling_algos.Tests.Machine.{two-IsFree}

queued-IsOrderly : IsOrderly queued 1
queued-IsOrderly = record {
  members = 0 ∷ 1 ∷ [];
  listed = refl;
  distinct = (((λ e. omega arith), tt), (tt, tt));
  inside = (omega arith, (omega arith, tt));
}

queued-AllOrderly : AllOrderly queued
queued-AllOrderly q = elim (Bool-cases (q == 1)) [
  | inl t ↦ let is : 1 ≡ q = ground arith in subst (λ x. IsOrderly queued x) is queued-IsOrderly
  | inr f ↦ record { members = []; listed = rw f refl; distinct = tt; inside = tt }
]

-- The process in slot 0 can fork: it has a page table and a trapframe page.
abbrev parent : Kernel
parent = record queued {
  procs = λ i.
      if i == 0
      then record (queued.procs 0) { pagetable = some 7; trapframe = some 12288 }
      else queued.procs i;
}

parent-AllOrderly : AllOrderly parent
parent-AllOrderly =
    keeps-AllOrderly queued parent (record { rows = refl; sizes = refl }) queued-AllOrderly

abbrev result_or {ℓ} : {A : Type ℓ} → A → Outcome A → A
result_or other (done a) = a
result_or other panic = other

-- The kernel after the fork: the child stands in queue 0 behind no other.
abbrev forked : ℤ × Kernel
forked = result_or (pos 0, parent) (fork easy_vm 0 parent)

does_fork : fork easy_vm 0 parent ≡ done forked
unfolding fork allocproc fork_into finish_fork start_child find_from alloc_slot alloc_table
    finish_alloc dup_files dup_file copy_memory copy_trapframe kalloc allocpid proc_pagetable
    map_trapframe check_trapframe install map_slot claim_slot init_proc
does_fork = refl

rows_bounded_example : (boost forked.1).sizeofq 0 ≤ nproc
rows_bounded_example =
    rows_bounded easy_vm parent (boost forked.1) 0
      (next (next here (forks parent 0 forked does_fork)) (boosts forked.1)) parent-AllOrderly

-- A log at block 2 with room for 30 blocks, with block 50 in it.
abbrev one_logged : Log
one_logged = record {
  start = 2;
  size = 31;
  outstanding = 1;
  committing = false;
  n = 1;
  block = λ i. 50;
}

-- An empty disk, with a new version of block 50 in the cache, and power for two writes.
abbrev two_writes : Store
two_writes = record { disk = λ b i. 0; cache = λ b i. if b == 50 then 7 else 0; power = 2 }

commit_atomic_example : recovered one_logged 1 (commit one_logged two_writes).1 50 ≡ (
    if ltb 1 2 && is_logged one_logged.block 1 0 50
    then two_writes.cache 50
    else two_writes.disk 50)
commit_atomic_example =
    commit_atomic one_logged two_writes 1 50 refl (λ j lt. inr (omega arith)) (inr (omega arith))
      (omega arith)

log_write_lem_example :
    ((is_full one_logged ≡ true) × (log_write 51 one_logged ≡ panic))
    ⊎ ((l' : Log) × (pins : Bool) × (is_full one_logged ≡ false)
        × (log_write 51 one_logged ≡ done (pins, l'))
        × Logged one_logged l' 51 pins)
log_write_lem_example = log_write_lem one_logged 51

-- Page 12288 is an empty page table.
empty_table-IsSeparate : IsSeparate two_pages 12288 0 (4096 ∷ 8192 ∷ [])
empty_table-IsSeparate = record {
  free = two-IsFree;
  proper = ((refl, omega arith), ((refl, omega arith), tt));
  root_used = ((λ e. omega arith), ((λ e. omega arith), tt));
  middle_used = λ e. absurd (ground arith);
  bottom_used = λ e. absurd (ground arith);
}

-- What mapping the page 16384 for the user leaves.
abbrev mapped : Memory
unfolding mappages
mapped = elim (mappages 12288 0 4096 16384 22 two_pages) [ done (ok, m) ↦ m | panic ↦ two_pages ]

mapped_run : mappages 12288 0 4096 16384 22 two_pages ≡ done (true, mapped)
unfolding mappages map_pages walk walk_low descend kalloc
mapped_run = refl

walkaddr-mappages_example : walkaddr 12288 0 mapped ≡ (if is_user 22 then some 16384 else none)
walkaddr-mappages_example =
    walkaddr-mappages 12288 0 16384 22 (4096 ∷ 8192 ∷ []) two_pages mapped empty_table-IsSeparate
      refl (omega arith) refl (omega arith) (omega arith) (omega arith) mapped_run
