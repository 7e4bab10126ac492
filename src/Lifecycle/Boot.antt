-- ===== src/Lifecycle/Boot.antt =====
-- procinit() and userinit() of initial-xv6/src/kernel/proc.c, with which the kernel starts.
use cpu_scheduling_algos.Prelude.{
  ℕ, Option, some, List, [], ◌∷◌, update, for_from, Outcome, done, ◌>>=◌,
}
use cpu_scheduling_algos.Prelude.Int.{pos}
use cpu_scheduling_algos.Kalloc.{Memory, page_size}
use cpu_scheduling_algos.Vm.{Vm, kstack_of}
use cpu_scheduling_algos.Proc.Frame
use cpu_scheduling_algos.Proc.{Kernel, unused, runnable, nproc, set_proc}
use cpu_scheduling_algos.Queues.{enqueue}
use cpu_scheduling_algos.Trap.{page_of}
use cpu_scheduling_algos.Lifecycle.{allocproc}

unfoldable pub procinit : Kernel → Kernel
procinit k =
    for_from (λ i s. set_proc i (record (s.procs i) { state = unused; kstack = kstack_of i }) s)
      nproc 0 k

-- "initcode"
abbrev pub initcode_name : List ℕ
initcode_name = 105 ∷ 110 ∷ 105 ∷ 116 ∷ 99 ∷ 111 ∷ 100 ∷ 101 ∷ []

-- The fields that userinit sets, once the first page is there.
unfoldable pub start_init : ℕ → ℕ → Option ℕ → Memory → Kernel → Kernel
start_init p frame root m k =
    let w = update (update (m.words frame) Frame.epc 0) Frame.sp page_size in
    enqueue p 0 (
      set_proc p
        (record (k.procs p) {
          sz = page_size;
          name = initcode_name;
          cwd = root;
          state = runnable;
          tickets = pos 1;
        })
        (record k { memory = record m { words = update m.words frame w } }))

-- userinit(). `uvmfirst` copies initcode into the page table's first page (vm.c), and `root` is the
-- inode of "/" (fs.c).
unfoldable pub userinit : Vm → (ℕ → Memory → Outcome Memory) → Option ℕ → Kernel → Outcome Kernel
userinit vm uvmfirst root k = do
  (np, made) ← allocproc vm k
  p ← page_of np
  table ← page_of (made.procs p).pagetable
  m ← uvmfirst table made.memory
  frame ← page_of (made.procs p).trapframe
  done (start_init p frame root m (record made { initproc = some p }))
