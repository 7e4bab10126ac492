-- ===== src/Lifecycle.antt =====
-- The life of a process in initial-xv6/src/kernel/proc.c: allocproc, freeproc and fork.
-- Every routine runs with the locks that it takes held, so it is one step; the process that myproc()
-- returns is an argument.
pub mod Alloc
pub mod Boot
use cpu_scheduling_algos.Prelude.{
  ℕ, zero, suc, ◌+◌, ◌-◌, ◌==◌, ltb, if◌then◌else◌, Bool, true, false, Option, none, some, List, [],
  ◌∷◌, update, find_from, for_from, Outcome, done, panic, ◌>>=◌,
}
use cpu_scheduling_algos.Prelude.Int.{ℤ, pos, negsuc}
use cpu_scheduling_algos.Kalloc.{Memory, kalloc, kfree, page_size}
use cpu_scheduling_algos.Vm.{Vm, trampoline, trapframe_va, pte_rw, pte_rx}
use cpu_scheduling_algos.Proc.Frame
use cpu_scheduling_algos.Proc.{
  Proc, Kernel, ProcState, unused, used, runnable, is_unused, Chan, no_chan, nproc, nofile,
  set_proc,
}
use cpu_scheduling_algos.Queues.{enqueue, dequeue}

abbrev pub unused_at : Kernel → ℕ → Bool
unused_at k i = is_unused (k.procs i).state

-- allocpid(): the next pid, and the counter behind it.
unfoldable pub allocpid : Kernel → ℕ × Kernel
allocpid k = (k.nextpid, record k { nextpid = k.nextpid + 1 })

-- The end of freeproc: the fields, and the removal from the queues, which looks for pid 0 by then.
unfoldable pub clear_proc : ℕ → Kernel → Kernel
clear_proc i k =
    let cleared = record (k.procs i) {
      trapframe = none;
      pagetable = none;
      sz = 0;
      pid = 0;
      parent = none;
      name = [];
      chan = no_chan;
      killed = 0;
      xstate = pos 0;
      state = unused;
    } in
    dequeue i (k.procs i).queue_number (set_proc i cleared k)

-- What allocproc sets once it has a trapframe and a page table. `parent` is still the field that
-- the slot had before.
unfoldable pub init_proc : Vm → Kernel → Proc → Proc
init_proc vm k p = record p {
  ticks = pos 0;
  cur_ticks = 0;
  alarm_tf = none;
  alarm_on = 0;
  handler = 0;
  queueticks = 0;
  tickets = elim p.parent [ none ↦ pos 1 | some parent ↦ (k.procs parent).tickets ];
  context = record { ra = vm.forkret; sp = p.kstack + page_size; saved = λ _. 0 };
  rtime = 0;
  etime = 0;
  ctime = k.ticks;
  arrival_time = k.ticks;
  syscall_count = λ _. 0;
}

module _ (vm : Vm) where
  -- proc_freepagetable(pagetable, sz)
  unfoldable pub proc_freepagetable : ℕ → ℕ → Memory → Outcome Memory
  proc_freepagetable pagetable sz m = do
    m1 ← vm.uvmunmap pagetable trampoline 1 false m
    m2 ← vm.uvmunmap pagetable trapframe_va 1 false m1
    vm.uvmfree pagetable sz m2

  -- `if (p->trapframe) kfree(p->trapframe);`
  unfoldable pub free_page : Option ℕ → Memory → Outcome Memory
  free_page none m = done m
  free_page (some pa) m = kfree vm.kernel_end pa m

  -- `if (p->pagetable) proc_freepagetable(p->pagetable, p->sz);`
  unfoldable pub free_pagetable : Option ℕ → ℕ → Memory → Outcome Memory
  free_pagetable none sz m = done m
  free_pagetable (some pagetable) sz m = proc_freepagetable pagetable sz m

  unfoldable pub freeproc : ℕ → Kernel → Outcome Kernel
  freeproc i k = do
    m1 ← free_page (k.procs i).trapframe k.memory
    m2 ← free_pagetable (k.procs i).pagetable (k.procs i).sz m1
    done (clear_proc i (record k { memory = m2 }))

  -- The error exits of proc_pagetable.
  pub drop_table : ℕ → Memory → Outcome (Option ℕ × Memory)
  drop_table pagetable m1 = do m2 ← vm.uvmfree pagetable 0 m1; done (none, m2)

  unfoldable pub check_trapframe : ℕ → Bool → Memory → Outcome (Option ℕ × Memory)
  check_trapframe pagetable true m1 = done (some pagetable, m1)
  check_trapframe pagetable false m1 = do
    m2 ← vm.uvmunmap pagetable trampoline 1 false m1
    drop_table pagetable m2

  unfoldable pub map_trapframe : ℕ → ℕ → Bool → Memory → Outcome (Option ℕ × Memory)
  map_trapframe pagetable frame true m1 = do
    (frame_ok, m2) ← vm.mappages pagetable trapframe_va page_size frame pte_rw m1
    check_trapframe pagetable frame_ok m2
  map_trapframe pagetable frame false m1 = drop_table pagetable m1

  -- proc_pagetable(p), for the trapframe page of p.
  unfoldable pub proc_pagetable : ℕ → Memory → Outcome (Option ℕ × Memory)
  proc_pagetable trapframe m =
      let (created, m0) = vm.uvmcreate m in
      elim created [
        | none ↦ done (none, m0)
        | some pagetable ↦ do
          (code_ok, m1) ← vm.mappages pagetable trampoline page_size vm.trampoline_code pte_rx m0
          map_trapframe pagetable trapframe code_ok m1
      ]

  unfoldable pub install : ℕ → Kernel → Kernel
  install i k = set_proc i (init_proc vm k (k.procs i)) k

  -- The end of allocproc, by whether there is a page table.
  unfoldable pub finish_alloc : ℕ → Option ℕ → Kernel → Outcome (Option ℕ × Kernel)
  finish_alloc i none k = do freed ← freeproc i k; done (none, freed)
  finish_alloc i (some table) k = done (some i, install i k)

  -- The slot with its pid and its trapframe page, if there was one.
  unfoldable pub claim_slot : ℕ → ℕ → Option ℕ → Memory → Kernel → Kernel
  claim_slot i pid page m k =
      set_proc i (record (k.procs i) { pid = pid; state = used; trapframe = page })
        (record k { memory = m })

  -- `p->pagetable = table`, and the memory after proc_pagetable.
  unfoldable pub map_slot : ℕ → Option ℕ → Memory → Kernel → Kernel
  map_slot i table m k =
      set_proc i (record (k.procs i) { pagetable = table }) (record k { memory = m })

  -- allocproc behind the allocation of the trapframe page.
  unfoldable pub alloc_table : ℕ → Option ℕ → Kernel → Outcome (Option ℕ × Kernel)
  alloc_table i none k = do freed ← freeproc i k; done (none, freed)
  alloc_table i (some trapframe) k = do
    (table, m) ← proc_pagetable trapframe k.memory
    finish_alloc i table (map_slot i table m k)

  -- allocproc from the label `found` on: the slot `i` is UNUSED.
  unfoldable pub alloc_slot : ℕ → Kernel → Outcome (Option ℕ × Kernel)
  alloc_slot i k0 =
      let (pid, k) = allocpid k0 in
      let (page, m) = kalloc k.memory in alloc_table i page (claim_slot i pid page m k)

  unfoldable pub allocproc : Kernel → Outcome (Option ℕ × Kernel)
  allocproc k = elim (find_from (unused_at k) nproc 0) [
    | none ↦ done (none, k)
    | some i ↦ alloc_slot i k
  ]

  -- filedup(f) of file.c: one more reference, which must be there already.
  unfoldable pub filedup : ℕ → Kernel → Outcome Kernel
  filedup f k =
      if ltb (k.file_ref f) 1
      then panic
      else done (record k { file_ref = update k.file_ref f (k.file_ref f + 1) })

  -- `if (p->ofile[i]) np->ofile[i] = filedup(p->ofile[i]);`
  unfoldable pub dup_file : ℕ → ℕ → ℕ → Kernel → Outcome Kernel
  dup_file me np i k = elim ((k.procs me).ofile i) [
    | none ↦ done k
    | some f ↦ do
      dup ← filedup f k
      done (
          set_proc np (record (dup.procs np) { ofile = update (dup.procs np).ofile i (some f) })
            dup)
  ]

  unfoldable pub dup_files : ℕ → ℕ → ℕ → ℕ → Kernel → Outcome Kernel
  dup_files me np zero i k = done k
  dup_files me np (suc n) i k = do dup ← dup_file me np i k; dup_files me np n (i + 1) dup

  -- idup(ip): one more reference to an in-memory inode.
  abbrev pub idup : Option ℕ → Kernel → Kernel
  idup none k = k
  idup (some ip) k = record k { inode_ref = update k.inode_ref ip (k.inode_ref ip + 1) }

  -- `*(np->trapframe) = *(p->trapframe); np->trapframe->a0 = 0;`
  unfoldable pub copy_trapframe : Option ℕ → Option ℕ → Memory → Outcome Memory
  copy_trapframe (some src) (some dst) m =
      let copied : ℕ → ℕ = λ w. if ltb w Frame.size then m.words src w else m.words dst w in
      done (record m { words = update m.words dst (update copied Frame.a0 0) })
  copy_trapframe _ _ m = panic

  -- fork once the child's memory is copied: the files, the name, the parent and the queue.
  unfoldable pub start_child : ℕ → ℕ → Kernel → Outcome (ℤ × Kernel)
  start_child me np k = do
    let sized = set_proc np (record (k.procs np) { sz = (k.procs me).sz }) k
    m ← copy_trapframe (sized.procs me).trapframe (sized.procs np).trapframe sized.memory
    files ← dup_files me np nofile 0 (record sized { memory = m })
    let dup = idup (files.procs me).cwd files
    let child =
        set_proc np
          (record (dup.procs np) {
            cwd = (dup.procs me).cwd;
            name = (dup.procs me).name;
            parent = some me;
            state = runnable;
          })
          dup
    done (pos (child.procs np).pid, enqueue np 0 child)

  abbrev pub minus_one : ℤ
  minus_one = negsuc 0

  -- fork by whether the child's memory could be copied.
  unfoldable pub finish_fork : ℕ → ℕ → Bool → Kernel → Outcome (ℤ × Kernel)
  finish_fork me np true k = start_child me np k
  finish_fork me np false k = do freed ← freeproc np k; done (minus_one, freed)

  -- `uvmcopy(p->pagetable, np->pagetable, p->sz)`; a null page table stops the machine.
  unfoldable pub copy_memory : Option ℕ → Option ℕ → ℕ → Memory → Outcome (Bool × Memory)
  copy_memory (some old) (some new) sz m = vm.uvmcopy old new sz m
  copy_memory _ _ sz m = panic

  unfoldable pub fork_into : ℕ → Option ℕ → Kernel → Outcome (ℤ × Kernel)
  fork_into me none k = done (minus_one, k)
  fork_into me (some np) k = do
    (copied, m) ← copy_memory (k.procs me).pagetable (k.procs np).pagetable (k.procs me).sz k.memory
    finish_fork me np copied (record k { memory = m })

  unfoldable pub fork : ℕ → Kernel → Outcome (ℤ × Kernel)
  fork me k = do (np, allocated) ← allocproc k; fork_into me np allocated
