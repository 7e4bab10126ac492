-- ===== src/Tests/World.antt =====
-- Concrete kernels for the tests: small process tables with the remaining slots free.
use cpu_scheduling_algos.Prelude.{
  ℕ, ◌-◌, ◌==◌, if◌then◌else◌, ◌&&◌, true, false, none, some, [], done,
}
use cpu_scheduling_algos.Prelude.Int.{pos}
use cpu_scheduling_algos.Kalloc.{Memory}
use cpu_scheduling_algos.Vm.{Vm}
use cpu_scheduling_algos.Proc.{Proc, Kernel, unused, runnable, no_chan}

abbrev pub free_slot : Proc
free_slot = record {
  syscall_count = λ _. 0;
  state = unused;
  chan = no_chan;
  killed = 0;
  xstate = pos 0;
  pid = 0;
  parent = none;
  kstack = 0;
  sz = 0;
  pagetable = none;
  trapframe = none;
  context = record { ra = 0; sp = 0; saved = λ _. 0 };
  ofile = λ _. none;
  cwd = none;
  name = [];
  rtime = 0;
  ctime = 0;
  etime = 0;
  handler = 0;
  ticks = pos 0;
  cur_ticks = 0;
  alarm_tf = none;
  alarm_on = 0;
  in_alarm_handler = 0;
  tickets = pos 0;
  arrival_time = 0;
  queue_number = 0;
  queueticks = 0;
}

-- A RUNNABLE process with `n` tickets in queue `q`.
abbrev pub ready : ℕ → ℕ → ℕ → Proc
ready pid n q = record free_slot {
  state = runnable;
  pid = pid;
  tickets = pos n;
  queue_number = q;
  arrival_time = 10 - pid;
}

-- Pages 4096 and 8192 are free.
abbrev pub two_pages : Memory
two_pages = record {
  freelist = 4096;
  words = λ pa w. if pa == 4096 then (if w == 0 then 8192 else 0) else 0;
}

abbrev pub kernel_with : (ℕ → Proc) → Kernel
kernel_with procs = record {
  procs = procs;
  multique = λ _ _. none;
  sizeofq = λ _. 0;
  nextpid = 9;
  initproc = none;
  ticks = 5;
  seed = 0;
  memory = two_pages;
  file_ref = λ _. 1;
  inode_ref = λ _. 1;
}

-- Processes 1 and 2 in the slots 0 and 1, with 3 tickets each.
abbrev pub two_ready : ℕ → Proc
two_ready i = if i == 0 then ready 1 3 1 else if i == 1 then ready 2 3 1 else free_slot

-- The two processes stand in queue 1.
abbrev pub queued : Kernel
queued = record (kernel_with two_ready) {
  multique = λ q i. if q == 1 && i == 0 then some 0 else if q == 1 && i == 1 then some 1 else none;
  sizeofq = λ q. if q == 1 then 2 else 0;
}

-- A machine whose page tables are always there.
abbrev pub easy_vm : Vm
easy_vm = record {
  kernel_end = 0;
  trampoline_code = 4096;
  forkret = 0;
  uvmcreate = λ m. (some 7, m);
  mappages = λ _ _ _ _ _ m. done (true, m);
  uvmunmap = λ _ _ _ _ m. done m;
  uvmfree = λ _ _ m. done m;
  uvmcopy = λ _ _ _ m. done (true, m);
  uvmalloc = λ _ _ new m. done (new, m);
  uvmdealloc = λ _ _ new m. done (new, m);
  copyout = λ _ _ _ m. (false, m);
}
