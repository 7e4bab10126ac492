-- ===== src/Paging/KernelMap.antt =====
-- The kernel's own page table: kvmmap and kvmmake of initial-xv6/src/kernel/vm.c, proc_mapstacks of
-- proc.c; and the operations of vm.c that the process side takes.
use cpu_scheduling_algos.Prelude.{ℕ, zero, suc, ◌+◌, ◌-◌, true, false, Outcome, done, panic, ◌>>=◌}
use cpu_scheduling_algos.Kalloc.{Memory, page_size, phys_stop, fill_page, kalloc}
use cpu_scheduling_algos.Vm.{Vm, trampoline, kstack_of, pte_rw, pte_rx}
use cpu_scheduling_algos.Proc.{nproc}
use cpu_scheduling_algos.Trap.{page_of}
use cpu_scheduling_algos.Paging.{mappages, uvmunmap}
use cpu_scheduling_algos.Paging.User.{uvmcreate, uvmdealloc, uvmalloc, uvmfree, uvmcopy}
use cpu_scheduling_algos.Paging.Copy.{copyout}

-- kvmmap(kpgtbl, va, pa, sz, perm)
unfoldable pub kvmmap : ℕ → ℕ → ℕ → ℕ → ℕ → Memory → Outcome Memory
unfolding mappages
kvmmap table va pa sz perm m = do
  (mapped, m1) ← mappages table va sz pa perm m
  elim mapped [ true ↦ done m1 | false ↦ panic ]

-- proc_mapstacks(kpgtbl): a page for the kernel stack of each process from `i` on.
unfoldable pub map_stacks : ℕ → ℕ → ℕ → Memory → Outcome Memory
unfolding kalloc kvmmap
map_stacks zero i table m = done m
map_stacks (suc n) i table m = do
  let (page, m1) = kalloc m
  pa ← page_of page
  m2 ← kvmmap table (kstack_of i) pa page_size pte_rw m1
  map_stacks n (i + 1) table m2

-- memlayout.h: UART0, VIRTIO0, PLIC, KERNBASE.
abbrev pub uart0 : ℕ
uart0 = 0x10000000

abbrev pub virtio0 : ℕ
virtio0 = 0x10001000

abbrev pub plic : ℕ
plic = 0x0c000000

abbrev pub kernbase : ℕ
kernbase = 0x80000000

-- kvmmake(), for the end of the kernel's text and the trampoline's address: the table.
unfoldable pub kvmmake : ℕ → ℕ → Memory → Outcome (ℕ × Memory)
unfolding kalloc kvmmap map_stacks
kvmmake etext trampoline_code m = do
  let (page, m0) = kalloc m
  table ← page_of page
  m1 ← kvmmap table uart0 uart0 page_size pte_rw (fill_page table 0 m0)
  m2 ← kvmmap table virtio0 virtio0 page_size pte_rw m1
  m3 ← kvmmap table plic plic 0x400000 pte_rw m2
  m4 ← kvmmap table kernbase kernbase (etext - kernbase) pte_rx m3
  m5 ← kvmmap table etext etext (phys_stop - etext) pte_rw m4
  m6 ← kvmmap table trampoline trampoline_code page_size pte_rx m5
  m7 ← map_stacks nproc 0 table m6
  done (table, m7)

-- The interface of Vm, filled by vm.c. growproc passes PTE_W, 4, to uvmalloc.
abbrev pub xv6_vm : ℕ → ℕ → ℕ → Vm
xv6_vm kernel_end trampoline_code forkret = record {
  kernel_end = kernel_end;
  trampoline_code = trampoline_code;
  forkret = forkret;
  uvmcreate = uvmcreate;
  mappages = mappages;
  uvmunmap = uvmunmap kernel_end;
  uvmfree = uvmfree kernel_end;
  uvmcopy = uvmcopy kernel_end;
  uvmalloc = λ table oldsz newsz m. uvmalloc kernel_end table oldsz newsz 4 m;
  uvmdealloc = uvmdealloc kernel_end;
  copyout = copyout;
}
