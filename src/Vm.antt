-- ===== src/Vm.antt =====
-- What proc.c, syscall.c and sysproc.c ask of initial-xv6/src/kernel/vm.c, and the constants of
-- memlayout.h and riscv.h that they pass to it. Page tables live in physical memory, so each
-- operation takes the memory and returns it changed; `true` is the C result 0, and `false` is -1.
use cpu_scheduling_algos.Prelude.{ℕ, ◌+◌, ◌-◌, ◌*◌, ◌^◌, Bool, Option, List, Outcome}
use cpu_scheduling_algos.Kalloc.{Memory, page_size}

pub record Vm : Type 0 where
  pub kernel_end : ℕ
  pub trampoline_code : ℕ
  pub forkret : ℕ
  pub uvmcreate : Memory → Option ℕ × Memory
  -- page table, virtual address, size, physical address, permissions
  pub mappages : ℕ → ℕ → ℕ → ℕ → ℕ → Memory → Outcome (Bool × Memory)
  -- page table, virtual address, pages, whether the physical pages are freed
  pub uvmunmap : ℕ → ℕ → ℕ → Bool → Memory → Outcome Memory
  -- page table, size
  pub uvmfree : ℕ → ℕ → Memory → Outcome Memory
  -- old page table, new page table, size
  pub uvmcopy : ℕ → ℕ → ℕ → Memory → Outcome (Bool × Memory)
  -- page table, old size, new size: the size reached, 0 on failure
  pub uvmalloc : ℕ → ℕ → ℕ → Memory → Outcome (ℕ × Memory)
  pub uvmdealloc : ℕ → ℕ → ℕ → Memory → Outcome (ℕ × Memory)
  -- page table, virtual address, bytes
  pub copyout : ℕ → ℕ → List ℕ → Memory → Bool × Memory

-- `1 << 38`
abbrev pub max_va : ℕ
max_va = 2 ^ 38

abbrev pub trampoline : ℕ
trampoline = max_va - page_size

abbrev pub trapframe_va : ℕ
trapframe_va = trampoline - page_size

-- KSTACK(p): kernel stacks below the trampoline, each with a guard page under it.
abbrev pub kstack_of : ℕ → ℕ
kstack_of p = trampoline - (p + 1) * 2 * page_size

-- PTE_R | PTE_W and PTE_R | PTE_X.
abbrev pub pte_rw : ℕ
pte_rw = 2 + 4

abbrev pub pte_rx : ℕ
pte_rx = 2 + 8
