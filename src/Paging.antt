-- ===== src/Paging.antt =====
-- initial-xv6/src/kernel/vm.c: page tables of three levels in physical memory. A page table is a page of
-- 512 words, its entries; a pointer to an entry is the page and the index. Memory is in Kalloc.
pub mod User
pub mod Copy
pub mod KernelMap
pub mod Lookup
pub mod Mapping
use cpu_scheduling_algos.Prelude.{
  ℕ, zero, suc, ◌+◌, ◌-◌, ◌*◌, ◌/◌, ◌%◌, ◌^◌, ◌==◌, ltb, leb, if◌then◌else◌, Bool, true, false, not,
  ◌&&◌, ◌||◌, Option, none, some, update, Outcome, done, panic, ◌>>=◌,
}
use cpu_scheduling_algos.Kalloc.{Memory, page_size, fill_page, kalloc, kfree}
use cpu_scheduling_algos.Vm.{max_va}

-- riscv.h: PTE2PA and PA2PTE in 64 bits, and the flags of an entry.
abbrev pub pte_pa : ℕ → ℕ
pte_pa pte = pte / 1024 * 4096 % 2 ^ 64

abbrev pub pa_pte : ℕ → ℕ
pa_pte pa = pa / 4096 * 1024

abbrev pub pte_flags : ℕ → ℕ
pte_flags pte = pte % 1024

-- `pte & PTE_V`, `pte & PTE_U`, and whether one of PTE_R, PTE_W, PTE_X is set.
abbrev pub is_valid : ℕ → Bool
is_valid pte = pte % 2 == 1

abbrev pub is_user : ℕ → Bool
is_user pte = pte / 16 % 2 == 1

abbrev pub is_leaf : ℕ → Bool
is_leaf pte = not (pte / 2 % 8 == 0)

-- `PA2PTE(pa) | perm | PTE_V`, for flags `perm` below 1024: PA2PTE leaves their bits free, and PTE_V is the
-- lowest bit.
abbrev pub make_pte : ℕ → ℕ → ℕ
make_pte pa perm = pa_pte pa + (perm / 2 * 2 + 1)

-- PX(level, va): nine bits of the address.
abbrev pub px : ℕ → ℕ → ℕ
px level va = va / 2 ^ (12 + 9 * level) % 512

abbrev pub round_down : ℕ → ℕ
round_down a = a / page_size * page_size

abbrev pub round_up : ℕ → ℕ
round_up a = (a + (page_size - 1)) / page_size * page_size

-- `table[i] = word`
abbrev pub set_word : ℕ → ℕ → ℕ → Memory → Memory
set_word table i word m = record m { words = update m.words table (update (m.words table) i word) }

-- One round of walk: the table of the next level, none if there is none and none could be made.
unfoldable pub descend : Bool → ℕ → ℕ → ℕ → Memory → Option ℕ × Memory
descend alloc level va table m =
    let pte = m.words table (px level va) in
    let (page, m1) = kalloc m in
    if is_valid pte
    then (some (pte_pa pte), m)
    else if alloc
    then (elim page [
      | none ↦ (none, m1)
      | some p ↦ (some p, set_word table (px level va) (make_pte p 0) (fill_page p 0 m1))
    ])
    else (none, m)

-- walk for an address below MAXVA: the entry's table and index.
unfoldable pub walk_low : Bool → ℕ → ℕ → Memory → Option (ℕ × ℕ) × Memory
walk_low alloc table va m =
    let (middle, m1) = descend alloc 2 va table m in
    elim middle [
      | none ↦ (none, m1)
      | some t1 ↦
          let (bottom, m2) = descend alloc 1 va t1 m1 in
          elim bottom [ none ↦ (none, m2) | some t0 ↦ (some (t0, px 0 va), m2) ]
    ]

-- walk(pagetable, va, alloc)
unfoldable pub walk : ℕ → ℕ → Bool → Memory → Outcome (Option (ℕ × ℕ) × Memory)
walk table va alloc m = if leb max_va va then panic else done (walk_low alloc table va m)

-- What walkaddr makes of the entry that it finds.
abbrev pub user_page : Memory → Option (ℕ × ℕ) → Option ℕ
user_page m none = none
user_page m (some (t, i)) =
    let pte = m.words t i in
    if is_valid pte && is_user pte && not (pte_pa pte == 0) then some (pte_pa pte) else none

-- walkaddr(pagetable, va): none for 0, which its callers take for a failure.
unfoldable pub walkaddr : ℕ → ℕ → Memory → Option ℕ
walkaddr table va m = if leb max_va va then none else user_page m (walk_low false table va m).0

-- The loop of mappages with its result, 0 or -1. It needs no more rounds than there are pages below
-- MAXVA, since walk panics there.
unfoldable pub map_pages : ℕ → ℕ → ℕ → ℕ → ℕ → ℕ → Memory → Outcome (Bool × Memory)
map_pages zero table a last pa perm m = panic
map_pages (suc fuel) table a last pa perm m = do
  (slot, m1) ← walk table a true m
  elim slot [
    | none ↦ done (false, m1)
    | some (t, i) ↦
        let mapped = set_word t i (make_pte pa perm) m1 in
        let rest =
          map_pages fuel table (a + page_size) last ((pa + page_size) % 2 ^ 64) perm mapped in
        if is_valid (m1.words t i) then panic else if a == last then done (true, mapped) else rest
  ]

-- mappages(pagetable, va, size, pa, perm)
unfoldable pub mappages : ℕ → ℕ → ℕ → ℕ → ℕ → Memory → Outcome (Bool × Memory)
mappages table va size pa perm m =
    if size == 0
    then panic
    else map_pages (max_va / page_size + 1) table (round_down va)
        (round_down ((va + (size - 1)) % 2 ^ 64)) pa perm m

module _ (kernel_end : ℕ) where
  -- `if (do_free) kfree(pa);`
  abbrev pub free_if : Bool → ℕ → Memory → Outcome Memory
  free_if false pa m = done m
  free_if true pa m = kfree kernel_end pa m

  -- The loop of uvmunmap over the pages that are left.
  unfoldable pub unmap_pages : ℕ → ℕ → ℕ → Bool → Memory → Outcome Memory
  unmap_pages zero table a do_free m = done m
  unmap_pages (suc n) table a do_free m = do
    (slot, m1) ← walk table a false m
    elim slot [
      | none ↦ panic
      | some (t, i) ↦
          let pte = m1.words t i in
          let rest = free_if do_free (pte_pa pte) m1 >>= λ m2.
          unmap_pages n table (a + page_size) do_free (set_word t i 0 m2) in
          if not (is_valid pte) || pte_flags pte == 1 then panic else rest
    ]

  -- uvmunmap(pagetable, va, npages, do_free)
  unfoldable pub uvmunmap : ℕ → ℕ → ℕ → Bool → Memory → Outcome Memory
  uvmunmap table va npages do_free m =
      if va % page_size == 0 then unmap_pages npages table va do_free m else panic
