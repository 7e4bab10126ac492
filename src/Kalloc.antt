-- ===== src/Kalloc.antt =====
-- initial-xv6/src/kernel/kalloc.c: the physical page allocator, and page-sized memory.
-- A free page holds the address of the next free page in its first word.
pub mod Chain
use cpu_scheduling_algos.Prelude.{
  ℕ, zero, suc, ◌+◌, ◌-◌, ◌*◌, ◌/◌, ◌%◌, ◌^◌, ◌≤◌, ◌<◌, ◌≡◌, refl, Bool, true, false, ◌||◌, not,
  Option, none, some, List, [], ◌∷◌, arith, ltb, leb, ◌==◌, if◌then◌else◌, update, Outcome, done,
  panic, ◌>>=◌,
}

abbrev pub page_size : ℕ
page_size = 4096

-- memlayout.h: KERNBASE + 128 MB.
abbrev pub phys_stop : ℕ
phys_stop = 0x80000000 + 128 * 1024 * 1024

-- Physical memory by page address and 64-bit word, with `kmem.freelist` (0 is the null pointer).
pub record Memory : Type 0 where
  pub freelist : ℕ
  pub words : ℕ → ℕ → ℕ

-- `memset(pa, c, PGSIZE)`, seen word by word.
abbrev pub fill_page : ℕ → ℕ → Memory → Memory
fill_page pa word m = record m { words = update m.words pa (λ _. word) }

-- `*(struct run *)pa = next`.
abbrev pub set_next : ℕ → ℕ → Memory → Memory
set_next pa next m = record m { words = update m.words pa (update (m.words pa) 0 next) }

-- Eight bytes of 1, and eight bytes of 5: the junk that kfree and kalloc fill a page with.
abbrev pub freed_junk : ℕ
freed_junk = 0x0101010101010101

abbrev pub fresh_junk : ℕ
fresh_junk = 0x0505050505050505

-- `kernel_end` is the linker's symbol `end`, the first address after the kernel.
module _ (kernel_end : ℕ) where
  unfoldable pub bad_page : ℕ → Bool
  bad_page pa = not (pa % page_size == 0) || ltb pa kernel_end || leb phys_stop pa

  unfoldable pub kfree : ℕ → Memory → Outcome Memory
  unfolding bad_page
  kfree pa m =
      let filled = fill_page pa freed_junk m in
      if bad_page pa then panic else done (record (set_next pa m.freelist filled) { freelist = pa })

  -- `for (; p + PGSIZE <= pa_end; p += PGSIZE) kfree(p);` with fuel for the rounds.
  pub freerange_from : ℕ → ℕ → ℕ → Memory → Outcome Memory
  unfolding kfree
  freerange_from zero p pa_end m = done m
  freerange_from (suc fuel) p pa_end m =
      let rest = kfree p m >>= freerange_from fuel (p + page_size) pa_end in
      if leb (p + page_size) pa_end then rest else done m

  -- PGROUNDUP of the start, then one round for each whole page.
  unfoldable pub freerange : ℕ → ℕ → Memory → Outcome Memory
  unfolding freerange_from
  freerange pa_start pa_end m =
      let first = (pa_start + (page_size - 1)) / page_size * page_size in
      freerange_from (pa_end / page_size + 1) first pa_end m

  unfoldable pub kinit : Memory → Outcome Memory
  unfolding freerange
  kinit m = freerange kernel_end phys_stop m

-- The page, or none for the null pointer, and the memory after the call.
unfoldable pub kalloc : Memory → Option ℕ × Memory
kalloc m =
    let r = m.freelist in
    if r == 0
    then (none, m)
    else (some r, fill_page r fresh_junk (record m { freelist = m.words r 0 }))
