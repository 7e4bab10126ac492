-- ===== src/Paging/User.antt =====
-- User address spaces in initial-xv6/src/kernel/vm.c: uvmcreate to uvmclear.
use cpu_scheduling_algos.Prelude.{
  ℕ, zero, suc, ◌+◌, ◌-◌, ◌/◌, ltb, leb, if◌then◌else◌, Bool, true, false, Option, none, some,
  update, Outcome, done, panic, ◌>>=◌,
}
use cpu_scheduling_algos.Kalloc.{Memory, page_size, fill_page, kalloc, kfree}
use cpu_scheduling_algos.Paging.{
  pte_pa, pte_flags, is_valid, is_user, is_leaf, round_up, set_word, walk, mappages, uvmunmap,
}

-- uvmcreate(): none for a null pointer.
unfoldable pub uvmcreate : Memory → Option ℕ × Memory
unfolding kalloc
uvmcreate m =
    let (page, m1) = kalloc m in
    elim page [ none ↦ (none, m1) | some p ↦ (some p, fill_page p 0 m1) ]

-- The words of a page from `w` on.
abbrev pub copy_page : ℕ → ℕ → Memory → Memory
copy_page dst src m = record m {
  words = update m.words dst (λ w. if ltb w 512 then m.words src w else m.words dst w);
}

module _ (kernel_end : ℕ) where
  -- uvmdealloc(pagetable, oldsz, newsz): the new size.
  unfoldable pub uvmdealloc : ℕ → ℕ → ℕ → Memory → Outcome (ℕ × Memory)
  unfolding uvmunmap
  uvmdealloc table oldsz newsz m =
      if leb oldsz newsz
      then done (oldsz, m)
      else if ltb (round_up newsz) (round_up oldsz)
      then (do
        m1 ←
            uvmunmap kernel_end table (round_up newsz)
              ((round_up oldsz - round_up newsz) / page_size) true m
        done (newsz, m1))
      else done (newsz, m)

  -- `uvmdealloc(pagetable, a, oldsz); return 0;`
  unfoldable pub give_up : ℕ → ℕ → ℕ → Memory → Outcome (ℕ × Memory)
  unfolding uvmdealloc
  give_up table a oldsz m = do (size, m1) ← uvmdealloc table a oldsz m; done (0, m1)

  -- One page of uvmalloc's loop, and the rest of the loop. The permissions are PTE_R and PTE_U, 2 and 16,
  -- with those of `xperm`, which are others.
  unfoldable pub alloc_pages : ℕ → ℕ → ℕ → ℕ → ℕ → ℕ → Memory → Outcome (ℕ × Memory)
  unfolding kalloc give_up mappages
  alloc_pages zero table a oldsz newsz xperm m = done (newsz, m)
  alloc_pages (suc n) table a oldsz newsz xperm m =
      let (page, m1) = kalloc m in
      elim page [
        | none ↦ give_up table a oldsz m1
        | some mem ↦ do
          (mapped, m2) ← mappages table a page_size mem (18 + xperm) (fill_page mem 0 m1)
          elim mapped [
            | true ↦ alloc_pages n table (a + page_size) oldsz newsz xperm m2
            | false ↦ kfree kernel_end mem m2 >>= give_up table a oldsz
          ]
      ]

  -- uvmalloc(pagetable, oldsz, newsz, xperm): the new size, 0 on failure.
  unfoldable pub uvmalloc : ℕ → ℕ → ℕ → ℕ → Memory → Outcome (ℕ × Memory)
  unfolding alloc_pages
  uvmalloc table oldsz newsz xperm m =
      let first = round_up oldsz in
      if ltb newsz oldsz
      then done (oldsz, m)
      else alloc_pages ((newsz - first + (page_size - 1)) / page_size) table first first newsz xperm
          m

  -- The loop of freewalk over the entries that are left; `free_child` is the recursive call.
  unfoldable pub free_entries : (ℕ → Memory → Outcome Memory) → ℕ → ℕ → ℕ → Memory → Outcome Memory
  free_entries free_child zero i table m = done m
  free_entries free_child (suc n) i table m =
      let pte = m.words table i in
      let rest = free_entries free_child n (i + 1) table m in
      let freed = free_child (pte_pa pte) m >>= λ m1.
      free_entries free_child n (i + 1) table (set_word table i 0 m1) in
      if is_valid pte then (if is_leaf pte then panic else freed) else rest

  -- freewalk(pagetable) of a table of level `depth - 1`. Page tables have three levels, 2 to 0; a table below
  -- those would not end the recursion.
  unfoldable pub freewalk : ℕ → ℕ → Memory → Outcome Memory
  unfolding free_entries
  freewalk zero table m = panic
  freewalk (suc depth) table m =
      free_entries (freewalk depth) 512 0 table m >>= kfree kernel_end table

  -- uvmfree(pagetable, sz)
  unfoldable pub uvmfree : ℕ → ℕ → Memory → Outcome Memory
  unfolding uvmunmap freewalk
  uvmfree table sz m =
      (if ltb 0 sz then uvmunmap kernel_end table 0 (round_up sz / page_size) true m else done m)
      >>= freewalk 3 table

  -- The error exit of uvmcopy at the page of address `i`.
  unfoldable pub undo_copy : ℕ → ℕ → Memory → Outcome (Bool × Memory)
  unfolding uvmunmap
  undo_copy new i m = do m1 ← uvmunmap kernel_end new 0 (i / page_size) true m; done (false, m1)

  -- One page of uvmcopy: its entry in the old table is `pte`. `rest` is the rest of the loop.
  unfoldable pub copy_entry :
      ℕ → ℕ → ℕ → (Memory → Outcome (Bool × Memory)) → Memory → Outcome (Bool × Memory)
  unfolding kalloc mappages undo_copy
  copy_entry new i pte rest m =
      let (page, m1) = kalloc m in
      elim page [
        | none ↦ undo_copy new i m1
        | some mem ↦ do
          (mapped, m2) ←
              mappages new i page_size mem (pte_flags pte) (copy_page mem (pte_pa pte) m1)
          elim mapped [ true ↦ rest m2 | false ↦ kfree kernel_end mem m2 >>= undo_copy new i ]
      ]

  unfoldable pub copy_pages : ℕ → ℕ → ℕ → ℕ → Memory → Outcome (Bool × Memory)
  unfolding walk copy_entry
  copy_pages zero old new i m = done (true, m)
  copy_pages (suc n) old new i m = do
    (slot, m1) ← walk old i false m
    elim slot [
      | none ↦ panic
      | some (t, e) ↦
          let pte = m1.words t e in
          if is_valid pte
          then copy_entry new i pte (copy_pages n old new (i + page_size)) m1
          else panic
    ]

  -- uvmcopy(old, new, sz): `true` for 0.
  unfoldable pub uvmcopy : ℕ → ℕ → ℕ → Memory → Outcome (Bool × Memory)
  unfolding copy_pages
  uvmcopy old new sz m = copy_pages ((sz + (page_size - 1)) / page_size) old new 0 m

-- uvmclear(pagetable, va): `*pte &= ~PTE_U`, and PTE_U is 16.
unfoldable pub uvmclear : ℕ → ℕ → Memory → Outcome Memory
unfolding walk
uvmclear table va m = do
  (slot, m1) ← walk table va false m
  elim slot [
    | none ↦ panic
    | some (t, i) ↦
        let pte = m1.words t i in done (set_word t i (if is_user pte then pte - 16 else pte) m1)
  ]
