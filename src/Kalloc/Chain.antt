-- ===== src/Kalloc/Chain.antt =====
-- kalloc.c against a stack of free pages: the linked list through the free pages' first words.
use cpu_scheduling_algos.Prelude.{
  ℕ, ◌≡◌, ◌≢◌, ◌%◌, ◌<◌, ◌≤◌, ltb, refl, sym, ap, subst, ◌⊎◌, inl, inr, true, false, none, some,
  arith, ◌==◌, Bool-cases, List, [], ◌∷◌, update, done, panic,
}
use cpu_scheduling_algos.Kalloc.{
  Memory, fill_page, set_next, freed_junk, fresh_junk, bad_page, kfree, kalloc,
}

-- Following the links from address `head` visits exactly the pages `xs`, and ends at null.
abbrev pub Chain : (ℕ → ℕ → ℕ) → ℕ → List ℕ → Type 0
Chain words head [] = head ≡ 0
Chain words head (x ∷ xs) = (head ≡ x) × (x ≢ 0) × Chain words (words x 0) xs

-- The page is none of the list.
abbrev pub Avoids : ℕ → List ℕ → Type 0
Avoids pa [] = Unit
Avoids pa (x ∷ xs) = (x ≢ pa) × Avoids pa xs

-- No page stands twice.
abbrev pub PagesDistinct : List ℕ → Type 0
PagesDistinct [] = Unit
PagesDistinct (x ∷ xs) = Avoids x xs × PagesDistinct xs

-- The free pages are `xs`, the next one to be given out first.
abbrev pub IsFree : Memory → List ℕ → Type 0
IsFree m xs = Chain m.words m.freelist xs × PagesDistinct xs

-- A change of other pages leaves a chain as it is.
pub Chain-update :
    (words : ℕ → ℕ → ℕ) (pa head : ℕ) (page : ℕ → ℕ) (xs : List ℕ)
    → Avoids pa xs
    → Chain words head xs
    → Chain (update words pa page) head xs
Chain-update words pa head page [] a c = c
Chain-update words pa head page (x ∷ xs) a c = (
  c.0,
  c.1,
  let same : update words pa page x 0 ≡ words x 0 = ground arith in
      rw same (Chain-update words pa (words x 0) page xs a.1 c.2),
)

linked :
    (pa : ℕ) (m : Memory) (xs : List ℕ)
    → Avoids pa xs
    → Chain m.words m.freelist xs
    → let filled = set_next pa m.freelist (fill_page pa freed_junk m) in
      Chain filled.words (filled.words pa 0) xs
linked pa m xs a c =
    let filled : Memory = set_next pa m.freelist (fill_page pa freed_junk m) in
    let link : filled.words pa 0 ≡ m.freelist = ground arith in
    subst (λ head. Chain filled.words head xs) (sym link)
      (Chain-update (fill_page pa freed_junk m).words pa m.freelist
        (update ((fill_page pa freed_junk m).words pa) 0 m.freelist) xs a
        (Chain-update m.words pa m.freelist (λ _. freed_junk) xs a c))

bad_page-true :
    (kernel_end pa : ℕ)
    → bad_page kernel_end pa ≡ true
    → (pa % 4096 ≢ 0) ⊎ ((pa < kernel_end) ⊎ (0x88000000 ≤ pa))
unfolding bad_page
bad_page-true kernel_end pa h = elim (Bool-cases (pa % 4096 == 0)) [
  | inr f ↦ inl (λ e. ground arith)
  | inl t ↦ elim (Bool-cases (ltb pa kernel_end)) [
    | inl l ↦ inr (inl (ground arith))
    | inr g ↦ inr (inr (ground arith))
  ]
]

bad_page-false :
    (kernel_end pa : ℕ)
    → bad_page kernel_end pa ≡ false
    → (pa % 4096 ≡ 0) × (kernel_end ≤ pa) × (pa < 0x88000000)
unfolding bad_page
bad_page-false kernel_end pa h = (ground arith, ground arith, ground arith)

-- kfree of a page that is not free, nor page 0, panics if its address is not a multiple of 4096, is below the end of
-- the kernel, or is not below PHYSTOP = 0x88000000; otherwise it puts the page in front of the free
-- pages, and fills it with junk but for the link.
pub kfree-IsFree :
    (kernel_end pa : ℕ) (m : Memory) (xs : List ℕ)
    → pa ≢ 0
    → Avoids pa xs
    → IsFree m xs
    → (((pa % 4096 ≢ 0) ⊎ ((pa < kernel_end) ⊎ (0x88000000 ≤ pa)))
        × (kfree kernel_end pa m ≡ panic))
      ⊎ ((m' : Memory) × (pa % 4096 ≡ 0)
          × (kernel_end ≤ pa)
          × (pa < 0x88000000)
          × (kfree kernel_end pa m ≡ done m')
          × IsFree m' (pa ∷ xs)
          × ((w : ℕ) → w ≢ 0 → m'.words pa w ≡ freed_junk))
unfolding kfree
kfree-IsFree kernel_end pa m xs ne a free = elim (Bool-cases (bad_page kernel_end pa)) [
  | inl h ↦ inl (bad_page-true kernel_end pa h, rw h)
  | inr h ↦
      let (aligned, low, high) = bad_page-false kernel_end pa h in
      inr (
        record (set_next pa m.freelist (fill_page pa freed_junk m)) { freelist = pa },
        aligned,
        low,
        high,
        rw h,
        ((refl, ne, linked pa m xs a free.0), (a, free.1)),
        λ w nz. ground arith,
      )
]

-- What kalloc comes to, by the free pages.
abbrev pub Served : Memory → List ℕ → Type 0
Served m [] = kalloc m ≡ (none, m)
Served m (x ∷ xs) =
    ((kalloc m).0 ≡ some x)
    × IsFree (kalloc m).1 xs
    × ((w : ℕ) → (kalloc m).1.words x w ≡ fresh_junk)
    × ((pa w : ℕ) → x ≢ pa → (kalloc m).1.words pa w ≡ m.words pa w)

kalloc-some :
    (m : Memory)
    → m.freelist ≢ 0
    → kalloc m ≡ (
      some m.freelist,
      fill_page m.freelist fresh_junk (record m { freelist = m.words m.freelist 0 }),
    )
unfolding kalloc
kalloc-some m ne = let test : (m.freelist == 0) ≡ false = ground arith in rw test

kalloc_takes : (m : Memory) (x : ℕ) (xs : List ℕ) → IsFree m (x ∷ xs) → Served m (x ∷ xs)
kalloc_takes m x xs free =
    let head : m.freelist ≡ x = free.0.0 in
    rw (kalloc-some m (rw head free.0.1)) (
      ap some head,
      (
        Chain-update m.words m.freelist (m.words m.freelist 0) (λ _. fresh_junk) xs
            (rw head free.1.0) (rw head free.0.2),
        free.1.1,
      ),
      λ w. ground arith,
      λ pa w ne. ground arith,
    )

-- With free pages `xs`, kalloc takes the first and fills it with junk, and the rest stays free and
-- every other page keeps its contents; with none it fails without a change.
pub kalloc-Served : (m : Memory) (xs : List ℕ) → IsFree m xs → Served m xs
unfolding kalloc
kalloc-Served m [] free = ground arith
kalloc-Served m (x ∷ xs) free = kalloc_takes m x xs free
