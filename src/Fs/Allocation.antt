-- ===== src/Fs/Allocation.antt =====
-- balloc() and bfree() of initial-xv6/src/kernel/fs.c against the set of the blocks in use.
use cpu_scheduling_algos.Prelude.{
  ℕ, zero, suc, ◌+◌, ◌/◌, ◌%◌, ◌<◌, ◌≡◌, ◌≢◌, refl, ap, ◌∙◌, sym, subst, ◌==◌, ==_refl, ltb,
  if◌then◌else◌, true, false, inl, inr, ◌⊎◌, arith, Bool-cases, done, panic,
}
use cpu_scheduling_algos.Fs.{Fs, bsize, bpb, bblock, map_bit, mark, log_data, balloc, bfree}
use cpu_scheduling_algos.Fs.Rounds.{
  in_use, IsReserved, block-log_data_other, in_use-mark, take_block, balloc_from_lem,
}

-- What balloc has done when it returns block `b`.
pub record Allocated (fs : Fs) (dev b : ℕ) (fs' : Fs) : Type 0 where
  pub lt : b < fs.sb.size
  pub free : in_use fs dev b ≡ false
  pub taken : in_use fs' dev b ≡ true
  pub others : (j : ℕ) → j < fs.sb.size → b ≢ j → in_use fs' dev j ≡ in_use fs dev j
  pub zeroed : (i : ℕ) → i < bsize → fs'.block dev b i ≡ 0
  pub blocks : (c : ℕ) → b ≢ c → bblock b fs ≢ c → fs'.block dev c ≡ fs.block dev c
  pub sb : fs'.sb ≡ fs.sb

false_true : {A : Type 0} → false ≡ true → A
false_true e = absurd (ground arith)

take_block-Allocated :
    (dev b : ℕ) (fs : Fs)
    → IsReserved fs dev
    → b < fs.sb.size
    → in_use fs dev b ≡ false
    → Allocated fs dev b (take_block dev b fs)
take_block-Allocated dev b fs reserved lt free =
    let content = mark true (b % bpb) (fs.block dev (bblock b fs)) in
    let marked = log_data dev (bblock b fs) content fs in
    let apart : (j : ℕ) → j < fs.sb.size → b ≢ bblock j fs = λ j l e.
      (let held = reserved j l in absurd (false_true (sym free ∙ ap (in_use fs dev) e ∙ held))) in
    let zero_bits : (j : ℕ)
        → j < fs.sb.size
        → in_use (take_block dev b fs) dev j ≡ in_use marked dev j =
      λ j l. ap (map_bit (j % bpb)) (
        block-log_data_other dev b (bblock j fs)
          (λ i. if ltb i bsize then 0 else marked.block dev b i) marked (apart j l)) in
    record {
      lt = lt;
      free = free;
      taken = zero_bits b lt ∙ in_use-mark true fs dev b b ∙ rw (==_refl b) refl;
      others = λ j l ne. zero_bits j l ∙ in_use-mark true fs dev b j ∙ ground arith;
      zeroed = λ i l. ground arith;
      blocks = λ c ne nm.
          block-log_data_other dev b c (λ i. if ltb i bsize then 0 else marked.block dev b i) marked
            ne
          ∙ block-log_data_other dev (bblock b fs) c content fs nm;
      sb = refl;
    }

balloc_cases :
    (fs : Fs) (dev : ℕ)
    → IsReserved fs dev
    → ((balloc dev fs ≡ (0, fs)) × ((j : ℕ) → j < fs.sb.size → in_use fs dev j ≡ true))
      ⊎ ((b : ℕ) × (fs' : Fs) × (balloc dev fs ≡ (b, fs'))
          × Allocated fs dev b fs'
          × ((j : ℕ) → j < b → in_use fs dev j ≡ true))
unfolding balloc
balloc_cases fs dev reserved =
    elim (balloc_from_lem (fs.sb.size / bpb + 1) 0 dev fs (omega arith)) [
      | inl (r, all) ↦ inl (r, λ j lt. all j (omega arith) lt)
      | inr (b, r, (lt, free, least)) ↦ inr (
        b,
        take_block dev b fs,
        r,
        take_block-Allocated dev b fs reserved lt free,
        λ j lt. least j (omega arith) lt,
      )
    ]

-- If block 0 and the blocks of the map are in use, balloc(dev) returns 0 only if every block of the disk
-- is in use, and changes nothing then. Otherwise it returns the first block that is not: the block is in
-- use then, no other block's bit changes, its bytes are zero, and no other block changes but that of the
-- map.
pub balloc_lem :
    (fs : Fs) (dev : ℕ)
    → IsReserved fs dev
    → in_use fs dev 0 ≡ true
    → ((balloc dev fs ≡ (0, fs)) × ((j : ℕ) → j < fs.sb.size → in_use fs dev j ≡ true))
      ⊎ ((b : ℕ) × (fs' : Fs) × (balloc dev fs ≡ (b, fs'))
          × (0 < b)
          × Allocated fs dev b fs'
          × ((j : ℕ) → j < b → in_use fs dev j ≡ true))
balloc_lem fs dev reserved boot = elim (balloc_cases fs dev reserved) [
  | inl full ↦ inl full
  | inr (b, fs', run, taken, least) ↦ inr (b, fs', run, nonzero b taken.free, taken, least)
]
  where
    nonzero : (b : ℕ) → in_use fs dev b ≡ false → 0 < b
    nonzero zero free = false_true (sym free ∙ boot)
    nonzero (suc b) free = omega arith

-- bfree(dev, b) panics exactly if the block is free, and otherwise clears its bit and no other.
pub bfree_lem :
    (fs : Fs) (dev b : ℕ)
    → ((in_use fs dev b ≡ false) × (bfree dev b fs ≡ panic))
      ⊎ ((fs' : Fs) × (in_use fs dev b ≡ true)
          × (bfree dev b fs ≡ done fs')
          × ((j : ℕ) → in_use fs' dev j ≡ (if b == j then false else in_use fs dev j))
          × ((c : ℕ) → bblock b fs ≢ c → fs'.block dev c ≡ fs.block dev c))
unfolding bfree
bfree_lem fs dev b = elim (Bool-cases (in_use fs dev b)) [
  | inr f ↦ inl (f, rw (f, bfree) refl)
  | inl t ↦
      let content = mark false (b % bpb) (fs.block dev (bblock b fs)) in
      inr (
        log_data dev (bblock b fs) content fs,
        t,
        rw (t, bfree) refl,
        λ j. in_use-mark false fs dev b j,
        λ c ne. block-log_data_other dev (bblock b fs) c content fs ne,
      )
]

Allocated-bfree :
    (fs fs' : Fs) (dev b : ℕ)
    → Allocated fs dev b fs'
    → (fs'' : Fs) × (bfree dev b fs' ≡ done fs'')
      × ((j : ℕ) → j < fs.sb.size → in_use fs'' dev j ≡ in_use fs dev j)
Allocated-bfree fs fs' dev b a = elim (bfree_lem fs' dev b) [
  | inl (f, p) ↦ false_true (sym f ∙ a.taken)
  | inr (fs2, t, run, bits, blocks) ↦ (
    fs2,
    run,
    λ j l. elim (Bool-cases (b == j)) [
      | inl e ↦ let bj : b ≡ j = ground arith in bits j ∙ rw e (sym a.free ∙ ap (in_use fs dev) bj)
      | inr f ↦ bits j ∙ rw f (a.others j l (ground arith))
    ],
  )
]

-- If the blocks of the map are in use and balloc(dev) returns a block, bfree() of that block returns, and
-- every block is in use then exactly if it was before.
pub bfree-balloc :
    (fs fs' : Fs) (dev b : ℕ)
    → IsReserved fs dev
    → 0 < b
    → balloc dev fs ≡ (b, fs')
    → (fs'' : Fs) × (bfree dev b fs' ≡ done fs'')
      × ((j : ℕ) → j < fs.sb.size → in_use fs'' dev j ≡ in_use fs dev j)
bfree-balloc fs fs' dev b reserved pos run = elim (balloc_cases fs dev reserved) [
  | inl (r, all) ↦ let z : 0 ≡ b = ap (λ x. x.0) (sym r ∙ run) in absurd (ground arith)
  | inr (b0, fs0, r, a, least) ↦
      let e = sym r ∙ run in
      Allocated-bfree fs fs' dev b (
        subst (λ x. Allocated fs dev x fs') (ap (λ x. x.0) e)
          (subst (Allocated fs dev b0) (ap (λ x. x.1) e) a))
]
