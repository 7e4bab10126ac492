-- ===== src/Fs/Table.antt =====
-- The inode table of initial-xv6/src/kernel/fs.c has one entry for an inode.
use cpu_scheduling_algos.Prelude.{
  ℕ, ◌+◌, ◌<◌, ◌≡◌, ◌≢◌, refl, ap, ◌∙◌, sym, subst, ◌==◌, ==_refl, true, false, ◌&&◌, inl, inr, ◌⊎◌,
  arith, Bool-cases, Option-cases, none, some, find_from, find_from-some, find_from-none, done,
  panic, done-injective,
}
use cpu_scheduling_algos.Fs.{Fs}
use cpu_scheduling_algos.Fs.Inodes.{ninode, names, is_empty, set_inode, iget}

-- Entries with references to the same inode are one entry.
abbrev pub IsUnique : Fs → Type 0
IsUnique fs =
    (i j : ℕ)
    → i < ninode
    → j < ninode
    → 0 < (fs.inode i).ref
    → 0 < (fs.inode j).ref
    → (fs.inode i).dev ≡ (fs.inode j).dev
    → (fs.inode i).inum ≡ (fs.inode j).inum
    → i ≡ j

-- What iget has done when it returns entry `i`.
pub record Referenced (fs : Fs) (dev inum i : ℕ) (fs' : Fs) : Type 0 where
  pub lt : i < ninode
  pub device : (fs'.inode i).dev ≡ dev
  pub number : (fs'.inode i).inum ≡ inum
  pub count : (fs'.inode i).ref ≡ (fs.inode i).ref + 1
  pub valid : (fs'.inode i).is_valid ≡ (names dev inum fs i && (fs.inode i).is_valid)
  pub others : (j : ℕ) → i ≢ j → fs'.inode j ≡ fs.inode j
  pub block : fs'.block ≡ fs.block
  pub choice :
      (names dev inum fs i ≡ true)
      ⊎ ((is_empty fs i ≡ true) × ((j : ℕ) → j < ninode → names dev inum fs j ≡ false))

iget_hit :
    (fs : Fs) (dev inum i : ℕ)
    → find_from (names dev inum fs) ninode 0 ≡ some i
    → (fs' : Fs) × (iget dev inum fs ≡ done (i, fs')) × Referenced fs dev inum i fs'
unfolding iget
iget_hit fs dev inum i e =
    let (t, lo, hi) = find_from-some (names dev inum fs) ninode 0 i e in
    (
      set_inode i (record (fs.inode i) { ref = (fs.inode i).ref + 1 }) fs,
      rw (e, iget) refl,
      record {
        lt = hi;
        device = ground arith;
        number = ground arith;
        count = ground arith;
        valid = ground arith;
        others = λ j ne. ground arith;
        block = refl;
        choice = inl t;
      },
    )

iget_miss :
    (fs : Fs) (dev inum i : ℕ)
    → find_from (names dev inum fs) ninode 0 ≡ none
    → find_from (is_empty fs) ninode 0 ≡ some i
    → (fs' : Fs) × (iget dev inum fs ≡ done (i, fs')) × Referenced fs dev inum i fs'
unfolding iget
iget_miss fs dev inum i e u =
    let (t, lo, hi) = find_from-some (is_empty fs) ninode 0 i u in
    let absent = find_from-none (names dev inum fs) ninode 0 in
    (
      set_inode i (record (fs.inode i) { dev = dev; inum = inum; ref = 1; is_valid = false }) fs,
      rw (e, u, iget) refl,
      record {
        lt = hi;
        device = ground arith;
        number = ground arith;
        count = ground arith;
        valid = rw (absent i e (omega arith) hi, ==_refl i) refl;
        others = λ j ne. ground arith;
        block = refl;
        choice = inr (t, λ j l. absent j e (omega arith) l);
      },
    )

-- iget(dev, inum) panics only if no entry of the table has the inode and none is empty. Otherwise it counts
-- one reference more on an entry for the inode: the one that the table had, or an empty one if it had
-- none, whose copy is not valid then. No other entry changes, nor a block.
pub iget_lem :
    (fs : Fs) (dev inum : ℕ)
    → ((iget dev inum fs ≡ panic)
        × ((j : ℕ) → j < ninode → (names dev inum fs j ≡ false) × (is_empty fs j ≡ false)))
      ⊎ ((i : ℕ) × (fs' : Fs) × (iget dev inum fs ≡ done (i, fs')) × Referenced fs dev inum i fs')
unfolding iget
iget_lem fs dev inum = elim (Option-cases (find_from (names dev inum fs) ninode 0)) [
  | inr (i, e) ↦ let (fs', run, r) = iget_hit fs dev inum i e in inr (i, fs', run, r)
  | inl e ↦ elim (Option-cases (find_from (is_empty fs) ninode 0)) [
    | inr (i, u) ↦ let (fs', run, r) = iget_miss fs dev inum i e u in inr (i, fs', run, r)
    | inl u ↦ inl (
      rw (e, u, iget) refl,
      λ j l. (
        find_from-none (names dev inum fs) ninode 0 j e (omega arith) l,
        find_from-none (is_empty fs) ninode 0 j u (omega arith) l,
      ),
    )
  ]
]

Referenced-same :
    (fs fs' : Fs) (dev inum i j : ℕ)
    → Referenced fs dev inum i fs'
    → IsUnique fs
    → j < ninode
    → 0 < (fs'.inode j).ref
    → (fs'.inode j).dev ≡ dev
    → (fs'.inode j).inum ≡ inum
    → i ≡ j
Referenced-same fs fs' dev inum i j r unique l pos d n = elim (Bool-cases (i == j)) [
  | inl e ↦ ground arith
  | inr e ↦
      let same = r.others j (ground arith) in
      let named : names dev inum fs j ≡ true = ground arith in
      elim r.choice [
        | inl t ↦ unique i j r.lt l (ground arith) (ground arith) (ground arith) (ground arith)
        | inr (z, all) ↦ let miss = all j l in absurd (ground arith)
      ]
]

Referenced-IsUnique :
    (fs fs' : Fs) (dev inum i : ℕ) → Referenced fs dev inum i fs' → IsUnique fs → IsUnique fs'
Referenced-IsUnique fs fs' dev inum i r unique j k lj lk pj pk d n =
    let same = Referenced-same fs fs' dev inum i in
    elim (Bool-cases (i == j)) [
      | inl e ↦
          let ij : i ≡ j = ground arith in
          sym ij
          ∙ same k r unique lk pk (sym d ∙ ap (λ x. (fs'.inode x).dev) (sym ij) ∙ r.device)
              (sym n ∙ ap (λ x. (fs'.inode x).inum) (sym ij) ∙ r.number)
      | inr e ↦ elim (Bool-cases (i == k)) [
        | inl f ↦
            let ik : i ≡ k = ground arith in
            sym (
              same j r unique lj pj (d ∙ ap (λ x. (fs'.inode x).dev) (sym ik) ∙ r.device)
                (n ∙ ap (λ x. (fs'.inode x).inum) (sym ik) ∙ r.number))
            ∙ ik
        | inr f ↦
            let sj : fs'.inode j ≡ fs.inode j = r.others j (ground arith) in
            let sk : fs'.inode k ≡ fs.inode k = r.others k (ground arith) in
            unique j k lj lk (subst (λ x. 0 < x.ref) sj pj) (subst (λ x. 0 < x.ref) sk pk)
              (sym (ap (λ x. x.dev) sj) ∙ d ∙ ap (λ x. x.dev) sk)
              (sym (ap (λ x. x.inum) sj) ∙ n ∙ ap (λ x. x.inum) sk)
      ]
    ]

-- iget keeps every inode in at most one entry of the table.
pub iget-IsUnique :
    (fs fs' : Fs) (dev inum i : ℕ) → IsUnique fs → iget dev inum fs ≡ done (i, fs') → IsUnique fs'
iget-IsUnique fs fs' dev inum i unique run = elim (iget_lem fs dev inum) [
  | inl (p, u) ↦ absurd (ground arith)
  | inr (i0, fs0, r, got) ↦
      subst IsUnique (ap (λ x. x.1) (done-injective (sym r ∙ run)))
        (Referenced-IsUnique fs fs0 dev inum i0 got unique)
]
