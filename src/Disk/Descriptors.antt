-- ===== src/Disk/Descriptors.antt =====
-- The functions on descriptors of initial-xv6/src/kernel/virtio_disk.c, on each of their branches.
use cpu_scheduling_algos.Prelude.{
  ℕ, ◌<◌, ◌≡◌, ◌≢◌, ◌⊎◌, inl, inr, refl, leb, true, false, Option, none, some, update, find_from,
  find_from-some, Option-cases, done, arith,
}
use cpu_scheduling_algos.Waiting.{wakeup}
use cpu_scheduling_algos.Disk.{Disk, ndesc, no_desc, free_chan, alloc_desc, free_desc, alloc3_desc}

-- The disk with the descriptor `i` taken, and with it given back.
abbrev pub taken : ℕ → Disk → Disk
taken i d = record d { is_free = update d.is_free i false }

abbrev pub given_back : Option ℕ → ℕ → Disk → Disk
given_back me i d = record d {
  desc = update d.desc i no_desc;
  is_free = update d.is_free i true;
  kernel = wakeup me free_chan d.kernel;
}

alloc_desc-cases :
    (d : Disk)
    → (alloc_desc d ≡ none)
      ⊎ ((i : ℕ) × (alloc_desc d ≡ some (i, taken i d)) × (i < ndesc) × (d.is_free i ≡ true))
unfolding alloc_desc
alloc_desc-cases d = elim (Option-cases (find_from d.is_free ndesc 0)) [
  | inl e ↦ inl (rw (e, alloc_desc) refl)
  | inr (i, e) ↦
      let h = find_from-some d.is_free ndesc 0 i e in
      inr (i, rw (e, alloc_desc) refl, omega (arith, h.2), h.0)
]

pub free_desc-done :
    (me : Option ℕ) (i : ℕ) (d : Disk)
    → i < ndesc
    → d.is_free i ≡ false
    → free_desc me i d ≡ done (given_back me i d)
unfolding free_desc
free_desc-done me i d hi h = let l : leb ndesc i ≡ false = ground (arith, hi) in rw (l, h) refl

-- alloc3_desc either takes three different free descriptors and changes nothing else, or gives back what it
-- took: then the free descriptors are those from before, and the descriptors in use have not changed.
pub alloc3_desc-cases :
    (me : Option ℕ) (d : Disk)
    → ((i : ℕ) × (j : ℕ) × (k : ℕ) × (alloc3_desc me d
          ≡ done (some (i, j, k), taken k (taken j (taken i d))))
        × ((d.is_free i ≡ true) × (d.is_free j ≡ true) × (d.is_free k ≡ true))
        × ((i < ndesc) × (j < ndesc) × (k < ndesc))
        × ((i ≢ j) × (i ≢ k) × (j ≢ k)))
      ⊎ ((d' : Disk) × (alloc3_desc me d ≡ done (none, d'))
          × ((a : ℕ) → d'.is_free a ≡ d.is_free a)
          × ((a : ℕ) → d.is_free a ≡ false → d'.desc a ≡ d.desc a))
unfolding alloc3_desc
alloc3_desc-cases me d = elim (alloc_desc-cases d) [
  | inl e ↦ inr (d, rw (e, alloc3_desc) refl, λ a. refl, λ a h. refl)
  | inr (i, ei, hi, fi) ↦ elim (alloc_desc-cases (taken i d)) [
    | inl e ↦ inr (
      given_back me i (taken i d),
      rw (ei, e, free_desc-done me i (taken i d) hi (ground arith), alloc3_desc) refl,
      λ a. ground (arith, fi),
      λ a h. ground (arith, fi, h),
    )
    | inr (j, ej, hj, fj) ↦ elim (alloc_desc-cases (taken j (taken i d))) [
      | inl e ↦
          let two = taken j (taken i d) in
          inr (
            given_back me j (given_back me i two),
            rw
                (
                  ei,
                  ej,
                  e,
                  free_desc-done me i two hi (ground arith),
                  free_desc-done me j (given_back me i two) hj (ground arith),
                  alloc3_desc,
                )
                refl,
            λ a. ground (arith, fi, fj),
            λ a h. ground (arith, fi, fj, h),
          )
      | inr (k, ek, hk, fk) ↦ inl (
        i,
        j,
        k,
        rw (ei, ej, ek, alloc3_desc) refl,
        (ground (arith, fi), ground (arith, fj), ground (arith, fj, fk)),
        (hi, hj, hk),
        (λ x. ground (arith, fj), λ x. ground (arith, fk), λ x. ground (arith, fk)),
      )
    ]
  ]
]
