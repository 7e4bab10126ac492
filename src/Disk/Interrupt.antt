-- ===== src/Disk/Interrupt.antt =====
-- virtio_disk_intr of initial-xv6/src/kernel/virtio_disk.c on the entries that the device has added.
use cpu_scheduling_algos.Prelude.{
  ℕ, zero, suc, ◌+◌, ◌-◌, ◌<◌, ◌%◌, ◌==◌, ◌≡◌, refl, sym, ◌∙◌, ap, subst, false, Option, some,
  update, arith, Bool-cases, done, ==_iff, inl, inr,
}
use cpu_scheduling_algos.Waiting.{wakeup}
use cpu_scheduling_algos.Disk.{Disk, ndesc, buf_chan, intr_loop, virtio_disk_intr}

-- The entry of the used ring for the count `u`, and how many the driver has not looked at.
abbrev pub entry : Disk → ℕ → ℕ
entry d u = d.used_id ((u % 65536) % ndesc)

abbrev pub unseen : Disk → ℕ
unseen d = (d.used_end + 65536 - d.used_idx) % 65536

-- What a round does for the buffer `b`.
abbrev one_round : Option ℕ → ℕ → Disk → Disk
one_round me b d = record d {
  is_busy = update d.is_busy b false;
  kernel = wakeup me (buf_chan b) d.kernel;
  used_idx = (d.used_idx + 1) % 65536;
}

-- The entries are those of calls in flight, and the device reports no error for them.
abbrev pub IsServed : Disk → Type 0
IsServed d =
    (m : ℕ)
    → m < unseen d
    → ((b : ℕ) × (d.info_b (entry d (d.used_idx + m)) ≡ some b))
      × (d.info_status (entry d (d.used_idx + m)) ≡ 0)

abbrev Ends : ℕ → Disk → Disk → Type 0
Ends n d d' =
    (d'.used_idx ≡ d.used_end)
    × ((b : ℕ) → d.is_busy b ≡ false → d'.is_busy b ≡ false)
    × ((m b : ℕ) → m < n → d.info_b (entry d (d.used_idx + m)) ≡ some b → d'.is_busy b ≡ false)

some-injective : {a b : ℕ} → some a ≡ some b → a ≡ b
some-injective e = cc

not-there : (u e n : ℕ) → u < 65536 → suc n < 65536 → (u + suc n) % 65536 ≡ e → (u == e) ≡ false
not-there u e n hu hn h = elim (Bool-cases (u == e)) [
  | inl q ↦ let same : u ≡ e = (==_iff u e).0 q in absurd (omega (arith, hu, hn, h, same))
  | inr q ↦ q
]

intr_loop_lem :
    (n : ℕ) (me : Option ℕ) (d : Disk)
    → d.used_idx < 65536
    → d.used_end < 65536
    → n < 65536
    → (d.used_idx + n) % 65536 ≡ d.used_end
    → ((m : ℕ)
        → m < n
        → ((b : ℕ) × (d.info_b (entry d (d.used_idx + m)) ≡ some b))
          × (d.info_status (entry d (d.used_idx + m)) ≡ 0))
    → (d' : Disk) × (intr_loop n me d ≡ done d') × Ends n d d'
unfolding intr_loop
intr_loop_lem zero me d hu he hn e served =
    (d, refl, (omega (arith, hu, e), λ b h. h, λ m b l. absurd (omega (arith, l))))
intr_loop_lem (suc n) me d hu he hn e served =
    let ((b, is_b), ok_) = served 0 (omega arith) in
    let at : entry d (d.used_idx + 0) ≡ d.used_id (d.used_idx % ndesc) =
      ap (λ i. d.used_id (i % ndesc)) (omega (arith, hu)) in
    let buf : d.info_b (d.used_id (d.used_idx % ndesc)) ≡ some b =
      subst (λ id. d.info_b id ≡ some b) at is_b in
    let fine : d.info_status (d.used_id (d.used_idx % ndesc)) ≡ 0 =
      subst (λ id. d.info_status id ≡ 0) at ok_ in
    let more : (d.used_idx == d.used_end) ≡ false = not-there d.used_idx d.used_end n hu hn e in
    let d1 = one_round me b d in
    let shift : (m : ℕ) → entry d1 (d1.used_idx + m) ≡ entry d (d.used_idx + (m + 1)) =
      λ m. ap (λ i. d.used_id (i % ndesc)) (omega arith) in
    let (d', run, (last, kept, freed)) =
      intr_loop_lem n me d1 (omega arith) he (omega (arith, hn)) (omega (arith, e))
        (λ m l. rw (shift m) (served (m + 1) (omega (arith, l)))) in
    (
      d',
      rw (buf, more, fine, intr_loop) run,
      (
        last,
        λ c idle. kept c (ground (arith, idle)),
        λ m c l is_c. elim (Bool-cases (m == 0)) [
          | inl z ↦
              let same : b ≡ c = some-injective (
                sym is_b
                ∙ subst (λ x. d.info_b (entry d (d.used_idx + x)) ≡ some c) ((==_iff m 0).0 z)
                    is_c) in
              kept c (ground (arith, same))
          | inr nz ↦
              let back : (m - 1) + 1 ≡ m = ground arith in
              freed (m - 1) c (ground arith) (rw (shift (m - 1), back) is_c)
        ],
      ),
    )

-- The interrupt that finds only entries of calls in flight, with no error, looks at each of them and returns,
-- and the buffers of those calls are not busy then. The counters of the used ring are 16-bit numbers.
pub virtio_disk_intr_lem :
    (me : Option ℕ) (d : Disk)
    → d.used_idx < 65536
    → d.used_end < 65536
    → IsServed d
    → (d' : Disk) × (virtio_disk_intr me d ≡ done d')
      × (d'.used_idx ≡ d.used_end)
      × ((m b : ℕ)
          → m < unseen d
          → d.info_b (entry d (d.used_idx + m)) ≡ some b
          → d'.is_busy b ≡ false)
unfolding virtio_disk_intr
virtio_disk_intr_lem me d hu he served =
    let (d', run, (last, kept, freed)) =
      intr_loop_lem (unseen d) me d hu he (omega arith) (omega (arith, hu, he)) served in
    (d', run, last, freed)
