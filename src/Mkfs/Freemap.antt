-- ===== src/Mkfs/Freemap.antt =====
-- balloc of initial-xv6/src/mkfs/mkfs.c against the free map of the kernel's fs.c.
use cpu_scheduling_algos.Prelude.{
  ℕ, zero, suc, ◌+◌, ◌%◌, ◌<◌, ◌≡◌, ◌↔◌, refl, ap, subst, sym, ◌∙◌, if◌then◌else◌, ltb, ◌==◌,
  ==_iff, true, false, inl, inr, arith, Bool-cases, for_from, for_from_inv, Outcome, done, panic,
  done-injective, ==_refl,
}
use cpu_scheduling_algos.Fs.{Fs, bit_at, map_bit, mark, bpb, bblock}
use cpu_scheduling_algos.Fs.Bitmap.{map_bit-mark_same, map_bit-mark_other}
use cpu_scheduling_algos.Fs.Rounds.{in_use, IsReserved}
use cpu_scheduling_algos.Mkfs.{Image, fssize, bmapstart, balloc, wsect}

bit_at-zero : (i : ℕ) → bit_at i 0 ≡ false
unfolding bit_at
bit_at-zero zero = refl
bit_at-zero (suc i) = bit_at-zero i

-- The first `used` bits of a block.
abbrev FirstBits : ℕ → (ℕ → ℕ) → Type 0
FirstBits used content = (j : ℕ) → map_bit j content ≡ ltb j used

FirstBits-mark :
    (i : ℕ) (content : ℕ → ℕ) → FirstBits i content → FirstBits (i + 1) (mark true i content)
FirstBits-mark i content h j = elim (Bool-cases (i == j)) [
  | inl e ↦
      let same : i ≡ j = (==_iff i j).0 e in
      ap (λ x. map_bit x (mark true i content)) (sym same)
      ∙ map_bit-mark_same true i content
      ∙ ground (arith, same)
  | inr e ↦ map_bit-mark_other true i j content (ground (arith, e)) ∙ h j ∙ ground (arith, e)
]

marked-FirstBits : (used : ℕ) → FirstBits used (for_from (λ i c. mark true i c) used 0 (λ i. 0))
marked-FirstBits used =
    for_from_inv FirstBits (λ i c. mark true i c) used (λ i c l h. FirstBits-mark i c h) used 0
      (λ i. 0) (omega arith) (λ j. bit_at-zero (j % 8) ∙ ground arith)

at_block : (b : ℕ) (content : ℕ → ℕ) (img : Image) → (wsect b content img).block b ≡ content
at_block b content img = rw (==_refl b) refl

balloc-map :
    (used : ℕ) (img img' : Image)
    → balloc used img ≡ done img'
    → (j : ℕ) → map_bit j (img'.block bmapstart) ≡ ltb j used
unfolding balloc
balloc-map used img img' e j = elim (Bool-cases (ltb used bpb)) [
  | inl t ↦
      let written = for_from (λ i c. mark true i c) used 0 (λ i. 0) in
      let same : wsect bmapstart written img ≡ img' =
        done-injective (
          subst (λ b. (if b then done (wsect bmapstart written img) else panic) ≡ done img') t e) in
      ap (λ x. map_bit j (x.block bmapstart)) (sym same)
      ∙ ap (map_bit j) (at_block bmapstart written img)
      ∙ marked-FirstBits used j
  | inr f ↦
      let none_of : Path (Outcome Image) panic (done img') =
        subst
          (λ b.
            (if b
              then done (wsect bmapstart (for_from (λ i c. mark true i c) used 0 (λ i. 0)) img)
              else panic)
            ≡ done img')
          f e in
      cc
]

-- The free map that balloc of mkfs writes when it returns, as balloc of the kernel reads it from a device that holds
-- the image and whose superblock is that of mkfs: of the blocks of the map's block, just those before `used` are in
-- use. So the map has its own blocks reserved, which balloc of the kernel relies on, exactly if `used` is past the
-- first block of the map.
pub balloc-IsReserved :
    (used dev : ℕ) (img img' : Image) (fs : Fs)
    → balloc used img ≡ done img'
    → fs.block dev ≡ img'.block
    → fs.sb.size ≡ fssize
    → fs.sb.bmapstart ≡ bmapstart
    → ((j : ℕ) → j < bpb → in_use fs dev j ≡ ltb j used) × (IsReserved fs dev ↔ bmapstart < used)
unfolding balloc
balloc-IsReserved used dev img img' fs e hb hs hp =
    let map_of = balloc-map used img img' e in
    let bit : (j : ℕ) → j < bpb → in_use fs dev j ≡ ltb j used = λ j l.
      let at : bblock j fs ≡ bmapstart = omega (arith, l, hp) in
      let low : j % bpb ≡ j = omega (arith, l) in
      ap (λ x. map_bit x (fs.block dev (bblock j fs))) low
      ∙ ap (λ b. map_bit j (fs.block dev b)) at
      ∙ ap (λ b. map_bit j (b bmapstart)) hb
      ∙ map_of j in
    (
      bit,
      (
        λ reserved.
            let at : bblock 0 fs ≡ bmapstart = omega (arith, hp) in
            let first : in_use fs dev (bblock 0 fs) ≡ true = reserved 0 (omega (arith, hs)) in
            ground (arith, sym (bit bmapstart (omega arith)) ∙ ap (in_use fs dev) (sym at) ∙ first),
        λ past j l.
            let at : bblock j fs ≡ bmapstart = omega (arith, l, hs, hp) in
            ap (in_use fs dev) at ∙ bit bmapstart (omega arith) ∙ ground (arith, past),
      ),
    )
