-- ===== src/Fs/Rounds.antt =====
-- The rounds of balloc() in initial-xv6/src/kernel/fs.c over the blocks of the free map.
use cpu_scheduling_algos.Prelude.{
  ℕ, zero, suc, ◌+◌, ◌-◌, ◌*◌, ◌%◌, ◌≤◌, ◌<◌, ◌≡◌, ◌≢◌, refl, ap, ◌∙◌, sym, ◌==◌, ==_refl, ltb,
  if◌then◌else◌, Bool, true, false, not, inl, inr, ◌⊎◌, arith, Bool-cases, Option-cases, none, some,
  find_from, find_from-some, find_from_least, find_from-none,
}
use cpu_scheduling_algos.Fs.{
  Fs, bpb, bblock, map_bit, mark, log_data, bzero, bits_from, balloc_from,
}
use cpu_scheduling_algos.Fs.Bitmap.{map_bit-mark_same, map_bit-mark_other}

-- The map says that block `b` is in use.
abbrev pub in_use : Fs → ℕ → ℕ → Bool
in_use fs dev b = map_bit (b % bpb) (fs.block dev (bblock b fs))

-- The blocks of the map are in use themselves.
abbrev pub IsReserved : Fs → ℕ → Type 0
IsReserved fs dev = (j : ℕ) → j < fs.sb.size → in_use fs dev (bblock j fs) ≡ true

block-log_data_same :
    (dev c : ℕ) (content : ℕ → ℕ) (fs : Fs) → (log_data dev c content fs).block dev c ≡ content
block-log_data_same dev c content fs = rw (==_refl dev, ==_refl c) refl

pub block-log_data_other :
    (dev c d : ℕ) (content : ℕ → ℕ) (fs : Fs)
    → c ≢ d
    → (log_data dev c content fs).block dev d ≡ fs.block dev d
block-log_data_other dev c d content fs ne =
    let f : (c == d) ≡ false = ground arith in rw (==_refl dev, f) refl

-- What the marking of block `b` does to the map.
pub in_use-mark :
    (v : Bool) (fs : Fs) (dev b j : ℕ)
    → in_use (log_data dev (bblock b fs) (mark v (b % bpb) (fs.block dev (bblock b fs))) fs) dev j
      ≡ (if b == j then v else in_use fs dev j)
in_use-mark v fs dev b j =
    let content = mark v (b % bpb) (fs.block dev (bblock b fs)) in
    let same = block-log_data_same dev (bblock b fs) content fs in
    elim (Bool-cases (bblock b fs == bblock j fs)) [
      | inr f ↦
          let ne : (b == j) ≡ false = ground arith in
          rw ne (
            ap (map_bit (j % bpb))
              (block-log_data_other dev (bblock b fs) (bblock j fs) content fs (ground arith)))
      | inl t ↦
          let at : bblock b fs ≡ bblock j fs = ground arith in
          let here =
            sym (ap (λ c. (log_data dev (bblock b fs) content fs).block dev c) at) ∙ same in
          elim (Bool-cases (b == j)) [
            | inl e ↦
                let bj : b ≡ j = ground arith in
                rw e (
                  ap (map_bit (j % bpb)) here
                  ∙ ap (λ k. map_bit (k % bpb) content) (sym bj)
                  ∙ map_bit-mark_same v (b % bpb) (fs.block dev (bblock b fs)))
            | inr f ↦
                let ne : b % bpb ≢ j % bpb = λ r. absurd (ground arith) in
                rw f (
                  ap (map_bit (j % bpb)) here
                  ∙ map_bit-mark_other v (b % bpb) (j % bpb) (fs.block dev (bblock b fs)) ne
                  ∙ ap (λ c. map_bit (j % bpb) (fs.block dev c)) at)
          ]
    ]

abbrev pub take_block : ℕ → ℕ → Fs → Fs
take_block dev b fs =
    bzero dev b (log_data dev (bblock b fs) (mark true (b % bpb) (fs.block dev (bblock b fs))) fs)

-- The first free block from block `k * bpb` on.
abbrev pub First : Fs → ℕ → ℕ → ℕ → Type 0
First fs dev k b =
    (b < fs.sb.size)
    × (in_use fs dev b ≡ false)
    × ((j : ℕ) → k * bpb ≤ j → j < b → in_use fs dev j ≡ true)

round-found :
    (n k dev bi : ℕ) (fs : Fs)
    → ltb (k * bpb) fs.sb.size ≡ true
    → find_from
        (λ x. not (map_bit x (fs.block dev (bblock (k * bpb) fs))))
        (bits_from (k * bpb) fs.sb.size)
        0
      ≡ some bi
    → bi < bpb
    → balloc_from (suc n) dev (k * bpb) fs ≡ (k * bpb + bi, take_block dev (k * bpb + bi) fs)
unfolding balloc_from
round-found n k dev bi fs lt e small =
    let b = k * bpb + bi in
    let at : bblock (k * bpb) fs ≡ bblock b fs = ground arith in
    let bit : bi ≡ b % bpb = ground arith in
    rw (lt, e, balloc_from)
      (ap (λ c. (b, bzero dev b (log_data dev c (mark true bi (fs.block dev c)) fs))) at
        ∙ ap
            (λ x. (
              b,
              bzero dev b
                  (log_data dev (bblock b fs) (mark true x (fs.block dev (bblock b fs))) fs),
            ))
            bit)

bit_of :
    (k dev bi : ℕ) (fs : Fs)
    → bi < bpb
    → in_use fs dev (k * bpb + bi) ≡ map_bit bi (fs.block dev (bblock (k * bpb) fs))
bit_of k dev bi fs small =
    let at : bblock (k * bpb + bi) fs ≡ bblock (k * bpb) fs = ground arith in
    let bit : (k * bpb + bi) % bpb ≡ bi = ground arith in
    ap (λ x. map_bit x (fs.block dev (bblock (k * bpb + bi) fs))) bit
    ∙ ap (λ c. map_bit bi (fs.block dev c)) at

bits_from_bounds :
    (b size : ℕ)
    → b < size
    → (bits_from b size ≤ bpb)
      × (b + bits_from b size ≤ size)
      × ((size ≤ b + bits_from b size) ⊎ (bits_from b size ≡ bpb))
bits_from_bounds b size lt = elim (Bool-cases (ltb (size - b) bpb)) [
  | inl t ↦ rw t (ground arith, ground arith, inl (ground arith))
  | inr f ↦ rw f (ground arith, ground arith, inr refl)
]

is_false_of : (b : Bool) → not b ≡ true → b ≡ false
is_false_of true h = absurd (ground arith)
is_false_of false h = refl

is_true_of : (b : Bool) → not b ≡ false → b ≡ true
is_true_of true h = refl
is_true_of false h = absurd (ground arith)

-- A block from `k * bpb` on by its place in the round.
in_use-round :
    (k dev j : ℕ) (fs : Fs)
    → k * bpb ≤ j
    → j - k * bpb < bpb
    → in_use fs dev j ≡ map_bit (j - k * bpb) (fs.block dev (bblock (k * bpb) fs))
in_use-round k dev j fs lo hi =
    let e : j ≡ k * bpb + (j - k * bpb) = omega arith in
    ap (in_use fs dev) e ∙ bit_of k dev (j - k * bpb) fs hi

First-found :
    (k dev bi : ℕ) (fs : Fs)
    → k * bpb < fs.sb.size
    → find_from
        (λ x. not (map_bit x (fs.block dev (bblock (k * bpb) fs))))
        (bits_from (k * bpb) fs.sb.size)
        0
      ≡ some bi
    → (bi < bpb) × First fs dev k (k * bpb + bi)
First-found k dev bi fs lt e =
    let content = fs.block dev (bblock (k * bpb) fs) in
    let test : ℕ → Bool = λ x. not (map_bit x content) in
    let bits = bits_from (k * bpb) fs.sb.size in
    let (small, fits, reach) = bits_from_bounds (k * bpb) fs.sb.size lt in
    let (t, lo, hi) = find_from-some test bits 0 bi e in
    (
      omega arith,
      (
        omega arith,
        bit_of k dev bi fs (omega arith) ∙ is_false_of (map_bit bi content) t,
        λ j from to.
            (in_use-round k dev j fs from (omega arith)
              ∙ is_true_of (map_bit (j - k * bpb) content)
                  (find_from_least test bits 0 bi (j - k * bpb) e (omega arith) (omega arith))),
      ),
    )

-- A round that finds no free block.
round-full :
    (k dev j : ℕ) (fs : Fs)
    → k * bpb < fs.sb.size
    → find_from
        (λ x. not (map_bit x (fs.block dev (bblock (k * bpb) fs))))
        (bits_from (k * bpb) fs.sb.size)
        0
      ≡ none
    → k * bpb ≤ j
    → j < k * bpb + bpb
    → j < fs.sb.size
    → in_use fs dev j ≡ true
round-full k dev j fs lt e from to end =
    let content = fs.block dev (bblock (k * bpb) fs) in
    let test : ℕ → Bool = λ x. not (map_bit x content) in
    let bits = bits_from (k * bpb) fs.sb.size in
    let (small, fits, reach) = bits_from_bounds (k * bpb) fs.sb.size lt in
    let inside : j - k * bpb < bits = elim reach [ inl r ↦ omega arith | inr r ↦ omega arith ] in
    in_use-round k dev j fs from (omega arith)
    ∙ is_true_of (map_bit (j - k * bpb) content)
        (find_from-none test bits 0 (j - k * bpb) e (omega arith) (omega arith))

-- The loop from round `k` on, with rounds enough for the blocks that are left.
pub balloc_from_lem :
    (n k dev : ℕ) (fs : Fs)
    → fs.sb.size < (k + n) * bpb
    → ((balloc_from n dev (k * bpb) fs ≡ (0, fs))
        × ((j : ℕ) → k * bpb ≤ j → j < fs.sb.size → in_use fs dev j ≡ true))
      ⊎ ((b : ℕ) × (balloc_from n dev (k * bpb) fs ≡ (b, take_block dev b fs)) × First fs dev k b)
unfolding balloc_from
balloc_from_lem zero k dev fs enough = inl (refl, λ j from lt. absurd (ground arith))
balloc_from_lem (suc n) k dev fs enough = elim (Bool-cases (ltb (k * bpb) fs.sb.size)) [
  | inr f ↦ inl (rw (f, balloc_from) refl, λ j from lt. absurd (ground arith))
  | inl t ↦
      elim (Option-cases (
        find_from (λ x. not (map_bit x (fs.block dev (bblock (k * bpb) fs))))
          (bits_from (k * bpb) fs.sb.size) 0)) [
            | inr (bi, e) ↦
                let (small, first) = First-found k dev bi fs (ground arith) e in
                inr (k * bpb + bi, round-found n k dev bi fs t e small, first)
            | inl e ↦
                let next : (k + 1) * bpb ≡ k * bpb + bpb = omega arith in
                let full =
                  λ (j : ℕ) (from : k * bpb ≤ j). round-full k dev j fs (ground arith) e from in
                let go : balloc_from (suc n) dev (k * bpb) fs
                    ≡ balloc_from n dev ((k + 1) * bpb) fs =
                  rw (t, e, balloc_from) (ap (λ b. balloc_from n dev b fs) (sym next)) in
                elim (balloc_from_lem n (k + 1) dev fs (omega arith)) [
                  | inl (r, all) ↦ inl (
                    go ∙ r,
                    λ j from lt. elim (Bool-cases (ltb j ((k + 1) * bpb))) [
                      | inl a ↦ full j from (ground arith) lt
                      | inr a ↦ all j (ground arith) lt
                    ],
                  )
                  | inr (b, r, (lt, free, least)) ↦ inr (
                    b,
                    go ∙ r,
                    (
                      lt,
                      free,
                      λ j from to. elim (Bool-cases (ltb j ((k + 1) * bpb))) [
                        | inl a ↦ full j from (ground arith) (ground arith)
                        | inr a ↦ least j (ground arith) to
                      ],
                    ),
                  )
                ]
          ]
]
