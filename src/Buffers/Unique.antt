-- ===== src/Buffers/Unique.antt =====
-- No block stands in two buffers of bio.c (initial-xv6/src/kernel), and bread gives its contents.
use cpu_scheduling_algos.Prelude.{
  ℕ, ◌≡◌, ◌≢◌, refl, sym, ap, ◌∙◌, ◌⊎◌, inl, inr, Bool, true, false, ◌&&◌, arith, ◌==◌,
  if◌then◌else◌, Bool-cases, none, some, Option-cases, List, [], ◌∷◌, any, done, done-injective,
  panic, subst,
}
use cpu_scheduling_algos.Buffers.{
  Bcache, set_buf, find_in, find_last, holds, is_unused, recycle, bget, fetch, bread, up,
}

-- The buffer stands in the list.
abbrev pub listed : Bcache → ℕ → Bool
listed c i = any (λ j. j == i) c.order

-- No two buffers of the list hold the same block of a device other than 0, which is no device: binit leaves
-- all buffers at block 0 of it.
abbrev pub IsUnique : Bcache → Type 0
IsUnique c =
    (i j : ℕ)
    → listed c i ≡ true
    → listed c j ≡ true
    → (c.buf i).dev ≢ 0
    → (c.buf i).dev ≡ (c.buf j).dev
    → (c.buf i).blockno ≡ (c.buf j).blockno
    → i ≡ j

find_in-some :
    (test : ℕ → Bool) (order : List ℕ) (i : ℕ)
    → find_in test order ≡ some i
    → (test i ≡ true) × (any (λ j. j == i) order ≡ true)
find_in-some test [] i h = absurd (ground arith)
find_in-some test (k ∷ order) i h = ground (arith, find_in-some test order i)

find_in-none :
    (test : ℕ → Bool) (order : List ℕ) (i : ℕ)
    → find_in test order ≡ none
    → any (λ j. j == i) order ≡ true
    → test i ≡ false
find_in-none test [] i h m = absurd (ground arith)
find_in-none test (k ∷ order) i h m = ground (arith, find_in-none test order i)

find_last-some :
    (test : ℕ → Bool) (order : List ℕ) (i : ℕ)
    → find_last test order ≡ some i
    → (test i ≡ true) × (any (λ j. j == i) order ≡ true)
find_last-some test [] i h = absurd (ground arith)
find_last-some test (k ∷ order) i h = elim (Option-cases (find_last test order)) [
  | inl e ↦ ground arith
  | inr (j, e) ↦ ground (arith, find_last-some test order i)
]

-- What bread has done when it returns buffer `i`.
pub record Got (c : Bcache) (dev blockno i : ℕ) (c' : Bcache) : Type 0 where
  pub in_list : listed c i ≡ true
  pub device : (c'.buf i).dev ≡ dev
  pub block : (c'.buf i).blockno ≡ blockno
  pub ready : (c'.buf i).is_valid ≡ true
  pub count : (c'.buf i).refcnt ≡ (if holds c dev blockno i then up (c.buf i).refcnt else 1)
  pub content : (c'.buf i).content ≡ (
      if holds c dev blockno i && (c.buf i).is_valid then (c.buf i).content else c.disk dev blockno)
  pub others : (j : ℕ) → i ≢ j → c'.buf j ≡ c.buf j
  pub order : c'.order ≡ c.order
  pub disk : c'.disk ≡ c.disk
  pub choice :
      (holds c dev blockno i ≡ true)
      ⊎ (((c.buf i).refcnt ≡ 0) × ((j : ℕ) → listed c j ≡ true → holds c dev blockno j ≡ false))

bread_hit :
    (c : Bcache) (dev blockno i : ℕ)
    → find_in (holds c dev blockno) c.order ≡ some i
    → (c' : Bcache) × (bread dev blockno c ≡ done (i, c')) × Got c dev blockno i c'
unfolding bread bget
bread_hit c dev blockno i h =
    let (t, m) = find_in-some (holds c dev blockno) c.order i h in
    (
      fetch i (set_buf i (record (c.buf i) { refcnt = up (c.buf i).refcnt }) c),
      rw (h, bread, bget) refl,
      record {
        in_list = m;
        device = ground arith;
        block = ground arith;
        ready = ground arith;
        count = ground arith;
        content = ground arith;
        others = λ j ne. ground arith;
        order = ground arith;
        disk = ground arith;
        choice = inl t;
      },
    )

bread_miss :
    (c : Bcache) (dev blockno i : ℕ)
    → find_in (holds c dev blockno) c.order ≡ none
    → find_last (is_unused c) c.order ≡ some i
    → (c' : Bcache) × (bread dev blockno c ≡ done (i, c')) × Got c dev blockno i c'
unfolding bread bget
bread_miss c dev blockno i h u =
    let (t, m) = find_last-some (is_unused c) c.order i u in
    let absent = find_in-none (holds c dev blockno) c.order in
    let miss = absent i h m in
    (
      fetch i (recycle dev blockno i c),
      rw (h, u, bread, bget) refl,
      record {
        in_list = m;
        device = ground arith;
        block = ground arith;
        ready = ground arith;
        count = ground arith;
        content = ground arith;
        others = λ j ne. ground arith;
        order = ground arith;
        disk = ground arith;
        choice = inr (ground arith, λ j l. absent j h l);
      },
    )

find_last-none :
    (test : ℕ → Bool) (order : List ℕ) (i : ℕ)
    → find_last test order ≡ none
    → any (λ j. j == i) order ≡ true
    → test i ≡ false
find_last-none test [] i h m = absurd (ground arith)
find_last-none test (k ∷ order) i h m = elim (Option-cases (find_last test order)) [
  | inl e ↦ ground (arith, find_last-none test order i)
  | inr (j, e) ↦ absurd (ground arith)
]

-- bread(dev, blockno) panics only if no buffer holds the block and every buffer is in use. Otherwise it
-- returns a buffer of the list that is valid and holds that block: one that held it before, with its
-- content if that was valid, or an unused one if none held it. It has the disk's content
-- otherwise. No other buffer changes, nor the list nor the disk.
pub bread_lem :
    (c : Bcache) (dev blockno : ℕ)
    → ((bread dev blockno c ≡ panic)
        × ((j : ℕ) → listed c j ≡ true → (holds c dev blockno j ≡ false) × (is_unused c j ≡ false)))
      ⊎ ((i : ℕ) × (c' : Bcache) × (bread dev blockno c ≡ done (i, c')) × Got c dev blockno i c')
unfolding bread bget
bread_lem c dev blockno = elim (Option-cases (find_in (holds c dev blockno) c.order)) [
  | inr (i, e) ↦ let (c', run, got) = bread_hit c dev blockno i e in inr (i, c', run, got)
  | inl e ↦ elim (Option-cases (find_last (is_unused c) c.order)) [
    | inr (i, u) ↦ let (c', run, got) = bread_miss c dev blockno i e u in inr (i, c', run, got)
    | inl u ↦ inl (
      rw (e, u, bread, bget) refl,
      λ j l. (
        find_in-none (holds c dev blockno) c.order j e l,
        find_last-none (is_unused c) c.order j u l,
      ),
    )
  ]
]

Got-unchanged :
    (c c' : Bcache) (dev blockno i j : ℕ)
    → Got c dev blockno i c'
    → IsUnique c
    → dev ≢ 0
    → listed c j ≡ true
    → (c'.buf j).dev ≡ dev
    → (c'.buf j).blockno ≡ blockno
    → i ≡ j
Got-unchanged c c' dev blockno i j got unique real l d b = elim (Bool-cases (i == j)) [
  | inl e ↦ ground arith
  | inr e ↦
      let same = got.others j (ground arith) in
      let hold : holds c dev blockno j ≡ true = ground arith in
      elim got.choice [
        | inl t ↦ unique i j got.in_list l (ground arith) (ground arith) (ground arith)
        | inr (z, all) ↦ let miss = all j l in absurd (ground arith)
      ]
]

Got-IsUnique :
    (c c' : Bcache) (dev blockno i : ℕ)
    → Got c dev blockno i c'
    → IsUnique c
    → dev ≢ 0
    → IsUnique c'
Got-IsUnique c c' dev blockno i got unique real j k lj lk rj d b =
    let cj : listed c j ≡ true = subst (λ o. any (λ x. x == j) o ≡ true) got.order lj in
    let ck : listed c k ≡ true = subst (λ o. any (λ x. x == k) o ≡ true) got.order lk in
    let same = Got-unchanged c c' dev blockno i in
    elim (Bool-cases (i == j)) [
      | inl e ↦
          let ij : i ≡ j = ground arith in
          sym ij
          ∙ same k got unique real ck (sym d ∙ ap (λ x. (c'.buf x).dev) (sym ij) ∙ got.device)
              (sym b ∙ ap (λ x. (c'.buf x).blockno) (sym ij) ∙ got.block)
      | inr e ↦ elim (Bool-cases (i == k)) [
        | inl f ↦
            let ik : i ≡ k = ground arith in
            sym (
              same j got unique real cj (d ∙ ap (λ x. (c'.buf x).dev) (sym ik) ∙ got.device)
                (b ∙ ap (λ x. (c'.buf x).blockno) (sym ik) ∙ got.block))
            ∙ ik
        | inr f ↦
            let sj : c'.buf j ≡ c.buf j = got.others j (ground arith) in
            let sk : c'.buf k ≡ c.buf k = got.others k (ground arith) in
            unique j k cj ck (λ z. rj (ap (λ x. x.dev) sj ∙ z))
              (sym (ap (λ x. x.dev) sj) ∙ d ∙ ap (λ x. x.dev) sk)
              (sym (ap (λ x. x.blockno) sj) ∙ b ∙ ap (λ x. x.blockno) sk)
      ]
    ]

-- bread keeps every block in at most one buffer.
pub bread-IsUnique :
    (c c' : Bcache) (dev blockno i : ℕ)
    → IsUnique c
    → dev ≢ 0
    → bread dev blockno c ≡ done (i, c')
    → IsUnique c'
bread-IsUnique c c' dev blockno i unique real run = elim (bread_lem c dev blockno) [
  | inl (p, u) ↦ absurd (ground arith)
  | inr (i0, c0, r, got) ↦
      subst IsUnique (ap (λ x. x.1) (done-injective (sym r ∙ run)))
        (Got-IsUnique c c0 dev blockno i0 got unique real)
]
