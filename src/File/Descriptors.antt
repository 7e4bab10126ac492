-- ===== src/File/Descriptors.antt =====
-- sys_dup and sys_close of initial-xv6/src/kernel/sysfile.c keep the reference counts right.
use cpu_scheduling_algos.Prelude.{
  ℕ, ◌+◌, ◌-◌, ◌<◌, ◌≡◌, refl, ap, ◌∙◌, ◌==◌, ==_iff, ltb, leb, if◌then◌else◌, false, inl, inr,
  arith, Bool-cases, Option-cases, Option, none, some, find_from, find_from-some, done, ◌>>=◌,
}
use cpu_scheduling_algos.Prelude.Int.{ℤ, pos, negsuc}
use cpu_scheduling_algos.Proc.{nofile}
use cpu_scheduling_algos.File.{
  File, Files, fd_none, set_ofile, set_ref, set_file, filedup, drop_file, argfd, is_free, fdalloc,
  count_dup, dup_file, sys_dup, sys_close,
}
use cpu_scheduling_algos.File.Counts.{refers, IsCounted, ref_positive, set_both-IsCounted}

argfd-some :
    (fd : ℤ) (s : Files) (n f : ℕ) → argfd fd s ≡ some (n, f) → (n < nofile) × (s.ofile n ≡ some f)
unfolding argfd
argfd-some (negsuc k) s n f e = absurd (ground arith)
argfd-some (pos k) s n f e = elim (Bool-cases (leb nofile k)) [
  | inl t ↦ absurd (ground arith)
  | inr r ↦ elim (Option-cases (s.ofile k)) [
    | inl z ↦ absurd (ground arith)
    | inr (g, z) ↦ ground arith
  ]
]

fdalloc-some :
    (f n : ℕ) (s : Files)
    → find_from (is_free s) nofile 0 ≡ some n
    → (n < nofile) × (s.ofile n ≡ none) × (fdalloc f s ≡ (some n, set_ofile n (some f) s))
unfolding fdalloc
fdalloc-some f n s z =
    let (t, lo, hi) = find_from-some (is_free s) nofile 0 n z in
    let empty : s.ofile n ≡ none = elim (Option-cases (s.ofile n)) [
      | inl e ↦ e
      | inr (g, e) ↦ absurd (ground arith)
    ] in
    (hi, empty, rw (z, fdalloc) refl)

dup_file-none :
    (f : ℕ) (s : Files) → find_from (is_free s) nofile 0 ≡ none → dup_file f s ≡ done (negsuc 0, s)
unfolding dup_file fdalloc
dup_file-none f s z = let e : fdalloc f s ≡ (none, s) = rw (z, fdalloc) refl in ap (count_dup f) e

filedup-done :
    (f : ℕ) (s : Files) → 0 < (s.file f).ref → filedup f s ≡ done (set_ref f ((s.file f).ref + 1) s)
unfolding filedup
filedup-done f s lt = let e : ltb (s.file f).ref 1 ≡ false = ground arith in rw (e, filedup) refl

dup_file-some :
    (f n : ℕ) (s : Files)
    → fdalloc f s ≡ (some n, set_ofile n (some f) s)
    → 0 < (s.file f).ref
    → dup_file f s ≡ done (pos n, set_ref f ((s.file f).ref + 1) (set_ofile n (some f) s))
unfolding dup_file
dup_file-some f n s e lt =
    ap (count_dup f) e
    ∙ ap (λ o. o >>= (λ s'. done (pos n, s'))) (filedup-done f (set_ofile n (some f) s) lt)

set_ref_at :
    (f g m : ℕ) (s : Files) → ((set_ref f m s).file g).ref ≡ (if f == g then m else (s.file g).ref)
set_ref_at f g m s = elim (Bool-cases (f == g)) [ inl t ↦ rw t refl | inr r ↦ rw r refl ]

dup_refs :
    (f new g : ℕ) (s : Files)
    → s.ofile new ≡ none
    → ((set_ref f ((s.file f).ref + 1) (set_ofile new (some f) s)).file g).ref
        + refers (s.ofile new) g
      ≡ (s.file g).ref + refers (some f) g
dup_refs f new g s empty =
    let none_of : refers (s.ofile new) g ≡ 0 = ap (λ o. refers o g) empty in
    let at = set_ref_at f g ((s.file f).ref + 1) (set_ofile new (some f) s) in
    rw at (elim (Bool-cases (f == g)) [
      | inl t ↦
          let same : (s.file f).ref ≡ (s.file g).ref =
            ap (λ x. (s.file x).ref) ((==_iff f g).0 t) in
          rw t (omega arith)
      | inr r ↦ rw r (omega arith)
    ])

-- In a state where the counts are right, sys_dup never panics and leaves the counts right.
pub sys_dup-IsCounted :
    (others : ℕ → ℕ) (fd : ℤ) (s : Files)
    → IsCounted others s
    → (r : ℤ) × (s' : Files) × (sys_dup fd s ≡ done (r, s')) × IsCounted others s'
unfolding sys_dup
sys_dup-IsCounted others fd s counted = elim (Option-cases (argfd fd s)) [
  | inl e ↦ (negsuc 0, s, rw (e, sys_dup) refl, counted)
  | inr ((n, f), e) ↦
      let (lt, has) = argfd-some fd s n f e in
      let live = ref_positive others s n f counted lt has in
      elim (Option-cases (find_from (is_free s) nofile 0)) [
        | inl z ↦ (negsuc 0, s, rw (e, sys_dup) (dup_file-none f s z), counted)
        | inr (new, z) ↦
            let (small, empty, alloc) = fdalloc-some f new s z in
            let s' = set_ref f ((s.file f).ref + 1) (set_ofile new (some f) s) in
            (
              pos new,
              s',
              rw (e, sys_dup) (dup_file-some f new s alloc live),
              set_both-IsCounted others s s' new f (some f) counted small refl
                  (λ g. dup_refs f new g s empty),
            )
      ]
]

-- The count of a file whose last reference goes, and of one that keeps some.
drop_file_at :
    (f : ℕ) (s : Files)
    → 0 < (s.file f).ref
    → (ff : Option File) × (s' : Files) × (drop_file f s ≡ done (ff, s'))
      × (s'.ofile ≡ s.ofile)
      × ((g : ℕ) → (s'.file g).ref ≡ (if f == g then (s.file f).ref - 1 else (s.file g).ref))
unfolding drop_file
drop_file_at f s live =
    let live_test : ltb (s.file f).ref 1 ≡ false = ground arith in
    let ff = record (s.file f) { ref = (s.file f).ref - 1 } in
    elim (Bool-cases (ltb 0 ((s.file f).ref - 1))) [
      | inl t ↦ (
        none,
        set_ref f ((s.file f).ref - 1) s,
        rw (live_test, t, drop_file) refl,
        refl,
        λ g. set_ref_at f g ((s.file f).ref - 1) s,
      )
      | inr r ↦ (
        some ff,
        set_file f (record ff { ref = 0; type = fd_none }) s,
        rw (live_test, r, drop_file) refl,
        refl,
        λ g. elim (Bool-cases (f == g)) [ inl t ↦ rw t (ground arith) | inr ne ↦ rw ne refl ],
      )
    ]

close_refs :
    (s s' : Files) (n f g : ℕ)
    → s.ofile n ≡ some f
    → 0 < (s.file f).ref
    → (s'.file g).ref ≡ (if f == g then (s.file f).ref - 1 else (s.file g).ref)
    → (s'.file g).ref + refers (s.ofile n) g ≡ (s.file g).ref + refers none g
close_refs s s' n f g has live e =
    let of_f : refers (s.ofile n) g ≡ refers (some f) g = ap (λ o. refers o g) has in
    rw of_f (elim (Bool-cases (f == g)) [
      | inl t ↦
          let same : (s.file f).ref ≡ (s.file g).ref =
            ap (λ x. (s.file x).ref) ((==_iff f g).0 t) in
          let now : (s'.file g).ref ≡ (s.file f).ref - 1 = e ∙ rw t refl in rw t (omega arith)
      | inr r ↦ let now : (s'.file g).ref ≡ (s.file g).ref = e ∙ rw r refl in rw r (omega arith)
    ])

-- In a state where the counts are right, sys_close never panics and leaves the counts right.
pub sys_close-IsCounted :
    (others : ℕ → ℕ) (fd : ℤ) (s : Files)
    → IsCounted others s
    → (r : ℤ) × (ff : Option File) × (s' : Files) × (sys_close fd s ≡ done (r, ff, s'))
      × IsCounted others s'
unfolding sys_close
sys_close-IsCounted others fd s counted = elim (Option-cases (argfd fd s)) [
  | inl e ↦ (negsuc 0, none, s, rw (e, sys_close) refl, counted)
  | inr ((n, f), e) ↦
      let (lt, has) = argfd-some fd s n f e in
      let live = ref_positive others s n f counted lt has in
      let (ff, s', run, same, refs) = drop_file_at f (set_ofile n none s) live in
      (
        pos 0,
        ff,
        s',
        rw (e, sys_close) (rw run refl),
        set_both-IsCounted others s s' n f none counted lt same
            (λ g. close_refs s s' n f g has live (refs g)),
      )
]

-- In a state where every file has as many references as descriptors of the process and `others` refer to
-- it, sys_dup and sys_close with any argument return, and leave the counts right.
pub descriptors-IsCounted :
    (others : ℕ → ℕ) (fd : ℤ) (s : Files)
    → IsCounted others s
    → ((r : ℤ) × (s' : Files) × (sys_dup fd s ≡ done (r, s')) × IsCounted others s')
      × ((r : ℤ) × (ff : Option File) × (s' : Files) × (sys_close fd s ≡ done (r, ff, s'))
          × IsCounted others s')
descriptors-IsCounted others fd s counted =
    (sys_dup-IsCounted others fd s counted, sys_close-IsCounted others fd s counted)
