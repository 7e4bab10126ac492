-- ===== src/File/Counts.antt =====
-- The reference counts of initial-xv6/src/kernel/file.c are the numbers of the references.
use cpu_scheduling_algos.Prelude.{
  ℕ, zero, suc, ◌+◌, ◌≤◌, ◌<◌, ◌≡◌, refl, subst, ap, ◌∙◌, sym, ◌==◌, ==_iff, ==_refl, if◌then◌else◌,
  false, inl, inr, arith, Bool-cases, Option, none, some, update,
}
use cpu_scheduling_algos.Proc.{nofile}
use cpu_scheduling_algos.File.{Files}

abbrev pub refers : Option ℕ → ℕ → ℕ
refers none f = 0
refers (some g) f = if g == f then 1 else 0

-- The descriptors below `n` of file `f`.
abbrev pub count : (ℕ → Option ℕ) → ℕ → ℕ → ℕ
count ofile f zero = 0
count ofile f (suc n) = count ofile f n + refers (ofile n) f

-- Each file has the references of the process's descriptors and `others`.
abbrev pub IsCounted : (ℕ → ℕ) → Files → Type 0
IsCounted others s = (f : ℕ) → (s.file f).ref ≡ count s.ofile f nofile + others f

count_beyond :
    (ofile : ℕ → Option ℕ) (v : Option ℕ) (f n i : ℕ)
    → n ≤ i
    → count (update ofile i v) f n ≡ count ofile f n
count_beyond ofile v f zero i le = refl
count_beyond ofile v f (suc n) i le =
    let ne : (i == n) ≡ false = ground arith in
    rw ne (ap (λ c. c + refers (ofile n) f) (count_beyond ofile v f n i (omega arith)))

count-update :
    (ofile : ℕ → Option ℕ) (v : Option ℕ) (f n i : ℕ)
    → i < n
    → count (update ofile i v) f n + refers (ofile i) f ≡ count ofile f n + refers v f
count-update ofile v f zero i lt = absurd (omega arith)
count-update ofile v f (suc n) i lt = elim (Bool-cases (i == n)) [
  | inl e ↦
      let is : i ≡ n = ground arith in
      let below = count_beyond ofile v f n i (omega arith) in
      rw e (
        rw below (
          subst
            (λ x.
              count ofile f n + refers v f + refers (ofile x) f
              ≡ count ofile f n + refers (ofile n) f + refers v f)
            (sym is) (omega arith)))
  | inr ne ↦ let below = count-update ofile v f n i (ground arith) in rw ne (omega arith)
]

refers_same : (f : ℕ) → refers (some f) f ≡ 1
refers_same f = rw (==_refl f) refl

count_positive : (ofile : ℕ → Option ℕ) (f n i : ℕ) → i < n → ofile i ≡ some f → 1 ≤ count ofile f n
count_positive ofile f zero i lt e = absurd (omega arith)
count_positive ofile f (suc n) i lt e = elim (Bool-cases (i == n)) [
  | inl t ↦
      let is : refers (ofile n) f ≡ 1 =
        ap (λ o. refers o f) (ap ofile (sym ((==_iff i n).0 t)) ∙ e) ∙ refers_same f in
      omega arith
  | inr r ↦ let below = count_positive ofile f n i (ground arith) e in omega arith
]

-- A file that a descriptor refers to has a reference.
pub ref_positive :
    (others : ℕ → ℕ) (s : Files) (n f : ℕ)
    → IsCounted others s
    → n < nofile
    → s.ofile n ≡ some f
    → 0 < (s.file f).ref
ref_positive others s n f counted lt has =
    let all = counted f in let some_of = count_positive s.ofile f nofile n lt has in omega arith

-- Changing a descriptor and a count together.
pub set_both-IsCounted :
    (others : ℕ → ℕ) (s s' : Files) (n f : ℕ) (v : Option ℕ)
    → IsCounted others s
    → n < nofile
    → s'.ofile ≡ update s.ofile n v
    → ((g : ℕ) → (s'.file g).ref + refers (s.ofile n) g ≡ (s.file g).ref + refers v g)
    → IsCounted others s'
set_both-IsCounted others s s' n f v counted lt e refs g =
    let before = counted g in
    let after = count-update s.ofile v g nofile n lt in
    let change = refs g in
    let is : count s'.ofile g nofile ≡ count (update s.ofile n v) g nofile =
      ap (λ o. count o g nofile) e in
    rw is (omega arith)
