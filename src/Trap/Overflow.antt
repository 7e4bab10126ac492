-- ===== src/Trap/Overflow.antt =====
-- The order of the queues after enqueue and dequeue (initial-xv6/src/kernel/proc.c), and after the boost
-- and the demotion of trap.c.
use cpu_scheduling_algos.Prelude.{
  ℕ, zero, suc, ◌+◌, ◌<◌, ◌≡◌, refl, subst, Bool, sym, ◌∙◌, inl, inr, false, Option, some,
  Option-cases, arith, ◌==◌, ==_iff, if◌then◌else◌, Bool-cases, List, [], ◌∷◌, ◌++◌, any,
  erase_first, window, ltb,
}
use cpu_scheduling_algos.Proc.{Kernel, nproc}
use cpu_scheduling_algos.Queues.{queue, enqueue, dequeue}
use cpu_scheduling_algos.Queues.Refine.{same_pid, queue-enqueue, queue-dequeue}
use cpu_scheduling_algos.Trap.{demote, boost_entry, boost_level, boost}
use cpu_scheduling_algos.Trap.Boost.{entries, entries-append, Fresh, PidsDistinct, Fresh-snoc}
use cpu_scheduling_algos.Trap.Rows.{
  pids_of, own_pid, Below, IsOrderly, Fresh-own, erase_PidsDistinct, erase_Below,
}

PidsDistinct-snoc :
    (pid : ℕ → ℕ) (xs : List ℕ) (p : ℕ)
    → PidsDistinct pid xs
    → Fresh pid p xs
    → PidsDistinct pid (xs ++ p ∷ [])
PidsDistinct-snoc pid [] p d f = (tt, tt)
PidsDistinct-snoc pid (x ∷ xs) p d f =
    (Fresh-snoc pid x p xs d.0 (λ e. f.0 (sym e)), PidsDistinct-snoc pid xs p d.1 f.1)

Below-snoc : (n : ℕ) (xs : List ℕ) (p : ℕ) → Below n xs → p < n → Below n (xs ++ p ∷ [])
Below-snoc n [] p b lt = (lt, tt)
Below-snoc n (x ∷ xs) p b lt = (b.0, Below-snoc n xs p b.1 lt)

absent-Fresh :
    (k : Kernel) (p : ℕ) (xs : List ℕ)
    → any (same_pid k p) (entries xs) ≡ false
    → Fresh (pids_of k) p xs
absent-Fresh k p [] h = tt
absent-Fresh k p (x ∷ xs) h = ((λ e. ground arith), absent-Fresh k p xs (ground arith))

erase_entries :
    (k : Kernel) (p : ℕ) (xs : List ℕ)
    → erase_first (same_pid k p) (entries xs)
      ≡ entries (erase_first (λ y. (k.procs y).pid == (k.procs p).pid) xs)
erase_entries k p [] = refl
erase_entries k p (x ∷ xs) = ground (arith, erase_entries k p xs)

-- What stays in order: every queue.
abbrev pub AllOrderly : Kernel → Type 0
AllOrderly k = (q : ℕ) → IsOrderly k q

pub enqueue-AllOrderly :
    (p q : ℕ) (k : Kernel) → p < nproc → AllOrderly k → AllOrderly (enqueue p q k)
enqueue-AllOrderly p q k lt all q' = elim (Bool-cases (q == q')) [
  | inl t ↦ elim (Bool-cases (any (same_pid k p) (queue k q))) [
    | inl held ↦
        let o = all q in
        let q_is : q ≡ q' = (==_iff q q').0 t in
        record {
          members = o.members;
          listed = queue-enqueue p q q' k ∙ rw (t, held) o.listed;
          distinct = o.distinct;
          inside = o.inside;
        }
    | inr fresh ↦
        let o = all q in
        let f =
          Fresh-own (pids_of k) p o.members (absent-Fresh k p o.members (rw (← o.listed) fresh)) in
        record {
          members = o.members ++ p ∷ [];
          listed =
              queue-enqueue p q q' k
              ∙ rw (t, fresh, o.listed) (sym (entries-append o.members (p ∷ [])));
          distinct = PidsDistinct-snoc own_pid o.members p o.distinct f;
          inside = Below-snoc nproc o.members p o.inside lt;
        }
  ]
  | inr f ↦
      let o = all q' in
      record {
        members = o.members;
        listed = queue-enqueue p q q' k ∙ rw f o.listed;
        distinct = o.distinct;
        inside = o.inside;
      }
]

pub dequeue-AllOrderly : (p q : ℕ) (k : Kernel) → AllOrderly k → AllOrderly (dequeue p q k)
dequeue-AllOrderly p q k all q' = elim (Bool-cases (q == q')) [
  | inl t ↦
      let o = all q in
      let test : ℕ → Bool = λ y. (k.procs y).pid == (k.procs p).pid in
      record {
        members = erase_first test o.members;
        listed = queue-dequeue p q q' k ∙ rw (t, o.listed) (erase_entries k p o.members);
        distinct = erase_PidsDistinct own_pid test o.members o.distinct;
        inside = erase_Below nproc test o.members o.inside;
      }
  | inr f ↦
      let o = all q' in
      record {
        members = o.members;
        listed = queue-dequeue p q q' k ∙ rw f o.listed;
        distinct = o.distinct;
        inside = o.inside;
      }
]

-- A change that leaves the queues alone.
pub record KeepsQueues (k k' : Kernel) : Type 0 where
  pub rows : k'.multique ≡ k.multique
  pub sizes : k'.sizeofq ≡ k.sizeofq

pub keeps-AllOrderly : (k k' : Kernel) → KeepsQueues k k' → AllOrderly k → AllOrderly k'
keeps-AllOrderly k k' s all q =
    let o = all q in
    record {
      members = o.members;
      listed = rw (s.rows, s.sizes) o.listed;
      distinct = o.distinct;
      inside = o.inside;
    }

-- What stands in an orderly queue is a process of the table.
entry-Below :
    (row : ℕ → Option ℕ) (n i j t last : ℕ) (xs : List ℕ)
    → window row i n ≡ entries xs
    → Below last xs
    → j < n
    → row (i + j) ≡ some t
    → t < last
entry-Below row zero i j t last xs e b lt h = absurd (omega arith)
entry-Below row (suc n) i j t last [] e b lt h = cc
entry-Below row (suc n) i zero t last (x ∷ xs) e b lt h =
    let x_is : x ≡ t = ground arith in rw (← x_is) b.0
entry-Below row (suc n) i (suc j) t last (x ∷ xs) e b lt h =
    entry-Below row n (i + 1) j t last xs (cc e) b.1 (omega arith) (ground arith)

boost_entry-AllOrderly :
    (level j : ℕ) (k : Kernel)
    → j < k.sizeofq level
    → AllOrderly k
    → AllOrderly (boost_entry level j k)
unfolding boost_entry
boost_entry-AllOrderly level j k lt all = elim (Option-cases (k.multique level j)) [
  | inl e ↦
      let is : boost_entry level j k ≡ k = rw (e, boost_entry) in subst AllOrderly (sym is) all
  | inr (t, e) ↦
      let o = all level in
      let below =
        entry-Below (k.multique level) (k.sizeofq level) 0 j t nproc o.members o.listed o.inside lt
          (ground arith) in
      let is : boost_entry level j k ≡ enqueue t 0 (dequeue t (k.procs t).queue_number k) =
        rw (e, boost_entry) in
      subst AllOrderly (sym is) (
        enqueue-AllOrderly t 0 (dequeue t (k.procs t).queue_number k) below
          (dequeue-AllOrderly t (k.procs t).queue_number k all))
]

boost_level-AllOrderly :
    (fuel level j : ℕ) (k : Kernel) → AllOrderly k → AllOrderly (boost_level fuel level j k)
unfolding boost_level
boost_level-AllOrderly zero level j k all = all
boost_level-AllOrderly (suc fuel) level j k all = elim (Bool-cases (ltb j (k.sizeofq level))) [
  | inl more ↦ rw more (
      boost_level-AllOrderly fuel level (j + 1) (boost_entry level j k)
        (boost_entry-AllOrderly level j k (ground arith) all))
  | inr done ↦ rw done all
]

pub boost-AllOrderly : (k : Kernel) → AllOrderly k → AllOrderly (boost k)
unfolding boost
boost-AllOrderly k all =
    let k1 = boost_level (k.sizeofq 1) 1 0 k in
    let k2 = boost_level (k1.sizeofq 2) 2 0 k1 in
    boost_level-AllOrderly (k2.sizeofq 3) 3 0 k2 (
      boost_level-AllOrderly (k1.sizeofq 2) 2 0 k1 (boost_level-AllOrderly (k.sizeofq 1) 1 0 k all))

pub demote-AllOrderly : (p : ℕ) (k : Kernel) → p < nproc → AllOrderly k → AllOrderly (demote p k)
unfolding demote
demote-AllOrderly p k lt all =
    let q = (k.procs p).queue_number in
    enqueue-AllOrderly p (if ltb 3 (q + 1) then q else q + 1) (dequeue p q k) lt
      (dequeue-AllOrderly p q k all)
