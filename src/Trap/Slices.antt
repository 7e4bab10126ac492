-- ===== src/Trap/Slices.antt =====
-- Time slices and the priority boost of usertrap() (trap.c), as changes of the queues' lists.
use cpu_scheduling_algos.Prelude.{
  ℕ, ◌+◌, ◌<◌, ◌≡◌, refl, ap, fun_ext, ◌∙◌, inl, inr, Bool, Option, none, some, arith, ◌==◌, ==_iff,
  ltb, if◌then◌else◌, Bool-cases, List, [], ◌∷◌, ◌++◌, any, erase_first,
}
use cpu_scheduling_algos.Proc.{Proc, Kernel}
use cpu_scheduling_algos.Queues.{queue, enqueue, dequeue}
use cpu_scheduling_algos.Queues.Refine.{
  same_pid, queue-enqueue, queue-dequeue, enqueue_fresh, enqueue_held,
}
use cpu_scheduling_algos.Queues.Effects
use cpu_scheduling_algos.Trap.{demote, boost_level}
use cpu_scheduling_algos.Trap.Boost.{
  entries, at_even, at_odd, AtLevel, PidsDistinct, AllFresh, boost_level_lem, size_of, fresh_nil,
}

-- The queue that a process of queue `q` is demoted to.
abbrev pub next_level : ℕ → ℕ
next_level q = if ltb 3 (q + 1) then q else q + 1

same_after : (p q : ℕ) (k : Kernel) (e : Option ℕ) → same_pid (dequeue p q k) p e ≡ same_pid k p e
same_after p q k none = refl
same_after p q k (some j) =
    ap (λ (f : ℕ → Proc). (f j).pid == (f p).pid) (Effects.procs-dequeue p q k)

-- At the end of a time slice the first entry with the pid of the process leaves the queue of its
-- number, q. The next queue is q + 1, or q itself from 3 on. If no entry of the next queue has the pid
-- then, the process goes to the end of it, carries its number and its ticks begin anew; if one has,
-- nothing is appended, and the process keeps its number and its ticks. The other queues are unchanged.
pub queue-demote :
    (p q' : ℕ) (k : Kernel)
    → let q = (k.procs p).queue_number in
      let held = any (same_pid k p) (queue (dequeue p q k) (next_level q)) in
      (queue (demote p k) q' ≡ (
        if next_level q == q'
        then if held then queue (dequeue p q k) q' else queue (dequeue p q k) q' ++ some p ∷ []
        else if q == q'
        then erase_first (same_pid k p) (queue k q)
        else queue k q'))
      × (((demote p k).procs p).queue_number ≡ (if held then q else next_level q))
      × (((demote p k).procs p).queueticks ≡ (if held then (k.procs p).queueticks else 0))
unfolding demote
queue-demote p q' k = (rows, numbers.0, numbers.1)
  where
    q : ℕ
    q = (k.procs p).queue_number

    n : ℕ
    n = next_level (k.procs p).queue_number

    d : Kernel
    d = dequeue p (k.procs p).queue_number k

    held : Bool
    held = any (same_pid k p) (queue d n)

    tests : any (same_pid d p) (queue d n) ≡ held
    tests = rw (fun_ext (same_after p q k)) refl

    kept : d.procs ≡ k.procs
    kept = Effects.procs-dequeue p q k

    rows : queue (enqueue p n d) q' ≡ (
        if n == q'
        then if held then queue d q' else queue d q' ++ some p ∷ []
        else if q == q'
        then erase_first (same_pid k p) (queue k q)
        else queue k q')
    rows = elim (Bool-cases (n == q')) [
      | inl e ↦
          let n_is : n ≡ q' = (==_iff n q').0 e in
          queue-enqueue p n q' d
          ∙ rw (e, tests) (ap (λ l. if held then queue d l else queue d l ++ some p ∷ []) n_is)
      | inr e ↦ queue-enqueue p n q' d ∙ rw e (queue-dequeue p q q' k)
    ]

    numbers :
        (((enqueue p n d).procs p).queue_number ≡ (if held then q else n))
        × (((enqueue p n d).procs p).queueticks ≡ (if held then (k.procs p).queueticks else 0))
    numbers = elim (Bool-cases held) [
      | inl t ↦
          let same : enqueue p n d ≡ d = enqueue_held p n d (tests ∙ t) in
          rw (t, same)
            (
              ap (λ (f : ℕ → Proc). (f p).queue_number) kept,
              ap (λ (f : ℕ → Proc). (f p).queueticks) kept,
            )
      | inr f ↦ rw f (enqueue_fresh p n d (tests ∙ f))
    ]

-- The boost moves only every second process of a level. Let the entries of a level above 0 be the
-- processes `xs`, all with the number of the level, and those of queue 0 be `zs`, and no two of
-- these have one pid. Then the processes at the even places of `xs` go to the end of queue 0, and
-- those at the odd places stay where they are.
pub boost_level_halves :
    (k : Kernel) (level : ℕ) (xs zs : List ℕ)
    → 0 < level
    → queue k level ≡ entries xs
    → queue k 0 ≡ entries zs
    → AtLevel k level xs
    → PidsDistinct (λ j. (k.procs j).pid) xs
    → AllFresh (λ j. (k.procs j).pid) xs zs
    → let k' = boost_level (k.sizeofq level) level 0 k in
      (queue k' level ≡ entries (at_odd xs)) × (queue k' 0 ≡ entries (zs ++ at_even xs))
boost_level_halves k level xs zs lt source target numbers distinct fresh =
    boost_level_lem (λ j. (k.procs j).pid) level (k.sizeofq level) xs [] zs k 0 lt
      (omega (arith, size_of (λ j. (k.procs j).pid) k level xs source)) refl
      (record { pids = λ j. refl; source = source; target = target; numbers = numbers }) distinct
      (fresh_nil (λ j. (k.procs j).pid) xs) fresh
