-- ===== src/Sched/Pick.antt =====
-- The choice of the scheduler under -DMLFQ (proc.c), and that it never idles while work is there.
use cpu_scheduling_algos.Prelude.{
  ℕ, ◌+◌, ◌<◌, ◌≡◌, refl, inl, inr, true, none, some, arith, ◌==◌, ==_iff, if◌then◌else◌,
  Bool-cases, Option-cases, for_from, for_from_inv, ap, ◌∙◌, ◌≢◌, sym,
}
use cpu_scheduling_algos.Proc.{Proc, Kernel, nproc}
use cpu_scheduling_algos.Queues.{enqueue}
use cpu_scheduling_algos.Queues.Effects.{
  enqueue_keeps_proc, enqueue_queue_number, enqueue_entry, enqueue_keeps_entry, enqueue_has,
}
use cpu_scheduling_algos.Sched.{runnable_at, pick_from, requeue, dispatch, mlfq_round}
use cpu_scheduling_algos.Sched.Levels.{IsFirst, NoneRunnable, pick_from-some, pick_from-none}

-- Some entry of the levels 0 to 3 has the pid of process `i`, and no entry lies out of the table.
pub record IsQueued (k : Kernel) (i : ℕ) : Type 0 where
  pub level : ℕ
  pub place : ℕ
  pub who : ℕ
  pub level_in : level < 4
  pub inside : place < k.sizeofq level
  pub entry : k.multique level place ≡ some who
  pub same : (k.procs who).pid ≡ (k.procs i).pid

-- The entries of all queues point into the process table.
abbrev pub EntriesIn : Kernel → Type 0
EntriesIn k = (q j m : ℕ) → j < k.sizeofq q → k.multique q j ≡ some m → m < nproc

-- A RUNNABLE process shares its pid with no other process.
abbrev pub DistinctPids : Kernel → Type 0
DistinctPids k =
    (i j : ℕ)
    → i < nproc
    → j < nproc
    → runnable_at k i ≡ true
    → (k.procs j).pid ≡ (k.procs i).pid
    → j ≡ i

-- What holds of the kernel `s` after the requeue loop has passed the processes below `n`.
record Requeued (k : Kernel) (n : ℕ) (s : Kernel) : Type 0 where
  state : (j : ℕ) → (s.procs j).state ≡ (k.procs j).state
  pid : (j : ℕ) → (s.procs j).pid ≡ (k.procs j).pid
  levels : (j : ℕ) → (s.procs j).queue_number < 4
  entries : EntriesIn s
  queued : (j : ℕ) → j < n → runnable_at k j ≡ true → IsQueued s j

requeue_proc :
    (i j : ℕ) (s : Kernel)
    → (((requeue i s).procs j).state ≡ (s.procs j).state)
      × (((requeue i s).procs j).pid ≡ (s.procs j).pid)
      × (((requeue i s).procs j).queue_number ≡ (s.procs j).queue_number)
unfolding requeue
requeue_proc i j s =
    let f = enqueue_keeps_proc i (s.procs i).queue_number j s in
    ground (
      arith,
      ap (λ (p : Proc). p.state) f,
      ap (λ (p : Proc). p.pid) f,
      enqueue_queue_number i (s.procs i).queue_number j s,
    )

requeue_rows :
    (i q : ℕ) (s : Kernel)
    → ((requeue i s).multique q ≡ (
        if runnable_at s i
        then (enqueue i (s.procs i).queue_number s).multique q
        else s.multique q))
      × ((requeue i s).sizeofq q ≡ (
          if runnable_at s i
          then (enqueue i (s.procs i).queue_number s).sizeofq q
          else s.sizeofq q))
unfolding requeue
requeue_rows i q s = ground arith

requeue-EntriesIn : (i : ℕ) (s : Kernel) → i < nproc → EntriesIn s → EntriesIn (requeue i s)
requeue-EntriesIn i s lt h q j m inside e = elim (Bool-cases (i == m)) [
  | inl same ↦ ground arith
  | inr other ↦
      ground (arith, requeue_rows i q s, enqueue_entry i (s.procs i).queue_number q j m s, h q j m)
]

-- A process that is queued stays queued.
requeue-IsQueued : (i j : ℕ) (s : Kernel) → IsQueued s j → IsQueued (requeue i s) j
requeue-IsQueued i j s w = record {
  level = w.level;
  place = w.place;
  who = w.who;
  level_in = w.level_in;
  inside = ground (
    arith,
    requeue_rows i w.level s,
    enqueue_keeps_entry i (s.procs i).queue_number w.level w.place s w.inside,
  );
  entry = ground (
    arith,
    w.entry,
    requeue_rows i w.level s,
    enqueue_keeps_entry i (s.procs i).queue_number w.level w.place s w.inside,
  );
  same = ground (arith, w.same, requeue_proc i w.who s, requeue_proc i j s);
}

requeue_adds :
    (i : ℕ) (s : Kernel)
    → runnable_at s i ≡ true
    → (s.procs i).queue_number < 4
    → IsQueued (requeue i s) i
requeue_adds i s run lt =
    let (j, m, inside, e, same) = enqueue_has i (s.procs i).queue_number s in
    record {
      level = (s.procs i).queue_number;
      place = j;
      who = m;
      level_in = lt;
      inside = ground (arith, requeue_rows i (s.procs i).queue_number s);
      entry = ground (arith, requeue_rows i (s.procs i).queue_number s);
      same = ground (arith, requeue_proc i m s, requeue_proc i i s);
    }

requeue-Requeued :
    (k : Kernel) (i : ℕ) (s : Kernel)
    → i < nproc
    → Requeued k i s
    → Requeued k (i + 1) (requeue i s)
requeue-Requeued k i s lt h = record {
  state = λ j. (requeue_proc i j s).0 ∙ h.state j;
  pid = λ j. (requeue_proc i j s).1 ∙ h.pid j;
  levels = λ j. ground (arith, requeue_proc i j s, h.levels j);
  entries = requeue-EntriesIn i s lt h.entries;
  queued = λ j lt' run. elim (Bool-cases (i == j)) [
    | inl same ↦
        let j_is : i ≡ j = (==_iff i j).0 same in
        rw (← j_is) (requeue_adds i s (ground (arith, h.state i)) (h.levels i))
    | inr ne ↦ requeue-IsQueued i j s (h.queued j (ground arith) run)
  ];
}

requeued :
    (k : Kernel)
    → EntriesIn k
    → ((j : ℕ) → (k.procs j).queue_number < 4)
    → Requeued k nproc (for_from requeue nproc 0 k)
requeued k entries levels =
    for_from_inv (Requeued k) requeue nproc (requeue-Requeued k) nproc 0 k (omega arith) (record {
      state = λ j. refl;
      pid = λ j. refl;
      levels = levels;
      entries = entries;
      queued = λ j lt run. absurd (omega arith);
    })

-- So the search cannot fail while a process is RUNNABLE.
pick_total :
    (k s : Kernel) (i : ℕ)
    → Requeued k nproc s
    → DistinctPids k
    → i < nproc
    → runnable_at k i ≡ true
    → pick_from s 4 0 ≢ none
pick_total k s i h pids lt run e =
    let w = h.queued i lt run in
    let none_there = pick_from-none s 4 0 w.level e (omega arith) w.level_in w.place w.inside in
    let who_in : w.who < nproc = h.entries w.level w.place w.who w.inside w.entry in
    let same : (k.procs w.who).pid ≡ (k.procs i).pid = sym (h.pid w.who) ∙ w.same ∙ h.pid i in
    let who_is : w.who ≡ i = pids i w.who lt who_in run same in
    let runs : runnable_at s i ≡ true = rw (h.state i) run in
    ground (arith, none_there, w.entry, who_is, runs)

mlfq_dispatch :
    (s : Kernel) (p : ℕ)
    → pick_from s 4 0 ≡ some p
    → runnable_at s p ≡ true
    → (dispatch (pick_from s 4 0) s).0 ≡ some p
unfolding dispatch
mlfq_dispatch s p e run = rw e (rw run)

-- No level above `l` has a RUNNABLE entry.
abbrev pub IdleAbove : Kernel → ℕ → Type 0
IdleAbove k l = (l' : ℕ) → l' < l → NoneRunnable k l'

-- Under -DMLFQ the scheduler is work-conserving and strict: if some process is RUNNABLE, it
-- switches to a process that was RUNNABLE and is the first RUNNABLE entry of its level, with no
-- RUNNABLE entry on any level above. It holds where every entry points into the table, queue numbers
-- are below 4, and no two processes share the pid of a RUNNABLE one.
pub mlfq_round_picks :
    (k : Kernel) (i : ℕ)
    → EntriesIn k
    → ((j : ℕ) → (k.procs j).queue_number < 4)
    → DistinctPids k
    → i < nproc
    → runnable_at k i ≡ true
    → let s = for_from requeue nproc 0 k in
      (p : ℕ) × (l : ℕ) × ((mlfq_round k).0 ≡ some p)
      × (runnable_at k p ≡ true)
      × (l < 4)
      × IsFirst s l p
      × IdleAbove s l
unfolding mlfq_round
mlfq_round_picks k i entries levels pids lt run = elim (Option-cases (pick_from s 4 0)) [
  | inl e ↦ absurd (pick_total k s i h pids lt run e)
  | inr (p, e) ↦
      let (l, l_in, first, above) = pick_from-some s 4 0 p e in
      let runs : runnable_at k p ≡ true = rw (← h.state p) first.run in
      (
        p,
        l,
        mlfq_dispatch s p e first.run,
        runs,
        omega arith,
        first,
        λ l' hi. above l' (omega arith) hi,
      )
]
  where
    s : Kernel
    s = for_from requeue nproc 0 k

    h : Requeued k nproc (for_from requeue nproc 0 k)
    h = requeued k entries levels
