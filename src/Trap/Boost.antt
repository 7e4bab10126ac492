-- ===== src/Trap/Boost.antt =====
-- The priority boost of usertrap() (trap.c), which walks a queue while it takes entries out of it.
use mathlib.Core.List.{append-nil, append_assoc}
use cpu_scheduling_algos.Prelude.{
  ℕ, zero, suc, ◌+◌, ◌≤◌, ◌<◌, ◌≡◌, ◌≢◌, refl, sym, ap, ◌∙◌, false, Option, some, arith, ◌==◌,
  ==_refl, List, [], ◌∷◌, ◌++◌, length, window_entry, length-window, length-append, any,
  erase_first,
}
use cpu_scheduling_algos.Proc.{Proc, Kernel}
use cpu_scheduling_algos.Queues.{queue, enqueue, dequeue}
use cpu_scheduling_algos.Queues.Refine.{same_pid, queue-enqueue, queue-dequeue}
use cpu_scheduling_algos.Queues.Effects
use cpu_scheduling_algos.Trap.{boost_entry, boost_level}

-- Every second element of a list, from the first on and from the second on.
abbrev pub at_even : List ℕ → List ℕ
at_even [] = []
at_even (x ∷ []) = x ∷ []
at_even (x ∷ y ∷ r) = x ∷ at_even r

abbrev pub at_odd : List ℕ → List ℕ
at_odd [] = []
at_odd (x ∷ []) = []
at_odd (x ∷ y ∷ r) = y ∷ at_odd r

-- The entries of a queue that holds the processes `xs`.
abbrev pub entries : List ℕ → List (Option ℕ)
entries [] = []
entries (x ∷ xs) = some x ∷ entries xs

pub entries-append : (xs ys : List ℕ) → entries (xs ++ ys) ≡ entries xs ++ entries ys
entries-append [] ys = refl
entries-append (x ∷ xs) ys = ap (λ zs. some x ∷ zs) (entries-append xs ys)

pub length-entries : (xs : List ℕ) → length (entries xs) ≡ length xs
length-entries [] = refl
length-entries (x ∷ xs) = ap suc (length-entries xs)

-- The processes of the list carry the number of the queue.
abbrev pub AtLevel : Kernel → ℕ → List ℕ → Type 0
AtLevel k level [] = Unit
AtLevel k level (x ∷ xs) = ((k.procs x).queue_number ≡ level) × AtLevel k level xs

module _ (pid : ℕ → ℕ) where
  -- No process of the list has the pid of `x`.
  abbrev pub Fresh : ℕ → List ℕ → Type 0
  Fresh x [] = Unit
  Fresh x (y ∷ ys) = (pid y ≢ pid x) × Fresh x ys

  -- Each process of the first list is fresh for the second.
  abbrev pub AllFresh : List ℕ → List ℕ → Type 0
  AllFresh [] ys = Unit
  AllFresh (x ∷ xs) ys = Fresh x ys × AllFresh xs ys

  abbrev pub PidsDistinct : List ℕ → Type 0
  PidsDistinct [] = Unit
  PidsDistinct (x ∷ xs) = Fresh x xs × PidsDistinct xs

  erase-Fresh :
      (k : Kernel) (x : ℕ) (before after : List ℕ)
      → ((j : ℕ) → (k.procs j).pid ≡ pid j)
      → Fresh x before
      → erase_first (same_pid k x) (entries (before ++ x ∷ after)) ≡ entries (before ++ after)
  erase-Fresh k x [] after same h = ground arith
  erase-Fresh k x (b ∷ before) after same h =
      ground (arith, same b, same x, erase-Fresh k x before after same h.1)

  any-Fresh :
      (k : Kernel) (x : ℕ) (xs : List ℕ)
      → ((j : ℕ) → (k.procs j).pid ≡ pid j)
      → Fresh x xs
      → any (same_pid k x) (entries xs) ≡ false
  any-Fresh k x [] same h = refl
  any-Fresh k x (y ∷ xs) same h = ground (arith, same y, same x, any-Fresh k x xs same h.1)

  pub Fresh-snoc : (x y : ℕ) (xs : List ℕ) → Fresh x xs → pid y ≢ pid x → Fresh x (xs ++ y ∷ [])
  Fresh-snoc x y [] h ne = (ne, tt)
  Fresh-snoc x y (z ∷ xs) h ne = (h.0, Fresh-snoc x y xs h.1 ne)

  AllFresh-snoc :
      (xs ys : List ℕ) (y : ℕ) → AllFresh xs ys → Fresh y xs → AllFresh xs (ys ++ y ∷ [])
  AllFresh-snoc [] ys y h f = tt
  AllFresh-snoc (x ∷ xs) ys y h f =
      (Fresh-snoc x y ys h.0 (λ e. f.0 (sym e)), AllFresh-snoc xs ys y h.1 f.1)

  -- The two queues that a boost of `level` works on, after it has kept `kept` and moved to `front`.
  pub record Boosting (level : ℕ) (kept rest front : List ℕ) (k : Kernel) : Type 0 where
    pub pids : (j : ℕ) → (k.procs j).pid ≡ pid j
    pub source : queue k level ≡ entries (kept ++ rest)
    pub target : queue k 0 ≡ entries front
    pub numbers : AtLevel k level rest

  AtLevel-keep :
      (k k' : Kernel) (level x : ℕ) (xs : List ℕ)
      → ((y : ℕ) → x ≢ y → k'.procs y ≡ k.procs y)
      → Fresh x xs
      → AtLevel k level xs
      → AtLevel k' level xs
  AtLevel-keep k k' level x [] keep f h = tt
  AtLevel-keep k k' level x (y ∷ xs) keep f h = (
    ap (λ (p : Proc). p.queue_number) (keep y (λ e. f.0 (ap pid (sym e)))) ∙ h.0,
    AtLevel-keep k k' level x xs keep f.1 h.1,
  )

  pub fresh_nil : (xs : List ℕ) → AllFresh xs []
  fresh_nil [] = tt
  fresh_nil (x ∷ xs) = (tt, fresh_nil xs)

  -- What an entry at the place behind the kept ones is, and what its boost comes to.
  boost_entry_is :
      (level x : ℕ) (kept rest front : List ℕ) (k : Kernel)
      → Boosting level kept (x ∷ rest) front k
      → boost_entry level (length kept) k ≡ enqueue x 0 (dequeue x level k)
  unfolding boost_entry
  boost_entry_is level x kept rest front k b =
      let at =
        window_entry (k.multique level) (k.sizeofq level) 0 (entries kept) (some x) (entries rest)
          (b.source ∙ entries-append kept (x ∷ rest)) in
      ground (arith, at, length-entries kept, b.numbers.0)

  boost_entry_lem :
      (level x : ℕ) (kept rest front : List ℕ) (k : Kernel)
      → 0 < level
      → Boosting level kept (x ∷ rest) front k
      → Fresh x kept
      → Fresh x rest
      → Fresh x front
      → Boosting level kept rest (front ++ x ∷ []) (boost_entry level (length kept) k)
  boost_entry_lem level x kept rest front k lt b fk fr ff =
      rw (boost_entry_is level x kept rest front k b) (record {
        pids = λ j.
            ap (λ (p : Proc). p.pid) (Effects.enqueue_keeps_proc x 0 j d)
            ∙ ap (λ (f : ℕ → Proc). (f j).pid) same_procs
            ∙ b.pids j;
        source = queue-enqueue x 0 level d ∙ rw level_ne d_source;
        target =
            queue-enqueue x 0 0 d
            ∙ rw (d_target, any-Fresh d x front d_pids ff) (sym (entries-append front (x ∷ [])));
        numbers =
            AtLevel-keep k (enqueue x 0 d) level x rest
              (λ y ne.
                Effects.enqueue_keeps_other x 0 y d ne ∙ ap (λ (f : ℕ → Proc). f y) same_procs)
              fr b.numbers.1;
      })
    where
      d : Kernel
      d = dequeue x level k

      same_procs : (dequeue x level k).procs ≡ k.procs
      same_procs = Effects.procs-dequeue x level k

      d_pids : (j : ℕ) → (d.procs j).pid ≡ pid j
      d_pids j = ap (λ (f : ℕ → Proc). (f j).pid) same_procs ∙ b.pids j

      level_ne : (0 == level) ≡ false
      level_ne = ground arith

      level_ne' : (level == 0) ≡ false
      level_ne' = ground arith

      d_source : queue d level ≡ entries (kept ++ rest)
      d_source =
          queue-dequeue x level level k
          ∙ rw (==_refl level, b.source) (erase-Fresh k x kept rest b.pids fk)

      d_target : queue d 0 ≡ entries front
      d_target = queue-dequeue x level 0 k ∙ rw level_ne' b.target

  pub size_of :
      (k : Kernel) (q : ℕ) (xs : List ℕ) → queue k q ≡ entries xs → k.sizeofq q ≡ length xs
  size_of k q xs e =
      sym (length-window (k.multique q) (k.sizeofq q) 0) ∙ ap length e ∙ length-entries xs

  boost_stops :
      (fuel level j : ℕ) (k : Kernel) → k.sizeofq level ≤ j → boost_level fuel level j k ≡ k
  unfolding boost_level
  boost_stops zero level j k le = refl
  boost_stops (suc fuel) level j k le = ground arith

  boost_steps :
      (fuel level j : ℕ) (k : Kernel)
      → j < k.sizeofq level
      → boost_level (suc fuel) level j k ≡ boost_level fuel level (j + 1) (boost_entry level j k)
  unfolding boost_level
  boost_steps fuel level j k lt = ground arith

  boost_first :
      (level fuel x : ℕ) (rest kept front : List ℕ) (k : Kernel) (j : ℕ)
      → j ≡ length kept
      → Boosting level kept (x ∷ rest) front k
      → boost_level (suc fuel) level j k
        ≡ boost_level fuel level (j + 1) (boost_entry level (length kept) k)
  boost_first level fuel x rest kept front k j at b =
      let size = size_of k level (kept ++ x ∷ rest) b.source in
      boost_steps fuel level j k (omega (arith, length-append kept (x ∷ rest)))
      ∙ ap (λ i. boost_level fuel level (j + 1) (boost_entry level i k)) at

  abbrev pub Boosted : ℕ → List ℕ → List ℕ → Kernel → Type 0
  Boosted level kept front k = (queue k level ≡ entries kept) × (queue k 0 ≡ entries front)

  -- The inner loop from the entry behind the kept ones on: it moves every second of the rest.
  pub boost_level_lem :
      (level fuel : ℕ) (rest kept front : List ℕ) (k : Kernel) (j : ℕ)
      → 0 < level
      → length rest ≤ fuel
      → j ≡ length kept
      → Boosting level kept rest front k
      → PidsDistinct rest
      → AllFresh rest kept
      → AllFresh rest front
      → Boosted level (kept ++ at_odd rest) (front ++ at_even rest) (boost_level fuel level j k)
  boost_level_lem level fuel [] kept front k j lt le at b pd fk ff =
      let size = size_of k level (kept ++ []) b.source in
      rw (boost_stops fuel level j k (ground (arith, append-nil kept)))
        (b.source, rw append-nil b.target)
  boost_level_lem level zero (x ∷ r) kept front k j lt le at b pd fk ff = absurd (omega arith)
  boost_level_lem level (suc fuel) (x ∷ []) kept front k j lt le at b pd fk ff =
      let b' = boost_entry_lem level x kept [] front k lt b fk.0 tt ff.0 in
      let size = size_of (boost_entry level (length kept) k) level (kept ++ []) b'.source in
      rw
        (
          boost_first level fuel x [] kept front k j at b,
          boost_stops fuel level (j + 1) (boost_entry level (length kept) k)
              (ground (arith, append-nil kept)),
        )
        (b'.source, b'.target)
  boost_level_lem level (suc fuel) (x ∷ y ∷ r) kept front k j lt le at b pd fk ff =
      let b' = boost_entry_lem level x kept (y ∷ r) front k lt b fk.0 pd.0 ff.0 in
      let k' : Kernel = boost_entry level (length kept) k in
      let ih =
        boost_level_lem level fuel r (kept ++ y ∷ []) (front ++ x ∷ []) k' (j + 1) lt (omega arith)
          (omega (arith, length-append kept (y ∷ [])))
          (record {
            pids = b'.pids;
            source = rw append_assoc b'.source;
            target = b'.target;
            numbers = b'.numbers.1;
          })
          pd.1.1 (AllFresh-snoc r kept y fk.1.1 pd.1.0) (AllFresh-snoc r front x ff.1.1 pd.0.1) in
      rw (boost_first level fuel x (y ∷ r) kept front k j at b)
        (rw append_assoc at ih.0, rw append_assoc at ih.1)
