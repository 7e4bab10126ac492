-- ===== src/Log/Absorb.antt =====
-- log_write() of initial-xv6/src/kernel/log.c keeps a set of block numbers.
use cpu_scheduling_algos.Prelude.{
  ℕ, ◌+◌, ◌-◌, ◌≤◌, ◌≡◌, refl, inl, inr, ◌⊎◌, Bool, true, false, not, ◌||◌, arith, ◌==◌, leb, ltb,
  if◌then◌else◌, Bool-cases, Option-cases, List, [], ◌∷◌, ◌++◌, update, window, window_eq,
  window_snoc, any, any-window-none, any-window-some, find_from, find_from-some, done, panic,
}
use cpu_scheduling_algos.Log.{Log, logsize, log_write}

-- The block numbers in the log, oldest first.
abbrev pub logged_blocks : Log → List ℕ
logged_blocks l = window l.block 0 l.n

abbrev pub is_full : Log → Bool
is_full l = leb logsize l.n || leb (l.size - 1) l.n || ltb l.outstanding 1

-- What a log_write that returns leaves behind.
pub record Logged (l l' : Log) (blockno : ℕ) (pins : Bool) : Type 0 where
  pub blocks : logged_blocks l' ≡ (
      if any (λ b. b == blockno) (logged_blocks l)
      then logged_blocks l
      else logged_blocks l ++ blockno ∷ [])
  pub pinned : pins ≡ not (any (λ b. b == blockno) (logged_blocks l))
  pub size : l'.n ≤ logsize
  pub operations : l'.outstanding ≡ l.outstanding

grow : (block : ℕ → ℕ) (n b : ℕ) → window (update block n b) 0 (n + 1) ≡ window block 0 n ++ b ∷ []
grow block n b = ground (
  arith,
  window_snoc (update block n b) n 0,
  window_eq (update block n b) block n 0 0 (λ i lt. ground arith),
)

rewrite_same :
    (block : ℕ → ℕ) (n i b : ℕ) → block i ≡ b → window (update block i b) 0 n ≡ window block 0 n
rewrite_same block n i b e = window_eq (update block i b) block n 0 0 (λ j lt. ground arith)

-- log_write panics if the log is full or no operation is open. Otherwise it adds the number of the
-- block behind the others and pins its buffer, or changes nothing if the block is in the log already;
-- the log has no more than LOGSIZE blocks then.
pub log_write_lem :
    (l : Log) (blockno : ℕ)
    → ((is_full l ≡ true) × (log_write blockno l ≡ panic))
      ⊎ ((l' : Log) × (pins : Bool) × (is_full l ≡ false)
          × (log_write blockno l ≡ done (pins, l'))
          × Logged l l' blockno pins)
unfolding log_write
log_write_lem l blockno = elim (Bool-cases (is_full l)) [
  | inl full ↦ inl (full, rw full refl)
  | inr room ↦ elim (Option-cases (find_from (λ i. l.block i == blockno) l.n 0)) [
    | inl e ↦
        let absent = any-window-none (λ b. b == blockno) l.block l.n 0 e in
        inr (
          record l { block = update l.block l.n blockno; n = l.n + 1 },
          true,
          room,
          rw (room, e) refl,
          record {
            blocks = rw absent (grow l.block l.n blockno);
            pinned = rw absent refl;
            size = ground arith;
            operations = refl;
          },
        )
    | inr (i, e) ↦
        let present = any-window-some (λ b. b == blockno) l.block l.n 0 i e in
        let (t, lo, hi) = find_from-some (λ i. l.block i == blockno) l.n 0 i e in
        inr (
          record l { block = update l.block i blockno },
          false,
          room,
          rw (room, e) refl,
          record {
            blocks = rw present (rewrite_same l.block l.n i blockno (ground arith));
            pinned = rw present refl;
            size = ground arith;
            operations = refl;
          },
        )
  ]
]
