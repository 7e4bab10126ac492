-- ===== src/Log/Commit.antt =====
-- The loops of initial-xv6/src/kernel/log.c block by block, when the disk takes a limited number of
-- writes.
use cpu_scheduling_algos.Prelude.{
  ℕ, zero, suc, ◌+◌, ◌-◌, ◌≤◌, ◌<◌, ◌≡◌, ◌≢◌, refl, subst, ◌⊎◌, inl, inr, Bool, true, false, ◌||◌,
  arith, ◌==◌, ==_iff, if◌then◌else◌, Bool-cases, for_from,
}
use cpu_scheduling_algos.Log.{
  Store, Log, Block, bwrite, log_block, install_block, write_log, install_trans,
}

-- The blocks that are logged in the places `i` to `i + n - 1`.
abbrev pub is_logged : (ℕ → ℕ) → ℕ → ℕ → ℕ → Bool
is_logged block zero i b = false
is_logged block (suc n) i b = block i == b || is_logged block n (i + 1) b

-- The first `n` logged blocks lie outside the log's own blocks `start` to `start + n`.
abbrev pub Outside : ℕ → ℕ → ℕ → Type 0
Outside start n b = (b < start) ⊎ (start + n < b)

-- What the loop of write_log does from place `i` on.
pub record Wrote (l : Log) (n i : ℕ) (s s' : Store) : Type 0 where
  pub power : s'.power ≡ s.power - n
  pub cache_frame : (b : ℕ) → (b < l.start + i + 1) ⊎ (l.start + i + n < b) → s'.cache b ≡ s.cache b
  pub disk_frame : (b : ℕ) → (b < l.start + i + 1) ⊎ (l.start + i + n < b) → s'.disk b ≡ s.disk b
  pub cached : (j : ℕ) → i ≤ j → j < i + n → s'.cache (l.start + j + 1) ≡ s.cache (l.block j)
  pub written :
      (j : ℕ) → i ≤ j → j < i + n → n ≤ s.power → s'.disk (l.start + j + 1) ≡ s.cache (l.block j)

frame_side :
    (start i n b : ℕ)
    → (b < start + i + 1) ⊎ (start + i + suc n < b)
    → (b < start + (i + 1) + 1) ⊎ (start + (i + 1) + n < b)
frame_side start i n b (inl lt) = inl (omega arith)
frame_side start i n b (inr lt) = inr (omega arith)

apart : (start n i b : ℕ) → i < n → Outside start n b → start + i + 1 ≢ b
apart start n i b lt (inl h) e = omega arith
apart start n i b lt (inr h) e = omega arith

log_step :
    (l : Log) (n i : ℕ) (s s' : Store)
    → ((j : ℕ) → i ≤ j → j < i + suc n → Outside l.start (i + suc n) (l.block j))
    → Wrote l n (i + 1) (log_block l i s) s'
    → Wrote l (suc n) i s s'
unfolding log_block bwrite
log_step l n i s s' out w = record {
  power = ground (arith, w.power);
  cache_frame = λ b h. ground (arith, w.cache_frame b (frame_side l.start i n b h));
  disk_frame = λ b h. ground (arith, w.disk_frame b (frame_side l.start i n b h));
  cached = λ j lo hi. elim (Bool-cases (i == j)) [
    | inl e ↦
        let i_is : i ≡ j = (==_iff i j).0 e in
        rw (← i_is) (ground (arith, w.cache_frame (l.start + i + 1) (inl (omega arith))))
    | inr ne ↦ ground (
      arith,
      w.cached j (ground arith) (omega arith),
      apart l.start (i + suc n) i (l.block j) (omega arith) (out j lo hi),
    )
  ];
  written = λ j lo hi pw. elim (Bool-cases (i == j)) [
    | inl e ↦
        let i_is : i ≡ j = (==_iff i j).0 e in
        rw (← i_is) (ground (arith, w.disk_frame (l.start + i + 1) (inl (omega arith))))
    | inr ne ↦ ground (
      arith,
      w.written j (ground arith) (omega arith),
      apart l.start (i + suc n) i (l.block j) (omega arith) (out j lo hi),
    )
  ];
}

write_from :
    (l : Log) (n i : ℕ) (s : Store)
    → ((j : ℕ) → i ≤ j → j < i + n → Outside l.start (i + n) (l.block j))
    → Wrote l n i s (for_from (log_block l) n i s)
unfolding for_from
write_from l zero i s out = record {
  power = omega arith;
  cache_frame = λ b h. refl;
  disk_frame = λ b h. refl;
  cached = λ j lo hi. absurd (omega arith);
  written = λ j lo hi pw. absurd (omega arith);
}
write_from l (suc n) i s out = log_step l n i s (for_from (log_block l) (suc n) i s) out (
    write_from l n (i + 1) (log_block l i s) (λ j lo hi.
      let o = out j (omega arith) (omega arith) in
      let e : i + suc n ≡ i + 1 + n = omega arith in rw (← e) o))

pub write_log_lem :
    (l : Log) (s : Store)
    → ((j : ℕ) → j < l.n → Outside l.start l.n (l.block j))
    → Wrote l l.n 0 s (write_log l s)
unfolding write_log
write_log_lem l s out = write_from l l.n 0 s (λ j lo hi.
    let e : l.n ≡ 0 + l.n = omega arith in
    subst (λ m. Outside l.start m (l.block j)) e (out j (omega arith)))

-- What the loop of install_trans does from place `i` on, where the log's copies of block `b` all hold `v`:
-- every other write leaves the block alone.
pub record Installed (l : Log) (n i b : ℕ) (v : Block) (s s' : Store) : Type 0 where
  pub power : s'.power ≡ s.power - n
  pub log_disk : (j : ℕ) → j ≤ l.n → s'.disk (l.start + j) ≡ s.disk (l.start + j)
  pub log_cache : (j : ℕ) → j ≤ l.n → s'.cache (l.start + j) ≡ s.cache (l.start + j)
  pub either : (s'.disk b ≡ s.disk b) ⊎ ((is_logged l.block n i b ≡ true) × (s'.disk b ≡ v))
  pub stopped : s.power ≡ 0 → s'.disk b ≡ s.disk b
  pub all : n ≤ s.power → s'.disk b ≡ (if is_logged l.block n i b then v else s.disk b)

-- The log holds `v` for each of the places `i` to `i + n - 1` at which it has block `b`.
abbrev pub HoldsAs : Log → ℕ → ℕ → ℕ → Block → Store → Type 0
HoldsAs l n i b v s = (j : ℕ) → i ≤ j → j < i + n → l.block j ≡ b → s.cache (l.start + j + 1) ≡ v

pub Outside-ne : (start n b j : ℕ) → Outside start n b → j ≤ n → b ≢ start + j
Outside-ne start n b j (inl lt) le e = omega arith
Outside-ne start n b j (inr lt) le e = omega arith

install_step :
    (l : Log) (n i b : ℕ) (v : Block) (s s' : Store)
    → i < l.n
    → Outside l.start l.n (l.block i)
    → HoldsAs l (suc n) i b v s
    → Installed l n (i + 1) b v (install_block l i s) s'
    → Installed l (suc n) i b v s s'
unfolding install_block bwrite
install_step l n i b v s s' lt out holds w = record {
  power = ground (arith, w.power);
  log_disk = λ j le. ground (arith, w.log_disk j le, Outside-ne l.start l.n (l.block i) j out le);
  log_cache = λ j le. ground (arith, w.log_cache j le, Outside-ne l.start l.n (l.block i) j out le);
  either = elim (Bool-cases (l.block i == b)) [
    | inl e ↦
        let eq : l.block i ≡ b = (==_iff (l.block i) b).0 e in
        ground (arith, w.either, holds i (omega arith) (omega arith) eq)
    | inr ne ↦ ground (arith, w.either)
  ];
  stopped = λ z. ground (arith, w.stopped);
  all = λ pw. elim (Bool-cases (l.block i == b)) [
    | inl e ↦
        let eq : l.block i ≡ b = (==_iff (l.block i) b).0 e in
        ground (arith, w.all, holds i (omega arith) (omega arith) eq)
    | inr ne ↦ ground (arith, w.all)
  ];
}

holds_next :
    (l : Log) (n i b : ℕ) (v : Block) (s : Store)
    → i + suc n ≤ l.n
    → Outside l.start l.n (l.block i)
    → HoldsAs l (suc n) i b v s
    → HoldsAs l n (i + 1) b v (install_block l i s)
unfolding install_block bwrite
holds_next l n i b v s le out holds j lo hi e = ground (
  arith,
  holds j (omega arith) (omega arith) e,
  Outside-ne l.start l.n (l.block i) (j + 1) out (omega arith),
)

install_from :
    (l : Log) (n i b : ℕ) (v : Block) (s : Store)
    → i + n ≤ l.n
    → ((j : ℕ) → j < l.n → Outside l.start l.n (l.block j))
    → HoldsAs l n i b v s
    → Installed l n i b v s (for_from (install_block l) n i s)
unfolding for_from
install_from l zero i b v s le out holds = record {
  power = omega arith;
  log_disk = λ j le. refl;
  log_cache = λ j le. refl;
  either = inl refl;
  stopped = λ z. refl;
  all = λ pw. refl;
}
install_from l (suc n) i b v s le out holds =
    install_step l n i b v s (for_from (install_block l) (suc n) i s) (omega arith)
      (out i (omega arith)) holds
      (install_from l n (i + 1) b v (install_block l i s) (omega arith) out
        (holds_next l n i b v s le (out i (omega arith)) holds))

pub install_trans_lem :
    (l : Log) (b : ℕ) (v : Block) (s : Store)
    → ((j : ℕ) → j < l.n → Outside l.start l.n (l.block j))
    → HoldsAs l l.n 0 b v s
    → Installed l l.n 0 b v s (install_trans l s)
unfolding install_trans
install_trans_lem l b v s out holds = install_from l l.n 0 b v s (omega arith) out holds
