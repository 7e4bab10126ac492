-- ===== src/Log/Crash.antt =====
-- Crashes during commit() of initial-xv6/src/kernel/log.c: after recovery the transaction is on the disk
-- as a whole or not at all.
use cpu_scheduling_algos.Prelude.{
  ℕ, ◌+◌, ◌≤◌, ◌<◌, ◌≡◌, ◌≢◌, sym, ap, ◌∙◌, ◌⊎◌, inl, inr, true, false, ◌&&◌, arith, ◌==◌, ltb,
  if◌then◌else◌, Bool-cases,
}
use cpu_scheduling_algos.Log.{
  Store, Log, Block, header, write_head, emptied, write_log, install_trans, commit,
}
use cpu_scheduling_algos.Log.Commit.{
  is_logged, Outside, Wrote, write_log_lem, Installed, install_trans_lem, Outside-ne,
}
use cpu_scheduling_algos.Log.Recover.{
  recovered, write_head_lem, write_head_idle, recovered_same, recover_empty, HasLog, recover_full,
}

-- The header of the log on the disk is empty.
abbrev pub IsClear : Log → Store → Type 0
IsClear l s = s.disk l.start 0 ≡ 0

module _ (l : Log) (s : Store) (b : ℕ) (clear : IsClear l s)
    (out : (j : ℕ) → j < l.n → Outside l.start l.n (l.block j)) (away : Outside l.start l.n b) where
  logged : Store
  logged = write_log l s

  headed : Store
  unfolding logged
  headed = write_head l logged

  installed : Store
  unfolding headed
  installed = install_trans l headed

  cleared : Store
  unfolding installed
  cleared = write_head (emptied l) installed

  not_start : l.start ≢ b
  not_start e = Outside-ne l.start l.n b 0 away (omega arith) (omega (arith, e))

  wrote : Wrote l l.n 0 s logged
  unfolding logged
  wrote = write_log_lem l s out

  around : (b' : ℕ) → Outside l.start l.n b' → (b' < l.start + 0 + 1) ⊎ (l.start + 0 + l.n < b')
  around b' (inl lt) = inl (omega arith)
  around b' (inr lt) = inr (omega arith)

  head_new :
      l.n < s.power
      → (headed.disk l.start ≡ header l (logged.cache l.start))
        × (headed.disk b ≡ s.disk b)
        × ((j : ℕ) → j < l.n → headed.disk (l.start + j + 1) ≡ s.cache (l.block j))
  unfolding headed
  head_new lt =
      let (power, disk, cache, at) = write_head_lem l logged in
      (
        ground (arith, at, wrote.power),
        disk b not_start ∙ wrote.disk_frame b (around b away),
        λ j hi.
            disk (l.start + j + 1) (λ e. omega (arith, e))
            ∙ wrote.written j (omega arith) (omega arith) (omega arith),
      )

  head_cache : (j : ℕ) → j < l.n → headed.cache (l.start + j + 1) ≡ s.cache (l.block j)
  unfolding headed
  head_cache j hi =
      let (power, disk, cache, at) = write_head_lem l logged in
      cache (l.start + j + 1) (λ e. omega (arith, e)) ∙ wrote.cached j (omega arith) (omega arith)

  install : Installed l l.n 0 b (s.cache b) headed installed
  unfolding installed
  install =
      install_trans_lem l b (s.cache b) headed out
        (λ j lo hi e. head_cache j (omega (arith, hi)) ∙ ap s.cache e)

  new : Block
  new = if is_logged l.block l.n 0 b then s.cache b else s.disk b

  installed_all : l.n < s.power → l.n ≤ headed.power → installed.disk b ≡ new
  unfolding new
  installed_all lt pw =
      install.all pw
      ∙ ap (λ old. if is_logged l.block l.n 0 b then s.cache b else old) (head_new lt).1

  installed_some :
      l.n < s.power → (if is_logged l.block l.n 0 b then s.cache b else installed.disk b) ≡ new
  unfolding new
  installed_some lt = ground (arith, install.either, (head_new lt).1)

  log_stays : (j : ℕ) → j ≤ l.n → installed.disk (l.start + j) ≡ headed.disk (l.start + j)
  log_stays = install.log_disk

  start_words : l.n < s.power → installed.disk l.start ≡ header l (logged.cache l.start)
  start_words lt =
      let zero_is : l.start ≡ l.start + 0 = omega arith in
      ap installed.disk zero_is
      ∙ log_stays 0 (omega arith)
      ∙ ap headed.disk (sym zero_is)
      ∙ (head_new lt).0

  full : l.n < s.power → HasLog l s.cache installed
  full lt = record {
    count = ap (λ (f : Block). f 0) (start_words lt);
    numbers = λ j hi. ap (λ (f : Block). f (j + 1)) (start_words lt) ∙ ground arith;
    copies = λ j hi.
        let at : l.start + j + 1 ≡ l.start + (j + 1) = omega arith in
        ap installed.disk at
        ∙ log_stays (j + 1) (omega (arith, hi))
        ∙ ap headed.disk (sym at)
        ∙ (head_new lt).2 j hi;
  }

  -- The power goes out before the header is written: nothing but the log's own blocks has changed.
  headed_idle : s.power ≤ l.n → (headed.disk ≡ logged.disk) × (headed.power ≡ 0)
  unfolding headed
  headed_idle le =
      let (power, disk, cache, at) = write_head_lem l logged in
      (write_head_idle l logged (omega (arith, wrote.power)), omega (arith, power, wrote.power))

  start_old : s.power ≤ l.n → installed.disk l.start ≡ s.disk l.start
  start_old le =
      let zero_is : l.start ≡ l.start + 0 = omega arith in
      ap installed.disk zero_is
      ∙ log_stays 0 (omega arith)
      ∙ ap headed.disk (sym zero_is)
      ∙ ap (λ (d : ℕ → Block). d l.start) (headed_idle le).0
      ∙ wrote.disk_frame l.start (inl (omega arith))

  cut_early : (q : ℕ) → s.power ≤ l.n → recovered l q cleared b ≡ s.disk b
  unfolding cleared
  cut_early q le =
      let idle : installed.power ≡ 0 = omega (arith, install.power, (headed_idle le).1) in
      recovered_same l q b (write_head (emptied l) installed) installed
        (write_head_idle (emptied l) installed idle)
      ∙ recover_empty l q b installed (ap (λ (f : Block). f 0) (start_old le) ∙ clear) not_start
      ∙ install.stopped (headed_idle le).1
      ∙ ap (λ (d : ℕ → Block). d b) (headed_idle le).0
      ∙ wrote.disk_frame b (around b away)

  -- It goes out while the blocks are installed.
  cut_late : (q : ℕ) → l.n ≤ q → l.n < s.power → installed.power ≡ 0 → recovered l q cleared b ≡ new
  unfolding cleared
  cut_late q pw lt idle =
      recovered_same l q b (write_head (emptied l) installed) installed
        (write_head_idle (emptied l) installed idle)
      ∙ recover_full l q b s.cache installed (full lt) pw out not_start
      ∙ installed_some lt

  -- It stays on until the header is cleared.
  no_cut : (q : ℕ) → l.n < s.power → installed.power ≢ 0 → recovered l q cleared b ≡ new
  unfolding cleared
  no_cut q lt on =
      let (power2, disk2, cache2, at2) = write_head_lem (emptied l) installed in
      let pw : l.n ≤ headed.power = omega (arith, install.power, on) in
      recover_empty l q b (write_head (emptied l) installed) (ground (arith, at2)) not_start
      ∙ disk2 b not_start
      ∙ installed_all lt pw

  cut : (q : ℕ) → l.n ≤ q → recovered l q cleared b ≡ (if ltb l.n s.power then new else s.disk b)
  cut q pw = elim (Bool-cases (ltb l.n s.power)) [
    | inl lt ↦ elim (Bool-cases (installed.power == 0)) [
      | inl off ↦ rw lt (cut_late q pw (ground arith) (ground arith))
      | inr on ↦ rw lt (no_cut q (ground arith) (ground arith))
    ]
    | inr le ↦ rw le (cut_early q (ground arith))
  ]

commit_runs :
    (l : Log) (s : Store) (b : ℕ) (clear : IsClear l s)
    (out : (j : ℕ) → j < l.n → Outside l.start l.n (l.block j)) (away : Outside l.start l.n b)
    → ltb 0 l.n ≡ true
    → (commit l s).1 ≡ cleared l s b clear out away
unfolding commit cleared installed headed logged
commit_runs l s b clear out away more = ground arith

commit_idle : (l : Log) (s : Store) → ltb 0 l.n ≡ false → (commit l s).1 ≡ s
unfolding commit
commit_idle l s none_logged = ground arith

-- A transaction is atomic. If the machine stops after `s.power` disk writes of a commit, and starts
-- anew with power for at least as many writes as there are logged blocks, then recovery leaves each
-- block outside the log with the new contents if it is logged and more writes than logged blocks went
-- through (so that the header is written), and with its old contents otherwise. It holds where the
-- header on the disk was empty, and no logged block is one of the log's own.
pub commit_atomic :
    (l : Log) (s : Store) (q b : ℕ)
    → IsClear l s
    → ((j : ℕ) → j < l.n → Outside l.start l.n (l.block j))
    → Outside l.start l.n b
    → l.n ≤ q
    → recovered l q (commit l s).1 b
      ≡ (if ltb l.n s.power && is_logged l.block l.n 0 b then s.cache b else s.disk b)
unfolding new
commit_atomic l s q b clear out away pw = elim (Bool-cases (ltb 0 l.n)) [
  | inl more ↦
      ap (λ t. recovered l q t b) (commit_runs l s b clear out away more)
      ∙ cut l s b clear out away q pw
      ∙ ground arith
  | inr none_logged ↦
      ap (λ t. recovered l q t b) (commit_idle l s none_logged)
      ∙ recover_empty l q b s clear (not_start l s b clear out away)
      ∙ (let zero_is : l.n ≡ 0 = ground arith in rw zero_is (ground arith))
]
