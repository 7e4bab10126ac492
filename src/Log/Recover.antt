-- ===== src/Log/Recover.antt =====
-- recover_from_log() of initial-xv6/src/kernel/log.c, from an empty log and from a full one.
use cpu_scheduling_algos.Prelude.{
  ℕ, zero, suc, ◌+◌, ◌-◌, ◌≤◌, ◌<◌, ◌≡◌, ◌≢◌, refl, sym, ap, ◌∙◌, ◌⊎◌, inl, inr, Bool, arith, ◌==◌,
  if◌then◌else◌,
}
use cpu_scheduling_algos.Log.{
  Store, Log, Block, bwrite, header, write_head, read_head, emptied, install_trans,
  recover_from_log,
}
use cpu_scheduling_algos.Log.Commit.{is_logged, Outside, install_trans_lem}

-- The machine starts anew: the cache holds what is on the disk, and the power stays on.
abbrev pub reboot : ℕ → Store → Store
reboot power s = record { disk = s.disk; cache = s.disk; power = power }

-- What is on the disk once the log is recovered.
abbrev pub recovered : Log → ℕ → Store → ℕ → Block
recovered l power s = (recover_from_log l (reboot power s)).1.disk

pub write_head_lem :
    (l : Log) (s : Store)
    → ((write_head l s).power ≡ s.power - 1)
      × ((b : ℕ) → l.start ≢ b → (write_head l s).disk b ≡ s.disk b)
      × ((b : ℕ) → l.start ≢ b → (write_head l s).cache b ≡ s.cache b)
      × ((write_head l s).disk l.start
          ≡ (if s.power == 0 then s.disk l.start else header l (s.cache l.start)))
unfolding write_head bwrite
write_head_lem l s = (ground arith, λ b ne. ground arith, λ b ne. ground arith, ground arith)

pub write_head_idle : (l : Log) (s : Store) → s.power ≡ 0 → (write_head l s).disk ≡ s.disk
unfolding write_head bwrite
write_head_idle l s idle = ground arith

pub recovered_same :
    (l : Log) (power b : ℕ) (s s' : Store)
    → s.disk ≡ s'.disk
    → recovered l power s b ≡ recovered l power s' b
recovered_same l power b s s' e =
    ap
      (λ (d : ℕ → Block).
        (recover_from_log l (record { disk = d; cache = d; power = power })).1.disk b)
      e

-- If the header on the disk says that nothing is logged, recovery leaves every other block alone.
pub recover_empty :
    (l : Log) (power b : ℕ) (s : Store)
    → s.disk l.start 0 ≡ 0
    → l.start ≢ b
    → recovered l power s b ≡ s.disk b
unfolding recover_from_log
recover_empty l power b s empty ne =
    let r = reboot power s in
    let found = read_head l r in
    let i =
      install_trans_lem found b (s.disk b) r (λ j lt. absurd (omega (arith, empty)))
        (λ j lo hi e. absurd (omega (arith, empty))) in
    (write_head_lem (emptied found) (install_trans found r)).1 b ne ∙ same i.either
  where
    same : {A : Type 0} {x y : A} {P : Type 0} → (x ≡ y) ⊎ (P × (x ≡ y)) → x ≡ y
    same (inl e) = e
    same (inr (h, e)) = e

is_logged_same :
    (block block' : ℕ → ℕ) (n i b : ℕ)
    → ((j : ℕ) → i ≤ j → j < i + n → block j ≡ block' j)
    → is_logged block n i b ≡ is_logged block' n i b
is_logged_same block block' zero i b h = refl
is_logged_same block block' (suc n) i b h = ground (
  arith,
  h i (omega arith) (omega arith),
  is_logged_same block block' n (i + 1) b (λ j lo hi. h j (omega arith) (omega arith)),
)

-- The disk holds the log `l` in full, with `new b` as the contents of each logged block `b`.
pub record HasLog (l : Log) (new : ℕ → Block) (s : Store) : Type 0 where
  pub count : s.disk l.start 0 ≡ l.n
  pub numbers : (j : ℕ) → j < l.n → s.disk l.start (j + 1) ≡ l.block j
  pub copies : (j : ℕ) → j < l.n → s.disk (l.start + j + 1) ≡ new (l.block j)

-- Then recovery installs the logged blocks.
pub recover_full :
    (l : Log) (power b : ℕ) (new : ℕ → Block) (s : Store)
    → HasLog l new s
    → l.n ≤ power
    → ((j : ℕ) → j < l.n → Outside l.start l.n (l.block j))
    → l.start ≢ b
    → recovered l power s b ≡ (if is_logged l.block l.n 0 b then new b else s.disk b)
unfolding recover_from_log
recover_full l power b new s h pw out ne =
    let r = reboot power s in
    let found = read_head l r in
    let same : (j : ℕ) → j < l.n → found.block j ≡ l.block j =
      λ j lt. ground (arith, h.count, h.numbers j lt) in
    let i =
      install_trans_lem found b (new b) r
        (λ j lt. let lt' : j < l.n = omega (arith, h.count) in rw (same j lt', h.count) (out j lt'))
        (λ j lo hi e.
          let lt' : j < l.n = omega (arith, h.count) in
          h.copies j lt' ∙ ap new (sym (same j lt') ∙ e)) in
    (write_head_lem (emptied found) (install_trans found r)).1 b ne
    ∙ i.all (omega (arith, h.count))
    ∙ ap (λ (t : Bool). if t then new b else s.disk b)
        (ap (λ m. is_logged found.block m 0 b) h.count
          ∙ is_logged_same found.block l.block l.n 0 b (λ j lo hi. same j (omega arith)))
