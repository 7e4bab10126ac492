-- ===== src/Sched/Lottery.antt =====
-- The lottery draw of the scheduler under -DLBS (proc.c): which process a drawn value selects.
use cpu_scheduling_algos.Prelude.{
  ℕ, zero, suc, ◌+◌, ◌<◌, ◌≡◌, refl, inl, inr, true, Option, none, some, arith, Bool-cases,
  if◌then◌else◌, ◌&&◌, ◌^◌,
}
use cpu_scheduling_algos.Prelude.Int.{
  ℤ, pos, ◌+ℤ◌, ◌≤ℤ◌, ◌<ℤ◌, int_leb, +ℤ_parts, wrap_int, wrap_int_small,
}
use cpu_scheduling_algos.Proc.{Kernel}
use cpu_scheduling_algos.Sched.{runnable_at, add_tickets, total_tickets, draw_winner}

-- The tickets of the RUNNABLE processes from `i` on, as a number without a bound.
unfoldable pub sum_tickets : Kernel → ℕ → ℕ → ℤ → ℤ
sum_tickets k zero i total = total
sum_tickets k (suc n) i total =
    sum_tickets k n (i + 1) (if runnable_at k i then total +ℤ (k.procs i).tickets else total)

-- The first RUNNABLE process at which such a sum reaches the value.
unfoldable pub first_reaching : Kernel → ℕ → ℕ → ℤ → ℤ → Option ℕ
first_reaching k zero i sum value = none
first_reaching k (suc n) i sum value =
    let sum' = if runnable_at k i then sum +ℤ (k.procs i).tickets else sum in
    if runnable_at k i && int_leb value sum' then some i else first_reaching k n (i + 1) sum' value

-- No RUNNABLE process has a negative number of tickets.
abbrev pub TicketsNonneg : Kernel → Type 0
TicketsNonneg k = (i : ℕ) → runnable_at k i ≡ true → pos 0 ≤ℤ (k.procs i).tickets

pub total_mono : (k : Kernel) (n i : ℕ) (sum : ℤ) → TicketsNonneg k → sum ≤ℤ sum_tickets k n i sum
unfolding sum_tickets
total_mono k zero i sum h = omega arith
total_mono k (suc n) i sum h = elim (Bool-cases (runnable_at k i)) [
  | inl r ↦ ground (
    arith,
    h i r,
    +ℤ_parts sum (k.procs i).tickets,
    total_mono k n (i + 1) (sum +ℤ (k.procs i).tickets) h,
  )
  | inr r ↦ ground (arith, total_mono k n (i + 1) sum h)
]

-- A sum that stays below the bound of an int does not wrap around.
add_exact :
    (k : Kernel) (n i : ℕ) (sum : ℤ)
    → TicketsNonneg k
    → pos 0 ≤ℤ sum
    → runnable_at k i ≡ true
    → sum_tickets k n (i + 1) (sum +ℤ (k.procs i).tickets) <ℤ pos (2 ^ 31)
    → (add_tickets k i sum ≡ sum +ℤ (k.procs i).tickets) × (pos 0 ≤ℤ sum +ℤ (k.procs i).tickets)
unfolding add_tickets wrap_int
add_exact k n i sum h lo run hi =
    let grown = +ℤ_parts sum (k.procs i).tickets in
    let own = h i run in
    let below = total_mono k n (i + 1) (sum +ℤ (k.procs i).tickets) h in
    let lo' : pos 0 ≤ℤ sum +ℤ (k.procs i).tickets = omega (arith, grown, own, lo) in
    (wrap_int_small (sum +ℤ (k.procs i).tickets) lo' (omega (arith, below, hi)), lo')

pub total_tickets_exact :
    (k : Kernel) (n i : ℕ) (sum : ℤ)
    → TicketsNonneg k
    → pos 0 ≤ℤ sum
    → sum_tickets k n i sum <ℤ pos (2 ^ 31)
    → total_tickets k n i sum ≡ sum_tickets k n i sum
unfolding total_tickets sum_tickets
total_tickets_exact k zero i sum h lo hi = refl
total_tickets_exact k (suc n) i sum h lo hi = elim (Bool-cases (runnable_at k i)) [
  | inl r ↦
      let (same, lo') = add_exact k n i sum h lo r (rw r at hi) in
      rw (r, same) (total_tickets_exact k n (i + 1) (sum +ℤ (k.procs i).tickets) h lo' (rw r at hi))
  | inr r ↦ rw r (total_tickets_exact k n (i + 1) sum h lo (rw r at hi))
]

pub draw_winner_exact :
    (k : Kernel) (n i : ℕ) (sum v : ℤ)
    → TicketsNonneg k
    → pos 0 ≤ℤ sum
    → sum_tickets k n i sum <ℤ pos (2 ^ 31)
    → draw_winner k n i sum v ≡ first_reaching k n i sum v
unfolding draw_winner first_reaching sum_tickets
draw_winner_exact k zero i sum v h lo hi = refl
draw_winner_exact k (suc n) i sum v h lo hi = elim (Bool-cases (runnable_at k i)) [
  | inl r ↦
      let (same, lo') = add_exact k n i sum h lo r (rw r at hi) in
      rw (r, same, draw_winner_exact k n (i + 1) (sum +ℤ (k.procs i).tickets) v h lo' (rw r at hi))
        refl
  | inr r ↦ rw (r, draw_winner_exact k n (i + 1) sum v h lo (rw r at hi)) refl
]

-- The winner is RUNNABLE.
pub draw_winner_run :
    (k : Kernel) (n i w : ℕ) (sum v : ℤ) → draw_winner k n i sum v ≡ some w → runnable_at k w ≡ true
unfolding draw_winner
draw_winner_run k zero i w sum v h = absurd (ground arith)
draw_winner_run k (suc n) i w sum v h = elim (Bool-cases (runnable_at k i)) [
  | inl r ↦ elim (Bool-cases (int_leb v (add_tickets k i sum))) [
    | inl hit ↦ ground arith
    | inr miss ↦ draw_winner_run k n (i + 1) w (add_tickets k i sum) v (ground arith)
  ]
  | inr r ↦ draw_winner_run k n (i + 1) w sum v (ground arith)
]

-- What a successful search says of the sums before and at the winner.
pub first_reaching_bounds :
    (k : Kernel) (n i w : ℕ) (sum v : ℤ)
    → sum <ℤ v
    → first_reaching k n i sum v ≡ some w
    → (d : ℕ) × (w ≡ i + d)
      × (d < n)
      × (runnable_at k w ≡ true)
      × (sum_tickets k d i sum <ℤ v)
      × (v ≤ℤ sum_tickets k d i sum +ℤ (k.procs w).tickets)
unfolding first_reaching sum_tickets
first_reaching_bounds k zero i w sum v lt h = absurd (ground arith)
first_reaching_bounds k (suc n) i w sum v lt h = elim (Bool-cases (runnable_at k i)) [
  | inl r ↦ elim (Bool-cases (int_leb v (sum +ℤ (k.procs i).tickets))) [
    | inl hit ↦ (0, ground arith, omega arith, ground arith, ground arith, ground arith)
    | inr miss ↦
        let (d, e, lt', run, lo, hi) =
          first_reaching_bounds k n (i + 1) w (sum +ℤ (k.procs i).tickets) v (ground arith)
            (ground arith) in
        (suc d, omega arith, omega arith, run, ground arith, ground arith)
  ]
  | inr r ↦
      let (d, e, lt', run, lo, hi) = first_reaching_bounds k n (i + 1) w sum v lt (ground arith) in
      (suc d, omega arith, omega arith, run, ground arith, ground arith)
]

-- A process whose interval holds the drawn value is the one that the search finds.
pub first_reaching_hit :
    (k : Kernel) (n i d : ℕ) (sum v : ℤ)
    → TicketsNonneg k
    → d < n
    → runnable_at k (i + d) ≡ true
    → sum_tickets k d i sum <ℤ v
    → v ≤ℤ sum_tickets k d i sum +ℤ (k.procs (i + d)).tickets
    → first_reaching k n i sum v ≡ some (i + d)
unfolding first_reaching sum_tickets
first_reaching_hit k zero i d sum v pos_t lt run lo hi = absurd (omega arith)
first_reaching_hit k (suc n) i zero sum v pos_t lt run lo hi = ground arith
first_reaching_hit k (suc n) i (suc d) sum v pos_t lt run lo hi =
    elim (Bool-cases (runnable_at k i)) [
      | inl r ↦ ground (
        arith,
        total_mono k d (i + 1) (sum +ℤ (k.procs i).tickets) pos_t,
        first_reaching_hit k n (i + 1) d (sum +ℤ (k.procs i).tickets) v pos_t,
      )
      | inr r ↦ ground (arith, first_reaching_hit k n (i + 1) d sum v pos_t)
    ]

-- If the value is within the total, some process wins; if it is above, none does.
pub first_reaching_total :
    (k : Kernel) (n i : ℕ) (sum v : ℤ)
    → sum <ℤ v
    → v ≤ℤ sum_tickets k n i sum
    → (w : ℕ) × (first_reaching k n i sum v ≡ some w)
unfolding first_reaching sum_tickets
first_reaching_total k zero i sum v lt le = absurd (omega arith)
first_reaching_total k (suc n) i sum v lt le = elim (Bool-cases (runnable_at k i)) [
  | inl r ↦ elim (Bool-cases (int_leb v (sum +ℤ (k.procs i).tickets))) [
    | inl hit ↦ (i, ground arith)
    | inr miss ↦
        let (w, e) =
          first_reaching_total k n (i + 1) (sum +ℤ (k.procs i).tickets) v (ground arith)
            (ground arith) in
        (w, ground arith)
  ]
  | inr r ↦
      let (w, e) = first_reaching_total k n (i + 1) sum v lt (ground arith) in (w, ground arith)
]

pub first_reaching_above :
    (k : Kernel) (n i : ℕ) (sum v : ℤ)
    → TicketsNonneg k
    → sum_tickets k n i sum <ℤ v
    → first_reaching k n i sum v ≡ none
unfolding first_reaching sum_tickets
first_reaching_above k zero i sum v h lt = refl
first_reaching_above k (suc n) i sum v h lt = elim (Bool-cases (runnable_at k i)) [
  | inl r ↦ ground (
    arith,
    total_mono k n (i + 1) (sum +ℤ (k.procs i).tickets) h,
    first_reaching_above k n (i + 1) (sum +ℤ (k.procs i).tickets) v h,
  )
  | inr r ↦ ground (arith, first_reaching_above k n (i + 1) sum v h)
]
