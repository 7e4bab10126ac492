-- ===== src/Str/Move.antt =====
-- memmove of initial-xv6/src/kernel/string.c: which byte goes where.
use cpu_scheduling_algos.Prelude.{
  ℕ, zero, suc, ◌+◌, ◌-◌, ◌≤◌, ◌≡◌, ◌⊎◌, inl, inr, false, arith, ltb, leb, ◌&&◌, if◌then◌else◌,
  Bool-cases, update,
}
use cpu_scheduling_algos.Str.{copy_up, copy_down, memmove}

apart_step : (d s n : ℕ) → (d ≤ s) ⊎ (s + suc n ≤ d) → (d + 1 ≤ s + 1) ⊎ (s + 1 + n ≤ d + 1)
apart_step d s n (inl le) = inl (omega arith)
apart_step d s n (inr le) = inr (omega arith)

pub copy_up_lem :
    (n d s : ℕ) (m : ℕ → ℕ) (a : ℕ)
    → (d ≤ s) ⊎ (s + n ≤ d)
    → copy_up n d s m a ≡ (if leb d a && ltb a (d + n) then m (s + (a - d)) else m a)
unfolding copy_up
copy_up_lem zero d s m a h = ground arith
copy_up_lem (suc n) d s m a h =
    ground (arith, copy_up_lem n (d + 1) (s + 1) (update m d (m s)) a (apart_step d s n h))

pub copy_down_lem :
    (n d s : ℕ) (m : ℕ → ℕ) (a : ℕ)
    → s ≤ d
    → copy_down n d s m a ≡ (if leb d a && ltb a (d + n) then m (s + (a - d)) else m a)
unfolding copy_down
copy_down_lem zero d s m a h = ground arith
copy_down_lem (suc n) d s m a h =
    ground (arith, copy_down_lem n d s (update m (d + n) (m (s + n))) a h)

moved_apart :
    (dst src n : ℕ) → (ltb src dst && ltb dst (src + n)) ≡ false → (dst ≤ src) ⊎ (src + n ≤ dst)
moved_apart dst src n h = ground arith

-- memmove copies right whether or not the two ranges overlap: every byte of the destination is the
-- byte that the source held before the call, and every other byte of memory is unchanged.
pub memmove_lem :
    (dst src n : ℕ) (m : ℕ → ℕ) (a : ℕ)
    → memmove dst src n m a ≡ (if leb dst a && ltb a (dst + n) then m (src + (a - dst)) else m a)
unfolding memmove
memmove_lem dst src n m a = elim (Bool-cases (ltb src dst && ltb dst (src + n))) [
  | inl down ↦ ground (arith, copy_down_lem n dst src m a (ground arith))
  | inr up ↦ ground (arith, copy_up_lem n dst src m a (moved_apart dst src n up))
]
