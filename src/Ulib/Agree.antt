-- ===== src/Ulib/Agree.antt =====
-- memmove of initial-xv6/src/user/ulib.c against that of the kernel's string.c.
use cpu_scheduling_algos.Prelude.{
  ℕ, zero, suc, ◌+◌, ◌%◌, ◌^◌, ◌<◌, if◌then◌else◌, ◌≡◌, refl, inl, inr, arith, ltb, fun_ext,
  Bool-cases, update, ap,
}
use cpu_scheduling_algos.Prelude.Int.{pos}
use cpu_scheduling_algos.Sysproc.{int_of}
use cpu_scheduling_algos.Str
use cpu_scheduling_algos.Str.{copy_up, copy_down}
use cpu_scheduling_algos.Str.Move.{memmove_lem, copy_up_lem, copy_down_lem}
use cpu_scheduling_algos.Ulib.{move_up, move_down, memmove}

move_up-copy_up : (n d s : ℕ) (m : ℕ → ℕ) → move_up n d s m ≡ copy_up n d s m
unfolding move_up copy_up
move_up-copy_up zero d s m = refl
move_up-copy_up (suc n) d s m = move_up-copy_up n (d + 1) (s + 1) (update m d (m s))

move_down-copy_down : (n d s : ℕ) (m : ℕ → ℕ) → move_down n d s m ≡ copy_down n d s m
unfolding move_down copy_down
move_down-copy_down zero d s m = refl
move_down-copy_down (suc n) d s m = move_down-copy_down n d s (update m (d + n) (m (s + n)))

moves_alike : (dst src n : ℕ) (m : ℕ → ℕ) → memmove dst src (pos n) m ≡ Str.memmove dst src n m
unfolding memmove
moves_alike dst src n m = fun_ext (λ a. elim (Bool-cases (ltb dst src)) [
  | inl up ↦ ground (
    arith,
    ap (λ (f : ℕ → ℕ). f a) (move_up-copy_up n dst src m),
    copy_up_lem n dst src m a (inl (ground arith)),
    memmove_lem dst src n m a,
  )
  | inr down ↦ ground (
    arith,
    ap (λ (f : ℕ → ℕ). f a) (move_down-copy_down n dst src m),
    copy_down_lem n dst src m a (ground arith),
    memmove_lem dst src n m a,
  )
])

-- For a length `n` of 32 bits, which memmove of user programs takes as an int and that of the kernel as a
-- uint, the two leave the same memory below 2 ^ 31, though they choose the direction of the copy by
-- different tests. From 2 ^ 31 on the length is negative to the one of user programs, which copies
-- nothing.
pub memmove_agrees :
    (dst src n : ℕ) (m : ℕ → ℕ)
    → n < 2 ^ 32
    → memmove dst src (int_of n) m ≡ (if ltb n (2 ^ 31) then Str.memmove dst src n m else m)
unfolding memmove
memmove_agrees dst src n m h =
    let low : n % 2 ^ 32 ≡ n = omega arith in
    rw low (elim (Bool-cases (ltb n (2 ^ 31))) [
      | inl t ↦ rw t (moves_alike dst src n m)
      | inr f ↦ rw f refl
    ])
