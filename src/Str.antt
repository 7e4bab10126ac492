-- ===== src/Str.antt =====
-- initial-xv6/src/kernel/string.c: the byte routines, over memory as a function of the address. The
-- kernel's objects do not reach the end of the address space, so pointers do not wrap.
pub mod Move
pub mod Compare
use cpu_scheduling_algos.Prelude.{
  ℕ, zero, suc, ◌+◌, ◌-◌, ◌%◌, ◌==◌, ltb, if◌then◌else◌, Bool, true, false, not, ◌&&◌, ◌||◌, update,
  for_from, find_from, Option,
}
use cpu_scheduling_algos.Prelude.Int.{ℤ, pos, negsuc, sub_ℕ}

-- memset(dst, c, n): the byte is `c` converted to a char.
unfoldable pub memset : ℕ → ℕ → ℕ → (ℕ → ℕ) → ℕ → ℕ
unfolding for_from
memset dst c n m = for_from (λ i m'. update m' (dst + i) (c % 256)) n 0 m

-- memcmp(v1, v2, n)
unfoldable pub memcmp : ℕ → ℕ → ℕ → (ℕ → ℕ) → ℤ
memcmp v1 v2 zero m = pos 0
memcmp v1 v2 (suc n) m =
    let rest = memcmp (v1 + 1) (v2 + 1) n m in if m v1 == m v2 then rest else sub_ℕ (m v1) (m v2)

-- `while (n-- > 0) *d++ = *s++;`
unfoldable pub copy_up : ℕ → ℕ → ℕ → (ℕ → ℕ) → ℕ → ℕ
copy_up zero d s m = m
copy_up (suc n) d s m = copy_up n (d + 1) (s + 1) (update m d (m s))

-- `s += n; d += n; while (n-- > 0) *--d = *--s;`
unfoldable pub copy_down : ℕ → ℕ → ℕ → (ℕ → ℕ) → ℕ → ℕ
copy_down zero d s m = m
copy_down (suc n) d s m = copy_down n d s (update m (d + n) (m (s + n)))

-- memmove(dst, src, n)
unfoldable pub memmove : ℕ → ℕ → ℕ → (ℕ → ℕ) → ℕ → ℕ
unfolding copy_up copy_down
memmove dst src n m =
    if n == 0
    then m
    else if ltb src dst && ltb dst (src + n)
    then copy_down n dst src m
    else copy_up n dst src m

-- strncmp(p, q, n), which compares as unsigned chars.
unfoldable pub strncmp : ℕ → ℕ → ℕ → (ℕ → ℕ) → ℤ
strncmp p q zero m = pos 0
strncmp p q (suc n) m =
    let rest = strncmp (p + 1) (q + 1) n m in
    if not (m p == 0) && m p == m q then rest else sub_ℕ (m p) (m q)

-- strncpy(s, t, n): `fill` is its second loop.
unfoldable pub fill_zero : ℕ → ℕ → (ℕ → ℕ) → ℕ → ℕ
fill_zero zero s m = m
fill_zero (suc n) s m = fill_zero n (s + 1) (update m s 0)

unfoldable pub strncpy : ℕ → ℕ → ℕ → (ℕ → ℕ) → ℕ → ℕ
unfolding fill_zero
strncpy s t zero m = m
strncpy s t (suc n) m =
    let m' = update m s (m t) in
    let rest = strncpy (s + 1) (t + 1) n m' in if m t == 0 then fill_zero n (s + 1) m' else rest

-- The loop of safestrcpy with `n` bytes of room, and the terminator behind it.
unfoldable pub copy_safely : ℕ → ℕ → ℕ → (ℕ → ℕ) → ℕ → ℕ
copy_safely s t zero m = update m s 0
copy_safely s t (suc n) m =
    let m' = update m s (m t) in
    let rest = copy_safely (s + 1) (t + 1) n m' in if m t == 0 then update m' (s + 1) 0 else rest

-- safestrcpy(s, t, n)
unfoldable pub safestrcpy : ℕ → ℕ → ℕ → (ℕ → ℕ) → ℕ → ℕ
unfolding copy_safely
safestrcpy s t zero m = m
safestrcpy s t (suc n) m = copy_safely s t n m

-- strlen(s), for a string that ends within `n` bytes: the index of its NUL.
unfoldable pub strlen : ℕ → ℕ → (ℕ → ℕ) → Option ℕ
unfolding find_from
strlen s n m = find_from (λ i. m (s + i) == 0) n 0
