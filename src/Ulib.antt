-- ===== src/Ulib.antt =====
-- initial-xv6/src/user/ulib.c: the string routines of user programs, over memory as a function of the
-- address. `n` bounds the place of the NUL where a routine runs until one.
pub mod Agree
use cpu_scheduling_algos.Prelude.{
  ℕ, zero, suc, ◌+◌, ◌-◌, ◌*◌, ◌%◌, ◌==◌, ltb, leb, if◌then◌else◌, Bool, true, false, not, ◌&&◌,
  update, for_from, find_from, Option, none, some,
}
use cpu_scheduling_algos.Prelude.Int.{ℤ, pos, negsuc, sub_ℕ}

-- strcpy(s, t)
unfoldable pub strcpy : ℕ → ℕ → ℕ → (ℕ → ℕ) → ℕ → ℕ
strcpy s t zero m = m
strcpy s t (suc n) m =
    let m' = update m s (m t) in
    let rest = strcpy (s + 1) (t + 1) n m' in if m t == 0 then m' else rest

-- strcmp(p, q), none if the bound comes before the answer.
unfoldable pub strcmp : ℕ → ℕ → ℕ → (ℕ → ℕ) → Option ℤ
strcmp p q zero m = none
strcmp p q (suc n) m =
    let rest = strcmp (p + 1) (q + 1) n m in
    if not (m p == 0) && m p == m q then rest else some (sub_ℕ (m p) (m q))

-- strchr(s, c): the address of the first `c` before the NUL, none for a null pointer.
unfoldable pub strchr : ℕ → ℕ → ℕ → (ℕ → ℕ) → Option ℕ
strchr s c zero m = none
strchr s c (suc n) m =
    let rest = strchr (s + 1) c n m in if m s == 0 then none else if m s == c then some s else rest

-- atoi(s): the value of the digits from `s` on, from the value `v` of those before.
unfoldable pub atoi_from : ℕ → ℕ → ℕ → (ℕ → ℕ) → ℕ
atoi_from zero v s m = v
atoi_from (suc n) v s m =
    let rest = atoi_from n (v * 10 + (m s - 48)) (s + 1) m in
    if leb 48 (m s) && leb (m s) 57 then rest else v

unfoldable pub atoi : ℕ → ℕ → (ℕ → ℕ) → ℕ
unfolding atoi_from
atoi n s m = atoi_from n 0 s m

-- The two loops of memmove(vdst, vsrc, n).
unfoldable pub move_up : ℕ → ℕ → ℕ → (ℕ → ℕ) → ℕ → ℕ
move_up zero dst src m = m
move_up (suc n) dst src m = move_up n (dst + 1) (src + 1) (update m dst (m src))

unfoldable pub move_down : ℕ → ℕ → ℕ → (ℕ → ℕ) → ℕ → ℕ
move_down zero dst src m = m
move_down (suc n) dst src m = move_down n dst src (update m (dst + n) (m (src + n)))

-- memmove(vdst, vsrc, n), whose `n` is an int: no round of a loop is made for a negative one.
unfoldable pub memmove : ℕ → ℕ → ℤ → (ℕ → ℕ) → ℕ → ℕ
unfolding move_up move_down
memmove vdst vsrc (negsuc n) m = m
memmove vdst vsrc (pos n) m =
    if ltb vdst vsrc then move_up n vdst vsrc m else move_down n vdst vsrc m
