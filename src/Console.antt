-- ===== src/Console.antt =====
-- initial-xv6/src/kernel/console.c: the input buffer of the console and the editing of a line; and printint()
-- and printptr() of printf.c. A list of characters is what consputc() is given in order, `backspace` for
-- BACKSPACE.
pub mod Uart
pub mod Input
pub mod Numbers
use cpu_scheduling_algos.Prelude.{
  ℕ, zero, suc, ◌+◌, ◌-◌, ◌*◌, ◌/◌, ◌%◌, ◌^◌, ◌==◌, ltb, leb, if◌then◌else◌, Bool, true, false, not,
  ◌&&◌, ◌||◌, Option, none, some, List, [], ◌∷◌, ◌++◌, update,
}
use cpu_scheduling_algos.Prelude.Int.{ℤ, pos, negsuc}
use cpu_scheduling_algos.Proc.{Kernel, Chan, wrap32}
use cpu_scheduling_algos.Waiting.{wakeup, fall_asleep, is_killed}
use cpu_scheduling_algos.Pipe.{Progress, returned, asleep}

abbrev pub input_buf_size : ℕ
input_buf_size = 128

-- `cons`, without its lock: the read, write and edit counters are unsigned ints that wrap.
pub record Cons : Type 0 where
  pub buf : ℕ → ℕ
  pub r : ℕ
  pub w : ℕ
  pub e : ℕ

-- `a - b` and `a - 1` on unsigned ints.
abbrev pub behind : ℕ → ℕ → ℕ
behind a b = (a + 4294967296 - b) % 4294967296

abbrev pub before : ℕ → ℕ
before a = behind a 1

abbrev pub backspace : ℕ
backspace = 256

abbrev pub newline : ℕ
newline = 10

-- C('P'), C('U'), C('H') and C('D')
abbrev pub ctrl_p : ℕ
ctrl_p = 16

abbrev pub ctrl_u : ℕ
ctrl_u = 21

abbrev pub ctrl_h : ℕ
ctrl_h = 8

abbrev pub ctrl_d : ℕ
ctrl_d = 4

abbrev pub delete : ℕ
delete = 127

-- `cons.e--`
abbrev pub erase : Cons → Cons
erase c = record c { e = before c.e }

abbrev pub last_char : Cons → ℕ
last_char c = c.buf (before c.e % input_buf_size)

-- The loop of the kill-line key, with fuel for the characters between `w` and `e`.
unfoldable pub kill_line : ℕ → Cons → List ℕ × Cons
kill_line zero c = ([], c)
kill_line (suc n) c =
    let (echo, c') = kill_line n (erase c) in
    if c.e == c.w || last_char c == newline then ([], c) else (backspace ∷ echo, c')

-- `cons.buf[cons.e++ % INPUT_BUF_SIZE] = c`
abbrev pub put : ℕ → Cons → Cons
put ch c = record c { buf = update c.buf (c.e % input_buf_size) (ch % 256); e = wrap32 (c.e + 1) }

-- `c == '\n' || c == C('D') || cons.e-cons.r == INPUT_BUF_SIZE`
abbrev pub ends_line : ℕ → Cons → Bool
ends_line ch c = ch == newline || ch == ctrl_d || behind c.e c.r == input_buf_size

-- The default case of consoleintr for a character that is stored. `chan` is `&cons.r`.
unfoldable pub accept : Chan → Option ℕ → ℕ → Cons → Kernel → List ℕ × Cons × Kernel
accept chan me ch c k =
    let c' = put ch c in
    if ends_line ch c'
    then (ch ∷ [], record c' { w = c'.e }, wakeup me chan k)
    else (ch ∷ [], c', k)

-- consoleintr(c), whose list of processes for control-P is not modelled.
unfoldable pub consoleintr : Chan → Option ℕ → ℕ → Cons → Kernel → List ℕ × Cons × Kernel
unfolding kill_line accept
consoleintr chan me ch c k =
    let (echo, killed) = kill_line (behind c.e c.w) c in
    if ch == ctrl_p
    then ([], c, k)
    else if ch == ctrl_u
    then (echo, killed, k)
    else if ch == ctrl_h || ch == delete
    then if not (c.e == c.w) then (backspace ∷ [], erase c, k) else ([], c, k)
    else if not (ch == 0) && ltb (behind c.e c.r) input_buf_size
    then accept chan me (if ch == 13 then newline else ch) c k
    else ([], c, k)

-- `cons.r++`
abbrev pub next_char : Cons → ℕ
next_char c = c.buf (c.r % input_buf_size)

abbrev pub advance : Cons → Cons
advance c = record c { r = wrap32 (c.r + 1) }

-- The loop of consoleread with `n` bytes left, `i` bytes copied, up to its first sleep. `copies i` says
-- whether either_copyout succeeds at the i-th address. The bytes that it copies come with the result.
unfoldable pub read_line :
    Chan → (ℕ → Bool) → ℕ → ℕ → ℕ → Cons → Kernel → Progress × List ℕ × Cons × Kernel
read_line chan copies me zero i c k = (returned (pos i), [], c, k)
read_line chan copies me (suc n) i c k =
    let ch = next_char c in
    let (p, bytes, c', k') = read_line chan copies me n (i + 1) (advance c) k in
    if c.r == c.w
    then if is_killed k me
      then (returned (negsuc 0), [], c, k)
      else (asleep i, [], c, fall_asleep me chan k)
    else if ch == ctrl_d
    then (returned (pos i), [], if ltb 0 i then c else advance c, k)
    else if not (copies i)
    then (returned (pos i), [], advance c, k)
    else if ch == newline
    then (returned (pos (i + 1)), ch ∷ [], advance c, k)
    else (p, ch ∷ bytes, c', k')

-- consoleread(user_dst, dst, n)
unfoldable pub consoleread :
    Chan → (ℕ → Bool) → ℕ → ℕ → Cons → Kernel → Progress × List ℕ × Cons × Kernel
consoleread chan copies me n c k = read_line chan copies me n 0 c k

-- `digits[d]`
abbrev pub digit_char : ℕ → ℕ
digit_char d = if ltb d 10 then d + 48 else d + 87

-- The first loop of printint: the digits of `x`, the lowest first. A round divides by 2 or more.
unfoldable pub digits_from : ℕ → ℕ → ℕ → List ℕ
digits_from zero base x = []
digits_from (suc n) base x =
    let rest = digits_from n base (x / base) in
    if x / base == 0 then x % base ∷ [] else x % base ∷ rest

abbrev pub reverse_onto {ℓ} : {A : Type ℓ} → List A → List A → List A
reverse_onto [] ys = ys
reverse_onto (x ∷ xs) ys = reverse_onto xs (x ∷ ys)

-- The unsigned int that printint prints, and whether behind a `-`.
abbrev pub magnitude : ℤ → Bool → ℕ
magnitude (pos n) sign = n
magnitude (negsuc n) sign = if sign then n + 1 else 4294967295 - n

abbrev pub has_minus : ℤ → Bool → Bool
has_minus (pos n) sign = false
has_minus (negsuc n) sign = sign

abbrev pub chars_of : List ℕ → List ℕ
chars_of [] = []
chars_of (d ∷ ds) = digit_char d ∷ chars_of ds

-- The characters in `buf` at the end of printint, and their output from the last to the first.
unfoldable pub int_buf : ℤ → ℕ → Bool → List ℕ
unfolding digits_from
int_buf xx base sign =
    chars_of (digits_from 32 base (magnitude xx sign))
    ++ (if has_minus xx sign then 45 ∷ [] else [])

unfoldable pub printint : ℤ → ℕ → Bool → List ℕ
unfolding int_buf
printint xx base sign = reverse_onto (int_buf xx base sign) []

-- The loop of printptr over the 4-bit digits of a 64-bit number, the highest first.
unfoldable pub nibbles_from : ℕ → ℕ → List ℕ
nibbles_from zero x = []
nibbles_from (suc n) x = digit_char (x / 2 ^ 60) ∷ nibbles_from n (x * 16 % 2 ^ 64)

-- printptr(x)
unfoldable pub printptr : ℕ → List ℕ
unfolding nibbles_from
printptr x = 48 ∷ 120 ∷ nibbles_from 16 x
