-- ===== src/Console/Input.antt =====
-- The input buffer of initial-xv6/src/kernel/console.c never holds more than it has room for.
use cpu_scheduling_algos.Prelude.{
  ℕ, zero, suc, ◌+◌, ◌≤◌, ◌<◌, ◌≢◌, inl, inr, ◌==◌, ltb, if◌then◌else◌, Bool, not, ◌&&◌, ◌||◌,
  Bool-cases, arith, Option,
}
use cpu_scheduling_algos.Proc.{Kernel, Chan}
use cpu_scheduling_algos.Waiting.{is_killed}
use cpu_scheduling_algos.Console.{
  Cons, input_buf_size, behind, newline, ctrl_p, ctrl_u, ctrl_h, ctrl_d, delete, erase, last_char,
  kill_line, put, ends_line, accept, consoleintr, next_char, advance, read_line, consoleread,
}

-- The counters are 32-bit; the line that is edited begins behind what is read, and all of it is in the
-- buffer.
pub record IsOrdered (c : Cons) : Type 0 where
  pub r : c.r < 4294967296
  pub w : c.w < 4294967296
  pub e : c.e < 4294967296
  pub edited : behind c.w c.r ≤ behind c.e c.r
  pub fits : behind c.e c.r ≤ input_buf_size

erase-IsOrdered : (c : Cons) → IsOrdered c → c.e ≢ c.w → IsOrdered (erase c)
erase-IsOrdered c o ne = record {
  r = o.r;
  w = o.w;
  e = omega arith;
  edited = omega (arith, o.r, o.w, o.e, o.edited, o.fits);
  fits = omega (arith, o.r, o.w, o.e, o.edited, o.fits);
}

kill_line-IsOrdered : (n : ℕ) (c : Cons) → IsOrdered c → IsOrdered (kill_line n c).1
unfolding kill_line
kill_line-IsOrdered zero c o = o
kill_line-IsOrdered (suc n) c o = elim (Bool-cases (c.e == c.w || last_char c == newline)) [
  | inl t ↦ rw t o
  | inr f ↦ rw f (kill_line-IsOrdered n (erase c) (erase-IsOrdered c o (ground arith)))
]

put-IsOrdered :
    (ch : ℕ) (c : Cons) → IsOrdered c → behind c.e c.r < input_buf_size → IsOrdered (put ch c)
put-IsOrdered ch c o room = record {
  r = o.r;
  w = o.w;
  e = omega arith;
  edited = omega (arith, o.r, o.w, o.e, o.edited, o.fits);
  fits = omega (arith, o.r, o.w, o.e, o.edited, o.fits);
}

commit-IsOrdered : (c : Cons) → IsOrdered c → IsOrdered (record c { w = c.e })
commit-IsOrdered c o = record { r = o.r; w = o.e; e = o.e; edited = omega arith; fits = o.fits }

accept-IsOrdered :
    (chan : Chan) (me : Option ℕ) (ch : ℕ) (c : Cons) (k : Kernel)
    → IsOrdered c
    → behind c.e c.r < input_buf_size
    → IsOrdered (accept chan me ch c k).1
unfolding accept
accept-IsOrdered chan me ch c k o room = elim (Bool-cases (ends_line ch (put ch c))) [
  | inl t ↦ rw t (commit-IsOrdered (put ch c) (put-IsOrdered ch c o room))
  | inr f ↦ rw f (put-IsOrdered ch c o room)
]

-- Every key keeps the counters in order and the input within the buffer.
pub consoleintr-IsOrdered :
    (chan : Chan) (me : Option ℕ) (ch : ℕ) (c : Cons) (k : Kernel)
    → IsOrdered c
    → IsOrdered (consoleintr chan me ch c k).1
unfolding consoleintr
consoleintr-IsOrdered chan me ch c k o = elim (Bool-cases (ch == ctrl_p)) [
  | inl p ↦ rw p o
  | inr np ↦ rw np (elim (Bool-cases (ch == ctrl_u)) [
    | inl u ↦ rw u (kill_line-IsOrdered (behind c.e c.w) c o)
    | inr nu ↦ rw nu (elim (Bool-cases (ch == ctrl_h || ch == delete)) [
      | inl h ↦ rw h (elim (Bool-cases (not (c.e == c.w))) [
        | inl ne ↦ rw ne (erase-IsOrdered c o (ground arith))
        | inr eq ↦ rw eq o
      ])
      | inr nh ↦ rw nh (elim (Bool-cases (not (ch == 0) && ltb (behind c.e c.r) input_buf_size)) [
        | inl t ↦
            rw t (accept-IsOrdered chan me (if ch == 13 then newline else ch) c k o (ground arith))
        | inr f ↦ rw f o
      ])
    ])
  ])
]

advance-IsOrdered : (c : Cons) → IsOrdered c → c.r ≢ c.w → IsOrdered (advance c)
advance-IsOrdered c o ne = record {
  r = omega arith;
  w = o.w;
  e = o.e;
  edited = omega (arith, o.r, o.w, o.e, o.edited, o.fits);
  fits = omega (arith, o.r, o.w, o.e, o.edited, o.fits);
}

read_line-IsOrdered :
    (chan : Chan) (copies : ℕ → Bool) (me n i : ℕ) (c : Cons) (k : Kernel)
    → IsOrdered c
    → IsOrdered (read_line chan copies me n i c k).2
unfolding read_line
read_line-IsOrdered chan copies me zero i c k o = o
read_line-IsOrdered chan copies me (suc n) i c k o = elim (Bool-cases (c.r == c.w)) [
  | inl t ↦ rw t (elim (Bool-cases (is_killed k me)) [ inl x ↦ rw x o | inr x ↦ rw x o ])
  | inr f ↦
      let more = advance-IsOrdered c o (ground arith) in
      rw f (elim (Bool-cases (next_char c == ctrl_d)) [
        | inl d ↦ rw d (elim (Bool-cases (ltb 0 i)) [ inl x ↦ rw x o | inr x ↦ rw x more ])
        | inr nd ↦ rw nd (elim (Bool-cases (not (copies i))) [
          | inl x ↦ rw x more
          | inr x ↦ rw x (elim (Bool-cases (next_char c == newline)) [
            | inl y ↦ rw y more
            | inr y ↦ rw y (read_line-IsOrdered chan copies me n (i + 1) (advance c) k more)
          ])
        ])
      ])
]

-- consoleread keeps the counters in order.
pub consoleread-IsOrdered :
    (chan : Chan) (copies : ℕ → Bool) (me n : ℕ) (c : Cons) (k : Kernel)
    → IsOrdered c
    → IsOrdered (consoleread chan copies me n c k).2
unfolding consoleread
consoleread-IsOrdered chan copies me n c k o = read_line-IsOrdered chan copies me n 0 c k o

-- In a state where the counters are in order, every key and every read leaves them in order: the line that
-- is edited begins behind what is read, and no more than INPUT_BUF_SIZE characters wait in the buffer.
pub console-IsOrdered :
    (chan : Chan) (me : Option ℕ) (ch : ℕ) (copies : ℕ → Bool) (p n : ℕ) (c : Cons) (k : Kernel)
    → IsOrdered c
    → IsOrdered (consoleintr chan me ch c k).1 × IsOrdered (consoleread chan copies p n c k).2
console-IsOrdered chan me ch copies p n c k o =
    (consoleintr-IsOrdered chan me ch c k o, consoleread-IsOrdered chan copies p n c k o)
