-- ===== src/Pipe/Transfer.antt =====
-- What pipewrite and piperead of pipe.c transfer, in terms of the queue of bytes.
use Prim.Native.Nat.{min}
use mathlib.Core.List.{append-nil, append_assoc}
use cpu_scheduling_algos.Prelude.{
  ℕ, zero, suc, ◌+◌, ◌≡◌, ◌≢◌, ◌⊎◌, refl, sym, ap, ◌∙◌, inl, inr, Bool, true, false, Bool-cases,
  Option, some, List, [], ◌∷◌, ◌++◌, arith, length,
}
use cpu_scheduling_algos.Prelude.Int.{pos}
use cpu_scheduling_algos.Proc.{Kernel}
use cpu_scheduling_algos.Waiting.{is_killed, wakeup, fall_asleep}
use cpu_scheduling_algos.Pipe.{
  Pipe, pipe_size, is_full, is_empty, put_byte, get_byte, Progress, returned, asleep, write_from,
  pipewrite, read_from, piperead, nread_chan, nwrite_chan,
}
use cpu_scheduling_algos.Pipe.Fifo.{
  count, IsValid, contents, full_count, empty_count, put_byte_lem, get_byte_lem,
}

-- The bytes that are left to write, all of which copyin can fetch.
abbrev pub fetched : List ℕ → List (Option ℕ)
fetched [] = []
fetched (x ∷ xs) = some x ∷ fetched xs

-- What a write has done when it ends or sleeps: it has added a first part of the bytes. It sleeps only
-- at a full pipe, and returns the whole length only with all of them written.
pub record Wrote (pi : Pipe) (src : List ℕ) (i : ℕ) (end : Progress) (pi' : Pipe) : Type 0 where
  pub sent : List ℕ
  pub left : List ℕ
  pub split : sent ++ left ≡ src
  pub valid : IsValid pi'
  pub added : contents pi' ≡ contents pi ++ sent
  pub ends :
      ((left ≡ []) × (end ≡ returned (pos (i + length src))))
      ⊎ ((left ≢ []) × (end ≡ asleep (i + length sent)) × (count pi' ≡ pipe_size))

reader_put : (pi : Pipe) (ch : ℕ) → pi.readopen ≡ true → (put_byte ch pi).readopen ≡ true
unfolding put_byte
reader_put pi ch h = h

full_step :
    (me x : ℕ) (src : List (Option ℕ)) (i : ℕ) (pi : Pipe) (k : Kernel)
    → pi.readopen ≡ true
    → is_killed k me ≡ false
    → is_full pi ≡ true
    → (k' : Kernel) × (write_from me (some x ∷ src) i pi k ≡ (asleep i, pi, k'))
unfolding write_from
full_step me x src i pi k reader alive full = (
  fall_asleep me (nwrite_chan pi) (wakeup (some me) (nread_chan pi) k),
  simp (reader, alive, full),
)

room_step :
    (me x : ℕ) (src : List (Option ℕ)) (i : ℕ) (pi : Pipe) (k : Kernel)
    → pi.readopen ≡ true
    → is_killed k me ≡ false
    → is_full pi ≡ false
    → write_from me (some x ∷ src) i pi k ≡ write_from me src (i + 1) (put_byte x pi) k
unfolding write_from
room_step me x src i pi k reader alive room = simp (reader, alive, room)

write_from-Wrote :
    (me : ℕ) (src : List ℕ) (i : ℕ) (pi : Pipe) (k : Kernel)
    → IsValid pi
    → pi.readopen ≡ true
    → is_killed k me ≡ false
    → let (end, pi', k') = write_from me (fetched src) i pi k in Wrote pi src i end pi'
write_from-Wrote me [] i pi k v reader alive =
    unfold write_from in
    record {
      sent = [];
      left = [];
      split = refl;
      valid = v;
      added = sym (append-nil (contents pi));
      ends = inl (refl, ground arith);
    }
write_from-Wrote me (x ∷ src) i pi k v reader alive = elim (Bool-cases (is_full pi)) [
  | inl full ↦
      let (k', e) = full_step me x (fetched src) i pi k reader alive full in
      rw e (record {
        sent = [];
        left = x ∷ src;
        split = refl;
        valid = v;
        added = sym (append-nil (contents pi));
        ends = inr (λ e. cc, ground arith, full_count pi v full);
      })
  | inr room ↦
      let (v', grown) = put_byte_lem pi x v room in
      let w = write_from-Wrote me src (i + 1) (put_byte x pi) k v' (reader_put pi x reader) alive in
      rw (room_step me x (fetched src) i pi k reader alive room) (record {
        sent = x ∷ w.sent;
        left = w.left;
        split = ap (λ xs. x ∷ xs) w.split;
        valid = w.valid;
        added = w.added ∙ rw (grown, append_assoc) refl;
        ends = elim w.ends [
          | inl (all, value) ↦ inl (all, value ∙ ap (λ n. returned (pos n)) (omega arith))
          | inr (some_left, value, full) ↦ inr (some_left, value ∙ ap asleep (omega arith), full)
        ];
      })
]

-- As long as the reading end is open, the writer is not killed and its bytes can be fetched,
-- pipewrite appends to the pipe a first part of the bytes, in order, and keeps the pipe within its
-- bounds. It returns the number of bytes with all of them written, or sleeps at a full pipe with
-- some left.
pub pipewrite_lem :
    (me : ℕ) (src : List ℕ) (pi : Pipe) (k : Kernel)
    → IsValid pi
    → pi.readopen ≡ true
    → is_killed k me ≡ false
    → let (end, pi', k') = pipewrite me (fetched src) pi k in Wrote pi src 0 end pi'
unfolding pipewrite
pipewrite_lem me src pi k v reader alive = write_from-Wrote me src 0 pi k v reader alive

-- What a read has done: it has taken bytes from the front, as many as asked for or as there were.
pub record Took (pi : Pipe) (n i : ℕ) (got : List ℕ) (j : ℕ) (pi' : Pipe) : Type 0 where
  pub valid : IsValid pi'
  pub taken : contents pi ≡ got ++ contents pi'
  pub amount : length got ≡ min n (count pi)
  pub counter : j ≡ i + length got

take_step :
    (copies : ℕ → Bool) (n i : ℕ) (pi : Pipe)
    → is_empty pi ≡ false
    → copies i ≡ true
    → read_from copies (suc n) i pi ≡ (
      (get_byte pi).0 ∷ (read_from copies n (i + 1) (get_byte pi).1).0,
      (read_from copies n (i + 1) (get_byte pi).1).1,
      (read_from copies n (i + 1) (get_byte pi).1).2,
    )
unfolding read_from
take_step copies n i pi more fine = simp (more, fine)

stop_step :
    (copies : ℕ → Bool) (n i : ℕ) (pi : Pipe)
    → is_empty pi ≡ true
    → read_from copies (suc n) i pi ≡ ([], i, pi)
unfolding read_from
stop_step copies n i pi none_left = simp none_left

read_from-Took :
    (copies : ℕ → Bool) (n i : ℕ) (pi : Pipe)
    → ((j : ℕ) → copies j ≡ true)
    → IsValid pi
    → let (got, j, pi') = read_from copies n i pi in Took pi n i got j pi'
read_from-Took copies zero i pi fine v =
    unfold read_from in
    record { valid = v; taken = refl; amount = omega arith; counter = omega arith }
read_from-Took copies (suc n) i pi fine v = elim (Bool-cases (is_empty pi)) [
  | inl e ↦
      let none_there = empty_count pi v e in
      rw (stop_step copies n i pi e) (record {
        valid = v;
        taken = refl;
        amount = omega (arith, none_there);
        counter = omega arith;
      })
  | inr more ↦
      let (v', size, at) = get_byte_lem pi v more in
      let t = read_from-Took copies n (i + 1) (get_byte pi).1 fine v' in
      rw (take_step copies n i pi more (fine i)) (record {
        valid = t.valid;
        taken = at ∙ ap (λ xs. (get_byte pi).0 ∷ xs) t.taken;
        amount = omega (arith, size, t.amount);
        counter = omega (arith, t.counter);
      })
]

copy_step :
    (copies : ℕ → Bool) (me n : ℕ) (pi : Pipe) (k : Kernel)
    → is_empty pi ≡ false
    → piperead copies me n pi k ≡ (
      returned (pos (read_from copies n 0 pi).1),
      (read_from copies n 0 pi).0,
      (read_from copies n 0 pi).2,
      wakeup (some me) (nwrite_chan pi) k,
    )
unfolding piperead
copy_step copies me n pi k more = simp more

-- If copyout works and the pipe is not empty, piperead returns the number of bytes that it copied:
-- they are the oldest bytes of the pipe in order, as many as asked for or as there were, and the rest
-- stays in the pipe.
pub piperead_lem :
    (copies : ℕ → Bool) (me n : ℕ) (pi : Pipe) (k : Kernel)
    → ((j : ℕ) → copies j ≡ true)
    → IsValid pi
    → is_empty pi ≡ false
    → let (end, got, pi', k') = piperead copies me n pi k in
      (end ≡ returned (pos (length got))) × Took pi n 0 got (length got) pi'
piperead_lem copies me n pi k fine v more =
    let t = read_from-Took copies n 0 pi fine v in
    let count_is : (read_from copies n 0 pi).1 ≡ length (read_from copies n 0 pi).0 =
      omega (arith, t.counter) in
    rw (copy_step copies me n pi k more) (
      ap (λ j. returned (pos j)) count_is,
      record { valid = t.valid; taken = t.taken; amount = t.amount; counter = omega arith },
    )
