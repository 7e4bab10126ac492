-- ===== src/Pipe.antt =====
-- initial-xv6/src/kernel/pipe.c: reading and writing a pipe. The counters are unsigned ints that
-- wrap; a buffer index is a counter modulo PIPESIZE.
pub mod Fifo
pub mod Transfer
use cpu_scheduling_algos.Prelude.{
  ℕ, zero, suc, ◌+◌, ◌-◌, ◌*◌, ◌%◌, ◌==◌, if◌then◌else◌, Bool, true, false, not, ◌&&◌, ◌||◌, Option,
  none, some, List, [], ◌∷◌, update,
}
use cpu_scheduling_algos.Prelude.Int.{ℤ, pos, negsuc}
use cpu_scheduling_algos.Proc.{Kernel, Chan, other_chan, wrap32}
use cpu_scheduling_algos.Waiting.{wakeup, fall_asleep, is_killed}

abbrev pub pipe_size : ℕ
pipe_size = 512

-- `struct pipe`, without its lock. `buffer` is the field `data`; `addr` tells the addresses of the
-- fields nread and nwrite, which the kernel sleeps on, from those of other pipes.
pub record Pipe : Type 0 where
  pub addr : ℕ
  pub buffer : ℕ → ℕ
  pub nread : ℕ
  pub nwrite : ℕ
  pub readopen : Bool
  pub writeopen : Bool

abbrev pub nread_chan : Pipe → Chan
nread_chan pi = other_chan (2 * pi.addr)

abbrev pub nwrite_chan : Pipe → Chan
nwrite_chan pi = other_chan (2 * pi.addr + 1)

-- `pi->nwrite == pi->nread + PIPESIZE` and `pi->nread == pi->nwrite`.
abbrev pub is_full : Pipe → Bool
is_full pi = pi.nwrite == wrap32 (pi.nread + pipe_size)

abbrev pub is_empty : Pipe → Bool
is_empty pi = pi.nread == pi.nwrite

-- `pi->data[pi->nwrite++ % PIPESIZE] = ch`
unfoldable pub put_byte : ℕ → Pipe → Pipe
put_byte ch pi = record pi {
  buffer = update pi.buffer (pi.nwrite % pipe_size) ch;
  nwrite = wrap32 (pi.nwrite + 1);
}

-- `pi->data[pi->nread++ % PIPESIZE]`
unfoldable pub get_byte : Pipe → ℕ × Pipe
get_byte pi = (pi.buffer (pi.nread % pipe_size), record pi { nread = wrap32 (pi.nread + 1) })

-- How far a call gets before it returns or sleeps: the value that it returns, or the loop's counter.
pub data Progress : Type 0 where
  returned : ℤ → Progress
  asleep : ℕ → Progress

-- The loop of pipewrite from counter `i` until it ends or sleeps. The list holds the bytes that are
-- left to write, none for an address from which copyin fails.
unfoldable pub write_from : ℕ → List (Option ℕ) → ℕ → Pipe → Kernel → Progress × Pipe × Kernel
write_from me [] i pi k = (returned (pos i), pi, wakeup (some me) (nread_chan pi) k)
write_from me (none ∷ src) i pi k =
    let woken = wakeup (some me) (nread_chan pi) k in
    if not pi.readopen || is_killed k me
    then (returned (negsuc 0), pi, k)
    else if is_full pi
    then (asleep i, pi, fall_asleep me (nwrite_chan pi) woken)
    else (returned (pos i), pi, woken)
write_from me (some ch ∷ src) i pi k =
    let woken = wakeup (some me) (nread_chan pi) k in
    let rest = write_from me src (i + 1) (put_byte ch pi) k in
    if not pi.readopen || is_killed k me
    then (returned (negsuc 0), pi, k)
    else if is_full pi
    then (asleep i, pi, fall_asleep me (nwrite_chan pi) woken)
    else rest

-- pipewrite(pi, addr, n) up to its first sleep.
unfoldable pub pipewrite : ℕ → List (Option ℕ) → Pipe → Kernel → Progress × Pipe × Kernel
pipewrite me src pi k = write_from me src 0 pi k

-- The copying loop of piperead with `n` rounds left, from counter `i`. `copies i` says whether
-- copyout succeeds at the i-th address. The bytes copied, the counter, and the pipe.
unfoldable pub read_from : (ℕ → Bool) → ℕ → ℕ → Pipe → List ℕ × ℕ × Pipe
read_from copies zero i pi = ([], i, pi)
read_from copies (suc n) i pi =
    let (ch, pi') = get_byte pi in
    let (got, j, pi'') = read_from copies n (i + 1) pi' in
    if is_empty pi then ([], i, pi) else if copies i then (ch ∷ got, j, pi'') else ([], i, pi')

-- piperead(pi, addr, n) up to its first sleep, with the bytes copied to the user.
unfoldable pub piperead : (ℕ → Bool) → ℕ → ℕ → Pipe → Kernel → Progress × List ℕ × Pipe × Kernel
piperead copies me n pi k =
    let (got, i, pi') = read_from copies n 0 pi in
    if is_empty pi && pi.writeopen
    then if is_killed k me
      then (returned (negsuc 0), [], pi, k)
      else (asleep 0, [], pi, fall_asleep me (nread_chan pi) k)
    else (returned (pos i), got, pi', wakeup (some me) (nwrite_chan pi) k)

-- pipeclose(pi, writable), and whether the page of the pipe is freed.
unfoldable pub pipeclose : Option ℕ → Bool → Pipe → Kernel → Bool × Pipe × Kernel
pipeclose me true pi k =
    (not pi.readopen, record pi { writeopen = false }, wakeup me (nread_chan pi) k)
pipeclose me false pi k =
    (not pi.writeopen, record pi { readopen = false }, wakeup me (nwrite_chan pi) k)
