-- ===== src/File/Transfer.antt =====
-- fileread, filewrite and filestat in initial-xv6/src/kernel/file.c for files with an inode. Pipe has the
-- transfers of pipes, and those of a device are its driver's.
use cpu_scheduling_algos.Prelude.{
  ℕ, zero, suc, ◌+◌, ◌-◌, ◌==◌, ltb, if◌then◌else◌, Bool, true, false, not, List, Outcome, done,
  ◌>>=◌,
}
use cpu_scheduling_algos.Prelude.Int.{ℤ, pos, negsuc}
use cpu_scheduling_algos.Fs.{Fs}
use cpu_scheduling_algos.Fs.Inodes.{ilock, iunlock}
use cpu_scheduling_algos.Fs.Content.{Stat, stati, readi, writei, minus_one}
use cpu_scheduling_algos.Fs.Creation.{begin_op, end_op}
use cpu_scheduling_algos.File.{File}

-- `r > 0` and `f->off += r` for the result of a transfer.
abbrev pub advance : ℕ → File → File
advance r f = if r == minus_one then f else record f { off = f.off + r }

abbrev pub result_of : ℕ → ℤ
result_of r = if r == minus_one then negsuc 0 else pos r

-- The FD_INODE case of fileread(f, addr, n).
unfoldable pub read_inode {ℓ} :
    {W : Type ℓ} (out : ℕ → List ℕ → W → Bool × W)
    → File
    → ℕ
    → ℕ
    → Fs
    → W
    → Outcome (ℤ × File × Fs × W)
read_inode out f addr n fs w = do
  fs1 ← ilock f.ip fs
  (r, fs2, w') ← readi out f.ip addr f.off n fs1 w
  fs3 ← iunlock f.ip fs2
  done (result_of r, advance r f, fs3, w')

-- `((MAXOPBLOCKS-1-1-2) / 2) * BSIZE`
abbrev pub max_write : ℕ
max_write = 3072

-- One round of filewrite: a transaction that writes `n1` bytes from `addr` on.
unfoldable pub write_round :
    (inp : ℕ → ℕ → Bool × List ℕ) → File → ℕ → ℕ → Fs → Outcome (ℕ × File × Fs)
write_round inp f addr n1 fs = do
  fs1 ← ilock f.ip (begin_op fs)
  (r, fs2) ← writei inp f.ip addr f.off n1 fs1
  fs3 ← iunlock f.ip fs2
  done (r, advance r f, end_op fs3)

-- The loop of filewrite with `left` bytes to come, each round writing one byte or more: whether it wrote
-- them all.
unfoldable pub write_rounds :
    (inp : ℕ → ℕ → Bool × List ℕ) → ℕ → File → ℕ → ℕ → Fs → Outcome (Bool × File × Fs)
write_rounds inp zero f addr left fs = done (left == 0, f, fs)
write_rounds inp (suc fuel) f addr left fs =
    let n1 = if ltb max_write left then max_write else left in
    if left == 0 then done (true, f, fs) else do
      (r, f', fs') ← write_round inp f addr n1 fs
      if not (r == n1)
          then done (false, f', fs')
          else write_rounds inp fuel f' (addr + n1) (left - n1) fs'

-- The FD_INODE case of filewrite(f, addr, n).
unfoldable pub write_inode :
    (inp : ℕ → ℕ → Bool × List ℕ) → File → ℕ → ℕ → Fs → Outcome (ℤ × File × Fs)
write_inode inp f addr n fs = do
  (whole, f', fs') ← write_rounds inp n f addr n fs
  done (if whole then pos n else negsuc 0, f', fs')

-- filestat of a file with an inode, up to the copyout of the result.
unfoldable pub stat_inode : File → Fs → Outcome (Stat × Fs)
stat_inode f fs = do fs1 ← ilock f.ip fs; fs2 ← iunlock f.ip fs1; done (stati (fs1.inode f.ip), fs2)
