-- ===== src/File/Open.antt =====
-- sys_open in initial-xv6/src/kernel/sysfile.c behind argstr(), which gives a path. The call counts itself as
-- those of Sysproc do.
use cpu_scheduling_algos.Prelude.{
  ℕ, ◌/◌, ◌%◌, ◌==◌, leb, if◌then◌else◌, Bool, not, ◌&&◌, ◌||◌, Option, none, some, List, Outcome,
  done, ◌>>=◌,
}
use cpu_scheduling_algos.Prelude.Int.{ℤ, pos, negsuc}
use cpu_scheduling_algos.Fs.{Fs}
use cpu_scheduling_algos.Fs.Inodes.{ilock, iunlock}
use cpu_scheduling_algos.Fs.Content.{itrunc, iunlockput}
use cpu_scheduling_algos.Fs.Directories.{t_dir}
use cpu_scheduling_algos.Fs.Paths.{namei}
use cpu_scheduling_algos.Fs.Creation.{begin_op, end_op, t_file, t_device, create}
use cpu_scheduling_algos.File.{
  File, Files, fd_inode, fd_device, set_file, filealloc, fdalloc, drop_file, close_inode,
}

-- The bits O_WRONLY, O_RDWR, O_CREATE and O_TRUNC of fcntl.h in `omode`.
abbrev pub wants_write : ℕ → Bool
wants_write omode = omode % 2 == 1

abbrev pub wants_both : ℕ → Bool
wants_both omode = omode / 2 % 2 == 1

abbrev pub wants_create : ℕ → Bool
wants_create omode = omode / 512 % 2 == 1

abbrev pub wants_trunc : ℕ → Bool
wants_trunc omode = omode / 1024 % 2 == 1

abbrev pub ndev : ℕ
ndev = 10

-- sys_open without O_CREATE: the inode, locked, none if it is not there or a directory to write to.
unfoldable pub open_there : ℕ → List ℕ → ℕ → Fs → Outcome (Option ℕ × Fs)
open_there cwd path omode fs = do
  (found, fs1) ← namei cwd path fs
  elim found [
    | none ↦ done (none, fs1)
    | some ip ↦ do
      fs2 ← ilock ip fs1
      if not ((fs2.inode ip).type == t_dir && not (omode == 0))
          then done (some ip, fs2)
          else (do fs3 ← iunlockput ip fs2; done (none, fs3))
  ]

-- `f->type = …` to `f->writable = …`; a negative major is one from 32768 on.
abbrev pub opened : ℕ → ℕ → Fs → File → File
opened omode ip fs f =
    let device = (fs.inode ip).type == t_device in
    record f {
      type = if device then fd_device else fd_inode;
      major = if device then (fs.inode ip).major else f.major;
      off = if device then f.off else 0;
      ip = ip;
      readable = not (wants_write omode);
      writable = wants_write omode || wants_both omode;
    }

-- `iunlockput(ip); end_op(); return -1;`
unfoldable pub fail_open : ℕ → Files → Fs → Outcome (ℤ × Files × Fs)
fail_open ip s fs = do fs1 ← iunlockput ip fs; done (negsuc 0, s, end_op fs1)

-- sys_open with descriptor `fd` for file `f`.
unfoldable pub finish_open : ℕ → ℕ → ℕ → ℕ → Files → Fs → Outcome (ℤ × Files × Fs)
finish_open omode ip f fd s fs = do
  fs1 ← if wants_trunc omode && (fs.inode ip).type == t_file then itrunc ip fs else done fs
  fs2 ← iunlock ip fs1
  done (pos fd, set_file f (opened omode ip fs (s.file f)) s, end_op fs2)

-- `fileclose(f)` of a file that got no descriptor, and the failure.
unfoldable pub drop_open : ℕ → ℕ → Files → Fs → Outcome (ℤ × Files × Fs)
drop_open ip f s fs = do
  (ff, s1) ← drop_file f s
  fs1 ← elim ff [ none ↦ done fs | some old ↦ close_inode old fs ]
  fail_open ip s1 fs1

-- `(f = filealloc()) == 0 || (fd = fdalloc(f)) < 0` and what follows.
unfoldable pub open_inode : ℕ → ℕ → Files → Fs → Outcome (ℤ × Files × Fs)
open_inode omode ip s fs =
    let (file, s1) = filealloc s in
    elim file [
      | none ↦ fail_open ip s1 fs
      | some f ↦
          let (fd, s2) = fdalloc f s1 in
          elim fd [ none ↦ drop_open ip f s2 fs | some n ↦ finish_open omode ip f n s2 fs ]
    ]

-- sys_open from its begin_op() on: the descriptor, or -1.
unfoldable pub sys_open : ℕ → List ℕ → ℕ → Files → Fs → Outcome (ℤ × Files × Fs)
sys_open cwd path omode s fs = do
  (found, fs1) ←
      if wants_create omode
      then create cwd path t_file 0 0 (begin_op fs)
      else open_there cwd path omode (begin_op fs)
  elim found [
    | none ↦ done (negsuc 0, s, end_op fs1)
    | some ip ↦
        if (fs1.inode ip).type == t_device && leb ndev (fs1.inode ip).major
        then fail_open ip s fs1
        else open_inode omode ip s fs1
  ]
