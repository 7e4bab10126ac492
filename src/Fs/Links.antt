-- ===== src/Fs/Links.antt =====
-- sys_link, sys_unlink and sys_chdir in initial-xv6/src/kernel/sysfile.c behind argstr(), which gives a
-- path. The calls count themselves as those of Sysproc do.
use cpu_scheduling_algos.Prelude.{
  ℕ, ◌==◌, leb, if◌then◌else◌, Bool, true, false, not, ◌||◌, Option, none, some, List, window,
  Outcome, done, panic, ◌>>=◌,
}
use cpu_scheduling_algos.Fs.{Fs, Inode}
use cpu_scheduling_algos.Fs.Inodes.{ilock, iunlock}
use cpu_scheduling_algos.Fs.Content.{iput, iunlockput, writei}
use cpu_scheduling_algos.Fs.Directories.{dirent_size, t_dir, from_list, dirlookup, dirlink}
use cpu_scheduling_algos.Fs.Paths.{namei, nameiparent}
use cpu_scheduling_algos.Fs.Creation.{
  begin_op, end_op, add_link, drop_link, dot_name, dots_name, same_name, is_dir_empty,
}

-- `bad:` of sys_link
unfoldable pub undo_link : ℕ → Fs → Outcome (Bool × Fs)
undo_link ip fs = do
  fs1 ← ilock ip fs
  fs2 ← iunlockput ip (drop_link ip fs1)
  done (false, end_op fs2)

-- `dp->dev != ip->dev || dirlink(dp, name, ip->inum) < 0` and what follows.
unfoldable pub link_at : ℕ → ℕ → (ℕ → ℕ) → Fs → Outcome (Bool × Fs)
link_at ip dp name fs = do
  fs1 ← ilock dp fs
  (linked, fs2) ←
      if (fs1.inode dp).dev == (fs1.inode ip).dev
      then dirlink dp name (fs1.inode ip).inum fs1
      else done (false, fs1)
  fs3 ← iunlockput dp fs2
  if not linked then undo_link ip fs3 else (do fs4 ← iput ip fs3; done (true, end_op fs4))

-- sys_link from its begin_op() on: whether it returns 0.
unfoldable pub link_paths : ℕ → List ℕ → List ℕ → Fs → Outcome (Bool × Fs)
link_paths cwd old new fs = do
  (found, fs1) ← namei cwd old (begin_op fs)
  elim found [
    | none ↦ done (false, end_op fs1)
    | some ip ↦ do
      fs2 ← ilock ip fs1
      if (fs2.inode ip).type == t_dir
          then (do fs3 ← iunlockput ip fs2; done (false, end_op fs3))
          else (do
            fs3 ← iunlock ip (add_link ip fs2)
            (parent, fs4) ← nameiparent cwd new fs3
            elim parent [
              | none ↦ undo_link ip fs4
              | some (dp, name) ↦ link_at ip dp (from_list name) fs4
            ])
  ]

-- `bad:` of sys_unlink
unfoldable pub give_up_unlink : ℕ → Fs → Outcome (Bool × Fs)
give_up_unlink dp fs = do fs1 ← iunlockput dp fs; done (false, end_op fs1)

-- `memset(&de, 0, sizeof(de));`
abbrev pub no_entry : ℕ → ℕ → Bool × List ℕ
no_entry src m = (true, window (λ i. 0) 0 dirent_size)

-- sys_unlink from the memset() on, for the entry at `off`.
unfoldable pub remove_entry : ℕ → ℕ → ℕ → Fs → Outcome (Bool × Fs)
remove_entry ip dp off fs = do
  (n, fs1) ← writei no_entry dp 0 off dirent_size fs
  if not (n == dirent_size) then panic else (do
    fs2 ← iunlockput dp (if (fs1.inode ip).type == t_dir then drop_link dp fs1 else fs1)
    fs3 ← iunlockput ip (drop_link ip fs2)
    done (true, end_op fs3))

-- `ip->nlink < 1` of a `short`.
abbrev pub no_links : Inode → Bool
no_links ip = ip.nlink == 0 || leb 32768 ip.nlink

-- sys_unlink with the inode of the entry.
unfoldable pub unlink_entry : ℕ → ℕ → ℕ → Fs → Outcome (Bool × Fs)
unlink_entry ip dp off fs = do
  fs1 ← ilock ip fs
  if no_links (fs1.inode ip) then panic else (do
    (empty, fs2) ← if (fs1.inode ip).type == t_dir then is_dir_empty ip fs1 else done (true, fs1)
    if empty
        then remove_entry ip dp off fs2
        else (do fs3 ← iunlockput ip fs2; give_up_unlink dp fs3))

-- sys_unlink from its begin_op() on: whether it returns 0.
unfoldable pub unlink_path : ℕ → List ℕ → Fs → Outcome (Bool × Fs)
unlink_path cwd path fs = do
  (parent, fs1) ← nameiparent cwd path (begin_op fs)
  elim parent [
    | none ↦ done (false, end_op fs1)
    | some (dp, name) ↦ do
      fs2 ← ilock dp fs1
      if same_name (from_list name) dot_name || same_name (from_list name) dots_name
          then give_up_unlink dp fs2
          else (do
            (found, fs3) ← dirlookup dp (from_list name) fs2
            elim found [
              | none ↦ give_up_unlink dp fs3
              | some (ip, off) ↦ unlink_entry ip dp off fs3
            ])
  ]

-- sys_chdir of the process with directory `cwd`: whether it returns 0, and the new directory.
unfoldable pub change_directory : ℕ → Option (List ℕ) → Fs → Outcome (Bool × ℕ × Fs)
change_directory cwd none fs = done (false, cwd, end_op (begin_op fs))
change_directory cwd (some path) fs = do
  (found, fs1) ← namei cwd path (begin_op fs)
  elim found [
    | none ↦ done (false, cwd, end_op fs1)
    | some ip ↦ do
      fs2 ← ilock ip fs1
      if not ((fs2.inode ip).type == t_dir)
          then (do fs3 ← iunlockput ip fs2; done (false, cwd, end_op fs3))
          else (do fs3 ← iunlock ip fs2; fs4 ← iput cwd fs3; done (true, ip, end_op fs4))
  ]
