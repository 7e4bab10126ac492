-- ===== src/Fs/Creation.antt =====
-- create, sys_mkdir and sys_mknod in initial-xv6/src/kernel/sysfile.c, with isdirempty. argstr() gives a
-- path or fails; the calls count themselves as those of Sysproc do.
use cpu_scheduling_algos.Prelude.{
  ℕ, zero, suc, ◌+◌, ◌-◌, ◌*◌, ◌%◌, ◌==◌, ltb, if◌then◌else◌, Bool, true, false, not, ◌&&◌, ◌||◌,
  Option, none, some, List, [], ◌∷◌, Outcome, done, ◌>>=◌,
}
use cpu_scheduling_algos.Prelude.Int.{pos, int_eqb}
use cpu_scheduling_algos.Fs.{Fs}
use cpu_scheduling_algos.Fs.Inodes.{set_inode, ialloc, iupdate, ilock}
use cpu_scheduling_algos.Fs.Content.{iunlockput}
use cpu_scheduling_algos.Fs.Directories.{
  dirent_size, t_dir, from_list, namecmp, read_entry, entry_inum, entries_of, dirlookup, dirlink,
}
use cpu_scheduling_algos.Fs.Paths.{nameiparent}

-- T_FILE and T_DEVICE
abbrev pub t_file : ℕ
t_file = 2

abbrev pub t_device : ℕ
t_device = 3

-- begin_op() and end_op() as the file system sees them: Log has what they do.
abbrev pub begin_op : Fs → Fs
begin_op fs = record fs { outstanding = fs.outstanding + 1 }

abbrev pub end_op : Fs → Fs
end_op fs = record fs { outstanding = fs.outstanding - 1 }

-- `ip->nlink++` and `ip->nlink--` of a `short`, each with iupdate(ip).
abbrev pub set_nlink : ℕ → ℕ → Fs → Fs
set_nlink i n fs = iupdate i (set_inode i (record (fs.inode i) { nlink = n % 65536 }) fs)

abbrev pub add_link : ℕ → Fs → Fs
add_link i fs = set_nlink i ((fs.inode i).nlink + 1) fs

abbrev pub drop_link : ℕ → Fs → Fs
drop_link i fs = set_nlink i ((fs.inode i).nlink + 65535) fs

-- "." and ".."
abbrev pub dot_name : ℕ → ℕ
dot_name = from_list (46 ∷ [])

abbrev pub dots_name : ℕ → ℕ
dots_name = from_list (46 ∷ 46 ∷ [])

abbrev pub same_name : (ℕ → ℕ) → (ℕ → ℕ) → Bool
same_name s t = int_eqb (namecmp s t) (pos 0)

-- The loop of isdirempty from `off` on.
unfoldable pub is_empty_from : ℕ → ℕ → ℕ → Fs → Outcome (Bool × Fs)
is_empty_from zero dp off fs = done (true, fs)
is_empty_from (suc n) dp off fs = if not (ltb off (fs.inode dp).size) then done (true, fs) else do
  (bytes, fs') ← read_entry dp off fs
  if entry_inum bytes == 0 then is_empty_from n dp (off + dirent_size) fs' else done (false, fs')

-- isdirempty(dp)
unfoldable pub is_dir_empty : ℕ → Fs → Outcome (Bool × Fs)
is_dir_empty dp fs = is_empty_from (entries_of dp fs) dp (2 * dirent_size) fs

-- The entries of a new directory: `dirlink(ip, ".", ip->inum) < 0 || dirlink(ip, "..", dp->inum) < 0`.
unfoldable pub link_dots : ℕ → ℕ → Fs → Outcome (Bool × Fs)
link_dots ip dp fs = do
  (one, fs1) ← dirlink ip dot_name (fs.inode ip).inum fs
  if one then dirlink ip dots_name (fs1.inode dp).inum fs1 else done (false, fs1)

-- `fail:`
unfoldable pub undo_create : ℕ → ℕ → Fs → Outcome (Option ℕ × Fs)
undo_create ip dp fs = do
  fs1 ← iunlockput ip (set_nlink ip 0 fs)
  fs2 ← iunlockput dp fs1
  done (none, fs2)

-- The end of create from `if(type == T_DIR)` on.
unfoldable pub link_new : ℕ → (ℕ → ℕ) → ℕ → ℕ → Fs → Outcome (Option ℕ × Fs)
link_new type name ip dp fs = do
  (dots, fs1) ← if type == t_dir then link_dots ip dp fs else done (true, fs)
  (linked, fs2) ← if dots then dirlink dp name (fs1.inode ip).inum fs1 else done (false, fs1)
  if not linked then undo_create ip dp fs2 else (do
    fs3 ← iunlockput dp (if type == t_dir then add_link dp fs2 else fs2)
    done (some ip, fs3))

-- create of a name that is there.
unfoldable pub open_existing : ℕ → ℕ → ℕ → Fs → Outcome (Option ℕ × Fs)
open_existing type ip dp fs = do
  fs1 ← iunlockput dp fs
  fs2 ← ilock ip fs1
  let found = (fs2.inode ip).type
  if type == t_file && (found == t_file || found == t_device)
      then done (some ip, fs2)
      else (do fs3 ← iunlockput ip fs2; done (none, fs3))

-- `ip->major = major; ip->minor = minor; ip->nlink = 1; iupdate(ip);`
abbrev pub first_link : ℕ → ℕ → ℕ → Fs → Fs
first_link i major minor fs =
    iupdate i (set_inode i (record (fs.inode i) { major = major; minor = minor; nlink = 1 }) fs)

-- create of a name that is not there.
unfoldable pub create_new : ℕ → ℕ → ℕ → (ℕ → ℕ) → ℕ → Fs → Outcome (Option ℕ × Fs)
create_new type major minor name dp fs = do
  (new, fs1) ← ialloc (fs.inode dp).dev type fs
  elim new [
    | none ↦ do fs2 ← iunlockput dp fs1; done (none, fs2)
    | some ip ↦ do fs2 ← ilock ip fs1; link_new type name ip dp (first_link ip major minor fs2)
  ]

-- create(path, type, major, minor): the locked inode.
unfoldable pub create : ℕ → List ℕ → ℕ → ℕ → ℕ → Fs → Outcome (Option ℕ × Fs)
create cwd path type major minor fs = do
  (parent, fs1) ← nameiparent cwd path fs
  elim parent [
    | none ↦ done (none, fs1)
    | some (dp, name) ↦ do
      fs2 ← ilock dp fs1
      (found, fs3) ← dirlookup dp (from_list name) fs2
      elim found [
        | some (ip, off) ↦ open_existing type ip dp fs3
        | none ↦ create_new type major minor (from_list name) dp fs3
      ]
  ]

-- sys_mkdir and sys_mknod: whether they return 0. `path` is none if argstr() fails.
unfoldable pub make_node : ℕ → Option (List ℕ) → ℕ → ℕ → ℕ → Fs → Outcome (Bool × Fs)
make_node cwd none type major minor fs = done (false, end_op (begin_op fs))
make_node cwd (some path) type major minor fs = do
  (made, fs1) ← create cwd path type (major % 65536) (minor % 65536) (begin_op fs)
  elim made [
    | none ↦ done (false, end_op fs1)
    | some ip ↦ do fs2 ← iunlockput ip fs1; done (true, end_op fs2)
  ]
