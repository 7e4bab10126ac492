-- ===== src/Fs/Directories.antt =====
-- Directories in initial-xv6/src/kernel/fs.c: the entries of a directory are 16 bytes, an inode number and
-- a name of DIRSIZ characters.
use cpu_scheduling_algos.Prelude.{
  ℕ, zero, suc, ◌+◌, ◌-◌, ◌/◌, ◌%◌, ◌==◌, ltb, if◌then◌else◌, Bool, true, false, not, ◌&&◌, Option,
  none, some, List, [], ◌∷◌, ◌++◌, window, Outcome, done, panic, ◌>>=◌,
}
use cpu_scheduling_algos.Prelude.Int.{ℤ, pos, int_eqb}
use cpu_scheduling_algos.Str.{strncmp, strncpy}
use cpu_scheduling_algos.Fs.{Fs}
use cpu_scheduling_algos.Fs.Inodes.{number_at, iget}
use cpu_scheduling_algos.Fs.Content.{readi, writei, iput, store}

abbrev pub dirsiz : ℕ
dirsiz = 14

-- sizeof(struct dirent)
abbrev pub dirent_size : ℕ
dirent_size = 16

-- T_DIR
abbrev pub t_dir : ℕ
t_dir = 1

-- Two names one behind the other.
abbrev pub two_names : (ℕ → ℕ) → (ℕ → ℕ) → ℕ → ℕ
two_names s t i = if ltb i dirsiz then s i else t (i - dirsiz)

-- namecmp(s, t)
unfoldable pub namecmp : (ℕ → ℕ) → (ℕ → ℕ) → ℤ
unfolding strncmp
namecmp s t = strncmp 0 dirsiz dirsiz (two_names s t)

-- `struct dirent` from and to its bytes.
abbrev pub from_list : List ℕ → ℕ → ℕ
from_list xs = store 0 xs (λ i. 0)

abbrev pub entry_inum : List ℕ → ℕ
entry_inum bytes = number_at 2 (from_list bytes) 0

abbrev pub entry_name : List ℕ → ℕ → ℕ
entry_name bytes i = from_list bytes (i + 2)

-- `strncpy(de.name, name, DIRSIZ); de.inum = inum;`
unfoldable pub entry_bytes : (ℕ → ℕ) → ℕ → List ℕ
unfolding strncpy
entry_bytes name inum =
    inum % 256
    ∷ inum / 256 % 256
    ∷ window (strncpy 0 dirsiz dirsiz (two_names (λ i. 0) name)) 0 dirsiz

-- `readi(dp, 0, (uint64)&de, off, sizeof(de)) != sizeof(de)` panics, else the bytes of `de`.
unfoldable pub read_entry : ℕ → ℕ → Fs → Outcome (List ℕ × Fs)
read_entry dp off fs = do
  (n, fs', bytes) ← readi (λ dst xs acc. (true, acc ++ xs)) dp 0 off dirent_size fs []
  if n == dirent_size then done (bytes, fs') else panic

-- The loop of dirlookup from `off` on; it gives the inode that iget() returns and `*poff`.
unfoldable pub lookup_from : ℕ → ℕ → ℕ → (ℕ → ℕ) → Fs → Outcome (Option (ℕ × ℕ) × Fs)
unfolding namecmp iget
lookup_from zero dp off name fs = done (none, fs)
lookup_from (suc n) dp off name fs =
    if not (ltb off (fs.inode dp).size) then done (none, fs) else do
      (bytes, fs1) ← read_entry dp off fs
      let inum = entry_inum bytes
      let here = not (inum == 0) && int_eqb (namecmp name (entry_name bytes)) (pos 0)
      if not here
          then lookup_from n dp (off + dirent_size) name fs1
          else (do (i, fs2) ← iget (fs1.inode dp).dev inum fs1; done (some (i, off), fs2))

-- The entries of a directory, the last one perhaps incomplete.
abbrev pub entries_of : ℕ → Fs → ℕ
entries_of dp fs = (fs.inode dp).size / dirent_size + 1

-- dirlookup(dp, name, poff)
unfoldable pub dirlookup : ℕ → (ℕ → ℕ) → Fs → Outcome (Option (ℕ × ℕ) × Fs)
dirlookup dp name fs =
    if (fs.inode dp).type == t_dir then lookup_from (entries_of dp fs) dp 0 name fs else panic

-- The loop of dirlink: the offset of the first empty entry, or the directory's end.
unfoldable pub empty_from : ℕ → ℕ → ℕ → Fs → Outcome (ℕ × Fs)
empty_from zero dp off fs = done (off, fs)
empty_from (suc n) dp off fs = if not (ltb off (fs.inode dp).size) then done (off, fs) else do
  (bytes, fs') ← read_entry dp off fs
  if entry_inum bytes == 0 then done (off, fs') else empty_from n dp (off + dirent_size) fs'

-- dirlink(dp, name, inum): whether it returns 0.
unfoldable pub dirlink : ℕ → (ℕ → ℕ) → ℕ → Fs → Outcome (Bool × Fs)
dirlink dp name inum fs = do
  (found, fs1) ← dirlookup dp name fs
  elim found [
    | some (i, off) ↦ do fs2 ← iput i fs1; done (false, fs2)
    | none ↦ do
      (off, fs2) ← empty_from (entries_of dp fs1) dp 0 fs1
      (n, fs3) ← writei (λ src m. (true, entry_bytes name inum)) dp 0 off dirent_size fs2
      done (n == dirent_size, fs3)
  ]
