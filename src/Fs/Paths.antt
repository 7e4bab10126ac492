-- ===== src/Fs/Paths.antt =====
-- Path names in initial-xv6/src/kernel/fs.c. A path is the list of its characters before the zero, and a
-- name is the list of the characters that skipelem() stores, the zero at its end left out.
use cpu_scheduling_algos.Prelude.{
  ℕ, zero, suc, ◌+◌, ◌==◌, if◌then◌else◌, Bool, true, false, not, ◌&&◌, Option, none, some, List,
  [], ◌∷◌, length, Outcome, done, ◌>>=◌,
}
use cpu_scheduling_algos.Paging.Copy.{take}
use cpu_scheduling_algos.Fs.{Fs}
use cpu_scheduling_algos.Fs.Inodes.{iget, idup, ilock, iunlock}
use cpu_scheduling_algos.Fs.Content.{iput, iunlockput}
use cpu_scheduling_algos.Fs.Directories.{dirsiz, t_dir, from_list, dirlookup}

-- '/'
abbrev pub slash : ℕ
slash = 47

-- `while(*path == '/') path++;`
abbrev pub skip_slashes : List ℕ → List ℕ
skip_slashes [] = []
skip_slashes (c ∷ cs) = if c == slash then skip_slashes cs else c ∷ cs

-- `while(*path != '/' && *path != 0) path++;`: the characters that it passes and those left.
abbrev pub until_slash : List ℕ → List ℕ × List ℕ
until_slash [] = ([], [])
until_slash (c ∷ cs) =
    let (element, rest) = until_slash cs in if c == slash then ([], c ∷ cs) else (c ∷ element, rest)

-- skipelem(path, name): the path after the element and the name, or none for 0.
unfoldable pub skipelem : List ℕ → Option (List ℕ × List ℕ)
skipelem path =
    let (element, rest) = until_slash (skip_slashes path) in
    elim (skip_slashes path) [ [] ↦ none | c ∷ cs ↦ some (skip_slashes rest, take dirsiz element) ]

abbrev pub is_end : List ℕ → Bool
is_end [] = true
is_end (c ∷ cs) = false

abbrev pub rootdev : ℕ
rootdev = 1

abbrev pub rootino : ℕ
rootino = 1

-- The loop of namex at inode `ip`, with the name of the last element.
unfoldable pub walk_path : ℕ → Bool → List ℕ → List ℕ → ℕ → Fs → Outcome (Option (ℕ × List ℕ) × Fs)
unfolding skipelem
walk_path zero parent path name ip fs = done (none, fs)
walk_path (suc n) parent path name ip fs = elim (skipelem path) [
  | none ↦ if not parent then done (some (ip, name), fs) else do fs1 ← iput ip fs; done (none, fs1)
  | some (rest, element) ↦ do
    fs1 ← ilock ip fs
    if not ((fs1.inode ip).type == t_dir)
        then (do fs2 ← iunlockput ip fs1; done (none, fs2))
        else if parent && is_end rest
        then (do fs2 ← iunlock ip fs1; done (some (ip, element), fs2))
        else (do
          (found, fs2) ← dirlookup ip (from_list element) fs1
          fs3 ← iunlockput ip fs2
          elim found [
            | none ↦ done (none, fs3)
            | some (next, off) ↦ walk_path n parent rest element next fs3
          ])
]

abbrev pub is_absolute : List ℕ → Bool
is_absolute [] = false
is_absolute (c ∷ cs) = c == slash

-- namex(path, nameiparent, name) with the calling process's directory `cwd`.
unfoldable pub namex : ℕ → List ℕ → Bool → Fs → Outcome (Option (ℕ × List ℕ) × Fs)
namex cwd path parent fs = do
  (ip, fs') ← if is_absolute path then iget rootdev rootino fs else done (cwd, idup cwd fs)
  walk_path (length path + 1) parent path [] ip fs'

-- namei(path) and nameiparent(path, name)
unfoldable pub namei : ℕ → List ℕ → Fs → Outcome (Option ℕ × Fs)
namei cwd path fs = do
  (found, fs') ← namex cwd path false fs
  elim found [ none ↦ done (none, fs') | some (ip, name) ↦ done (some ip, fs') ]

unfoldable pub nameiparent : ℕ → List ℕ → Fs → Outcome (Option (ℕ × List ℕ) × Fs)
nameiparent cwd path fs = namex cwd path true fs
