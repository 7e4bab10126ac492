-- ===== src/File/Calls.antt =====
-- fileread, filewrite and filestat of initial-xv6/src/kernel/file.c for every type of file, and the system calls
-- of sysfile.c around them. The transfers of pipes and devices are parameters: Pipe and Console have them, on
-- states of their own.
use cpu_scheduling_algos.Prelude.{
  ℕ, leb, if◌then◌else◌, Bool, not, Option, none, some, List, Outcome, done, panic, ◌>>=◌,
}
use cpu_scheduling_algos.Prelude.Int.{ℤ, pos, negsuc}
use cpu_scheduling_algos.Fs.{Fs}
use cpu_scheduling_algos.Fs.Content.{Stat}
use cpu_scheduling_algos.File.{File, Files, fd_none, fd_pipe, fd_inode, fd_device, set_file, argfd}
use cpu_scheduling_algos.File.Open.{ndev}
use cpu_scheduling_algos.File.Transfer.{read_inode, write_inode, stat_inode}

-- `addr` and `n` of a transfer to or from the user, on the state `W`.
abbrev pub Move {ℓ} : Type ℓ → Type ℓ
Move W = ℕ → ℕ → W → Outcome (ℤ × W)

-- A result for a file whose offset stays.
abbrev pub still {ℓ} : {W : Type ℓ} → File → Fs → Outcome (ℤ × W) → Outcome (ℤ × File × Fs × W)
still f fs m = m >>= (λ (r, w). done (r, f, fs, w))

-- `devsw[f->major]`, whose null pointers are none.
abbrev pub by_device {ℓ} :
    {W : Type ℓ} → (ℕ → Option (Move W)) → File → ℕ → ℕ → Fs → W → Outcome (ℤ × File × Fs × W)
by_device devsw f addr n fs w = elim (devsw f.major) [
  | none ↦ done (negsuc 0, f, fs, w)
  | some move ↦
      let moved = still f fs (move addr n w) in
      if leb ndev f.major then done (negsuc 0, f, fs, w) else moved
]

module _ {ℓ} {W : Type ℓ} (pipe : ℕ → Move W) (devsw : ℕ → Option (Move W)) where
  unfoldable pub fileread :
      (out : ℕ → List ℕ → W → Bool × W) → File → ℕ → ℕ → Fs → W → Outcome (ℤ × File × Fs × W)
  unfolding read_inode
  fileread out f addr n fs w = if not f.readable then done (negsuc 0, f, fs, w) else (elim f.type [
    | fd_none ↦ panic
    | fd_pipe ↦ still f fs (pipe f.pipe addr n w)
    | fd_inode ↦ read_inode out f addr n fs w
    | fd_device ↦ by_device devsw f addr n fs w
  ])

  unfoldable pub filewrite :
      (inp : ℕ → ℕ → Bool × List ℕ) → File → ℕ → ℕ → Fs → W → Outcome (ℤ × File × Fs × W)
  unfolding write_inode
  filewrite inp f addr n fs w = if not f.writable then done (negsuc 0, f, fs, w) else (elim f.type [
    | fd_none ↦ panic
    | fd_pipe ↦ still f fs (pipe f.pipe addr n w)
    | fd_inode ↦ write_inode inp f addr n fs >>= (λ (r, f', fs'). done (r, f', fs', w))
    | fd_device ↦ by_device devsw f addr n fs w
  ])

  -- sys_read and sys_write for descriptor `fd`, behind their counters.
  unfoldable pub sys_read :
      (out : ℕ → List ℕ → W → Bool × W) → ℤ → ℕ → ℕ → Files → Fs → W → Outcome (ℤ × Files × Fs × W)
  unfolding fileread argfd
  sys_read out fd p n s fs w = elim (argfd fd s) [
    | none ↦ done (negsuc 0, s, fs, w)
    | some (at, f) ↦ do
      (r, f', fs', w') ← fileread out (s.file f) p n fs w
      done (r, set_file f f' s, fs', w')
  ]

  unfoldable pub sys_write :
      (inp : ℕ → ℕ → Bool × List ℕ) → ℤ → ℕ → ℕ → Files → Fs → W → Outcome (ℤ × Files × Fs × W)
  unfolding filewrite argfd
  sys_write inp fd p n s fs w = elim (argfd fd s) [
    | none ↦ done (negsuc 0, s, fs, w)
    | some (at, f) ↦ do
      (r, f', fs', w') ← filewrite inp (s.file f) p n fs w
      done (r, set_file f f' s, fs', w')
  ]

-- filestat: `copy` is the copyout of the result to `addr`.
unfoldable pub filestat {ℓ} :
    {W : Type ℓ} → (copy : ℕ → Stat → W → Bool × W) → File → ℕ → Fs → W → Outcome (ℤ × Fs × W)
unfolding stat_inode
filestat copy f addr fs w =
    let stats = stat_inode f fs >>= (λ (st, fs').
      let (copied, w') = copy addr st w in done (if copied then pos 0 else negsuc 0, fs', w')) in
    elim f.type [
      | fd_none ↦ done (negsuc 0, fs, w)
      | fd_pipe ↦ done (negsuc 0, fs, w)
      | fd_inode ↦ stats
      | fd_device ↦ stats
    ]

unfoldable pub sys_fstat {ℓ} :
    {W : Type ℓ} → (copy : ℕ → Stat → W → Bool × W) → ℤ → ℕ → Files → Fs → W → Outcome (ℤ × Fs × W)
unfolding filestat argfd
sys_fstat copy fd st s fs w = elim (argfd fd s) [
  | none ↦ done (negsuc 0, fs, w)
  | some (at, f) ↦ filestat copy (s.file f) st fs w
]
