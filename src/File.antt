-- ===== src/File.antt =====
-- Open files in initial-xv6/src/kernel/file.c, and the file descriptors of sysfile.c: argfd, fdalloc,
-- sys_dup and sys_close. The calls count themselves as those of Sysproc do. `ftable.lock` makes each
-- operation on the table one step.
pub mod Open
pub mod Pipes
pub mod Transfer
pub mod Calls
pub mod Counts
pub mod Descriptors
use cpu_scheduling_algos.Prelude.{
  ℕ, zero, suc, ◌+◌, ◌-◌, ◌==◌, ltb, leb, if◌then◌else◌, Bool, true, false, not, ◌&&◌, Option, none,
  some, update, find_from, Outcome, done, panic, ◌>>=◌,
}
use cpu_scheduling_algos.Prelude.Int.{ℤ, pos, negsuc}
use cpu_scheduling_algos.Proc.{nofile}
use cpu_scheduling_algos.Fs.{Fs}
use cpu_scheduling_algos.Fs.Content.{iput}
use cpu_scheduling_algos.Fs.Creation.{begin_op, end_op}

pub data FileType : Type 0 where
  fd_none fd_pipe fd_inode fd_device : FileType

-- `struct file`
pub record File : Type 0 where
  pub type : FileType
  pub ref : ℕ
  pub readable : Bool
  pub writable : Bool
  pub pipe : ℕ
  pub ip : ℕ
  pub off : ℕ
  pub major : ℕ

abbrev pub nfile : ℕ
nfile = 100

-- The table of open files, and the calling process's descriptors `p->ofile`.
pub record Files : Type 0 where
  pub file : ℕ → File
  pub ofile : ℕ → Option ℕ

abbrev pub set_file : ℕ → File → Files → Files
set_file f content s = record s { file = update s.file f content }

abbrev pub set_ofile : ℕ → Option ℕ → Files → Files
set_ofile fd f s = record s { ofile = update s.ofile fd f }

abbrev pub set_ref : ℕ → ℕ → Files → Files
set_ref f n s = set_file f (record (s.file f) { ref = n }) s

-- filealloc()
unfoldable pub filealloc : Files → Option ℕ × Files
unfolding find_from
filealloc s = elim (find_from (λ f. (s.file f).ref == 0) nfile 0) [
  | none ↦ (none, s)
  | some f ↦ (some f, set_ref f 1 s)
]

-- filedup(f)
unfoldable pub filedup : ℕ → Files → Outcome Files
filedup f s = if ltb (s.file f).ref 1 then panic else done (set_ref f ((s.file f).ref + 1) s)

-- fileclose(f) up to `release(&ftable.lock)`: the file `ff` to close if that was the last reference.
unfoldable pub drop_file : ℕ → Files → Outcome (Option File × Files)
drop_file f s =
    let ff = s.file f in
    let left = ff.ref - 1 in
    if ltb ff.ref 1
    then panic
    else if ltb 0 left
    then done (none, set_ref f left s)
    else done
        (some (record ff { ref = left }), set_file f (record ff { ref = 0; type = fd_none }) s)

-- The end of fileclose for a file that is not a pipe: Pipe has pipeclose().
unfoldable pub close_inode : File → Fs → Outcome Fs
close_inode ff fs = elim ff.type [
  | fd_none ↦ done fs
  | fd_pipe ↦ done fs
  | fd_inode ↦ do fs' ← iput ff.ip (begin_op fs); done (end_op fs')
  | fd_device ↦ do fs' ← iput ff.ip (begin_op fs); done (end_op fs')
]

-- argfd: the descriptor `fd` of the process and its file.
unfoldable pub argfd : ℤ → Files → Option (ℕ × ℕ)
argfd (negsuc n) s = none
argfd (pos fd) s =
    if leb nofile fd then none else elim (s.ofile fd) [ none ↦ none | some f ↦ some (fd, f) ]

abbrev pub is_free : Files → ℕ → Bool
is_free s fd = elim (s.ofile fd) [ none ↦ true | some f ↦ false ]

-- fdalloc(f)
unfoldable pub fdalloc : ℕ → Files → Option ℕ × Files
unfolding find_from
fdalloc f s = elim (find_from (is_free s) nofile 0) [
  | none ↦ (none, s)
  | some fd ↦ (some fd, set_ofile fd (some f) s)
]

-- `if((fd=fdalloc(f)) < 0) return -1; filedup(f); return fd;` with what fdalloc() returns.
abbrev pub count_dup : ℕ → Option ℕ × Files → Outcome (ℤ × Files)
count_dup f (none, s) = done (negsuc 0, s)
count_dup f (some n, s) = do s' ← filedup f s; done (pos n, s')

-- The file of sys_dup's argument gets a second descriptor.
unfoldable pub dup_file : ℕ → Files → Outcome (ℤ × Files)
dup_file f s = count_dup f (fdalloc f s)

-- sys_dup of descriptor `fd`.
unfoldable pub sys_dup : ℤ → Files → Outcome (ℤ × Files)
sys_dup fd s = elim (argfd fd s) [ none ↦ done (negsuc 0, s) | some (n, f) ↦ dup_file f s ]

-- sys_close of descriptor `fd`, with the file that is left to close.
unfoldable pub sys_close : ℤ → Files → Outcome (ℤ × Option File × Files)
sys_close fd s = elim (argfd fd s) [
  | none ↦ done (negsuc 0, none, s)
  | some (n, f) ↦ do (ff, s') ← drop_file f (set_ofile n none s); done (pos 0, ff, s')
]
