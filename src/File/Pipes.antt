-- ===== src/File/Pipes.antt =====
-- pipealloc in initial-xv6/src/kernel/pipe.c, and sys_pipe of sysfile.c. A pipe lies in the page that kalloc() gives for it.
use cpu_scheduling_algos.Prelude.{
  ℕ, ◌+◌, ◌%◌, ◌^◌, if◌then◌else◌, Bool, true, false, not, Option, none, some, List, [], ◌∷◌,
  Outcome, done, ◌>>=◌,
}
use cpu_scheduling_algos.Prelude.Int.{ℤ, pos, negsuc}
use cpu_scheduling_algos.Kalloc.{Memory, kalloc}
use cpu_scheduling_algos.Pipe.{Pipe}
use cpu_scheduling_algos.File.{
  File, Files, fd_pipe, set_file, set_ofile, filealloc, fdalloc, drop_file,
}

-- `if(f) fileclose(f);` of a file that has no type yet.
unfoldable pub drop_if : Option ℕ → Files → Outcome (Option File × Files)
drop_if none s = done (none, s)
drop_if (some f) s = drop_file f s

-- `bad:` of pipealloc, with no pipe. The files that are closed have the type FD_NONE, so closing them ends
-- with the table.
unfoldable pub undo_pipe :
    Option ℕ → Option ℕ → Files → Memory → Outcome (Option (ℕ × ℕ × ℕ) × Files × Memory)
undo_pipe f0 f1 s m = do (ff0, s1) ← drop_if f0 s; (ff1, s2) ← drop_if f1 s1; done (none, s2, m)

-- The end `writable` of the pipe in page `pi`.
abbrev pub pipe_end : Bool → ℕ → File → File
pipe_end writable pi f = record f {
  type = fd_pipe;
  readable = not writable;
  writable = writable;
  pipe = pi;
}

-- A new pipe, whose buffer holds what is in the page.
abbrev pub new_pipe : ℕ → (ℕ → ℕ) → Pipe
new_pipe pi buffer = record {
  addr = pi;
  buffer = buffer;
  nread = 0;
  nwrite = 0;
  readopen = true;
  writeopen = true;
}

-- pipealloc with both files: the files and the page of the pipe.
unfoldable pub alloc_pipe : ℕ → ℕ → Files → Memory → Outcome (Option (ℕ × ℕ × ℕ) × Files × Memory)
alloc_pipe f0 f1 s m =
    let (page, m') = kalloc m in
    elim page [
      | none ↦ undo_pipe (some f0) (some f1) s m'
      | some pi ↦
          let s1 = set_file f0 (pipe_end false pi (s.file f0)) s in
          done (some (f0, f1, pi), set_file f1 (pipe_end true pi (s1.file f1)) s1, m')
    ]

-- pipealloc(f0, f1)
unfoldable pub pipealloc : Files → Memory → Outcome (Option (ℕ × ℕ × ℕ) × Files × Memory)
pipealloc s m =
    let (f0, s1) = filealloc s in
    elim f0 [
      | none ↦ undo_pipe none none s1 m
      | some a ↦
          let (f1, s2) = filealloc s1 in
          elim f1 [ none ↦ undo_pipe (some a) none s2 m | some b ↦ alloc_pipe a b s2 m ]
    ]

-- fileclose of both ends, behind the descriptors that go: the result -1, and what is left to close. Pipe has
-- pipeclose().
unfoldable pub close_ends :
    ℕ → ℕ → Files → Memory → Outcome (ℤ × List (Option File) × Files × Memory)
close_ends rf wf s m = do
  (ff0, s1) ← drop_file rf s
  (ff1, s2) ← drop_file wf s1
  done (negsuc 0, ff0 ∷ ff1 ∷ [], s2, m)

-- The bytes of an `int` that is a descriptor.
abbrev pub int_bytes : ℕ → List ℕ
int_bytes fd = fd ∷ 0 ∷ 0 ∷ 0 ∷ []

module _ (copyout : ℕ → ℕ → List ℕ → Memory → Bool × Memory) where
  -- The copies of both descriptors to the array `fdarray` of the user.
  unfoldable pub give_fds :
      ℕ → ℕ → ℕ → ℕ → ℕ → ℕ → Files → Memory → Outcome (ℤ × List (Option File) × Files × Memory)
  unfolding close_ends
  give_fds table fdarray a b rf wf s m =
      let (first, m1) = copyout table fdarray (int_bytes a) m in
      let (second, m2) = copyout table ((fdarray + 4) % 2 ^ 64) (int_bytes b) m1 in
      let without = set_ofile b none (set_ofile a none s) in
      if not first
      then close_ends rf wf without m1
      else if second
      then done (pos 0, [], s, m2)
      else close_ends rf wf without m2

  -- sys_pipe for the array at `fdarray`, behind its counter.
  unfoldable pub sys_pipe :
      ℕ → ℕ → Files → Memory → Outcome (ℤ × List (Option File) × Files × Memory)
  unfolding pipealloc fdalloc give_fds
  sys_pipe table fdarray s m = do
    (made, s1, m1) ← pipealloc s m
    elim made [
      | none ↦ done (negsuc 0, [], s1, m1)
      | some (rf, wf, pi) ↦
          let (fd0, s2) = fdalloc rf s1 in
          elim fd0 [
            | none ↦ close_ends rf wf s2 m1
            | some a ↦
                let (fd1, s3) = fdalloc wf s2 in
                elim fd1 [
                  | none ↦ close_ends rf wf (set_ofile a none s3) m1
                  | some b ↦ give_fds table fdarray a b rf wf s3 m1
                ]
          ]
    ]
