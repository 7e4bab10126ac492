-- ===== src/Exec/Image.antt =====
-- exec() of initial-xv6/src/kernel/exec.c: the user stack, and the new image of the process.
use cpu_scheduling_algos.Prelude.{
  ℕ, zero, suc, ◌+◌, ◌-◌, ◌*◌, ◌/◌, ◌%◌, ◌^◌, ◌==◌, ltb, if◌then◌else◌, Bool, not, Option, none,
  some, List, [], ◌∷◌, ◌++◌, length, Outcome, done, ◌>>=◌,
}
use cpu_scheduling_algos.Prelude.Int.{ℤ, pos, negsuc}
use cpu_scheduling_algos.Kalloc.{Memory, page_size}
use cpu_scheduling_algos.Vm.{Vm}
use cpu_scheduling_algos.Proc.{Proc, Kernel, set_proc}
use cpu_scheduling_algos.Proc.Frame
use cpu_scheduling_algos.Lifecycle.{proc_pagetable, proc_freepagetable, free_pagetable}
use cpu_scheduling_algos.Paging.{round_up, set_word}
use cpu_scheduling_algos.Paging.Copy.{take}
use cpu_scheduling_algos.Paging.User.{uvmclear}
use cpu_scheduling_algos.Fs.{Fs}
use cpu_scheduling_algos.Fs.Inodes.{ilock}
use cpu_scheduling_algos.Fs.Content.{iunlockput}
use cpu_scheduling_algos.Fs.Creation.{begin_op, end_op}
use cpu_scheduling_algos.Fs.Paths.{namei, slash}
use cpu_scheduling_algos.Exec.{
  ElfHdr, elfhdr_of, elf_magic, elfhdr_size, maxarg, read_struct, load_segments,
}

-- `sp -= n; sp -= sp % 16; if(sp < stackbase) goto bad;`, in 64 bits.
unfoldable pub room : ℕ → ℕ → ℕ → Option ℕ
room base n sp =
    let below = (sp + 2 ^ 64 - n) % 2 ^ 64 in
    let aligned = below - below % 16 in if ltb aligned base then none else some aligned

-- The 8 bytes of a pointer, and those of an array of them.
abbrev pub bytes_of : ℕ → ℕ → List ℕ
bytes_of zero x = []
bytes_of (suc n) x = x % 256 ∷ bytes_of n (x / 256)

abbrev pub words_of : List ℕ → List ℕ
words_of [] = []
words_of (x ∷ xs) = bytes_of 8 x ++ words_of xs

-- `ustack[argc] = sp` in front of the pointers to come.
abbrev pub push : ℕ → Option (List ℕ × ℕ) × Memory → Option (List ℕ × ℕ) × Memory
push sp (none, m) = (none, m)
push sp (some (ustack, last), m) = (some (sp ∷ ustack, last), m)

-- What exec calls of vm.c and proc.c beyond the interface Vm: copyout(pagetable, va, bytes) and uvmalloc with
-- its permissions.
module _ (copyout : ℕ → ℕ → List ℕ → Memory → Bool × Memory) where
  -- The loop that pushes the argument strings from number `argc` on: their addresses and `sp`, none for
  -- `goto bad`.
  unfoldable pub push_args : ℕ → ℕ → List (List ℕ) → ℕ → ℕ → Memory → Option (List ℕ × ℕ) × Memory
  unfolding room
  push_args table base [] argc sp m = (some ([], sp), m)
  push_args table base (s ∷ ss) argc sp m = elim (room base (length s + 1) sp) [
    | none ↦ (none, m)
    | some sp' ↦
        let (copied, m') = copyout table sp' (s ++ 0 ∷ []) m in
        let rest = push sp' (push_args table base ss (argc + 1) sp' m') in
        if not (ltb argc maxarg) then (none, m) else if copied then rest else (none, m')
  ]

  -- `push the array of argv[] pointers`: `sp` at the end.
  unfoldable pub push_array : ℕ → ℕ → Option (List ℕ × ℕ) × Memory → Option ℕ × Memory
  unfolding room
  push_array table base (none, m) = (none, m)
  push_array table base (some (ustack, sp), m) = elim (room base ((length ustack + 1) * 8) sp) [
    | none ↦ (none, m)
    | some sp' ↦
        let (copied, m') = copyout table sp' (words_of (ustack ++ 0 ∷ [])) m in
        (if copied then some sp' else none, m')
  ]

  module _ (uvmalloc : ℕ → ℕ → ℕ → ℕ → Memory → Outcome (ℕ × Memory)) where
    -- The stack of the new image behind its segments: `sp`, none for `goto bad`, and `sz`.
    unfoldable pub build_stack : ℕ → List (List ℕ) → ℕ → Memory → Outcome (Option ℕ × ℕ × Memory)
    unfolding push_args push_array
    build_stack table args sz m = do
      (sz1, m1) ← uvmalloc table (round_up sz) (round_up sz + 2 * page_size) 4 m
      if sz1 == 0 then done (none, round_up sz, m1) else (do
        m2 ← uvmclear table (sz1 - 2 * page_size) m1
        let base = sz1 - page_size
        let (sp, m3) = push_array table base (push_args table base args 0 sz1 m2)
        done (sp, sz1, m3))

-- `last`, the part of the path behind its last slash.
unfoldable pub last_part : List ℕ → List ℕ → List ℕ
last_part last [] = last
last_part last (c ∷ cs) = last_part (if c == slash then cs else last) cs

-- `p` with the new image; safestrcpy leaves 15 characters of the name.
unfoldable pub new_image : List ℕ → ℕ → ℕ → Proc → Proc
unfolding last_part
new_image path table sz p = record p {
  name = take 15 (last_part path path);
  pagetable = some table;
  sz = sz;
  syscall_count = λ i. if ltb i 32 then 0 else p.syscall_count i;
}

-- The words a1, epc and sp of the trapframe.
abbrev pub new_frame : ℕ → ℕ → ℕ → Memory → Memory
new_frame frame entry sp m =
    set_word frame Frame.sp sp (set_word frame Frame.epc entry (set_word frame 15 sp m))

-- The return of -1 with the lock of the file, and its transaction, still held: `bad` with `ip` set.
unfoldable pub refuse : ℕ → Fs → Kernel → Outcome (ℤ × Fs × Kernel)
refuse ip fs k = do fs1 ← iunlockput ip fs; done (negsuc 0, end_op fs1, k)

module _ (vm : Vm) (uvmalloc : ℕ → ℕ → ℕ → ℕ → Memory → Outcome (ℕ × Memory))
    (copyout : ℕ → ℕ → List ℕ → Memory → Bool × Memory) where
  -- From `Save program name` on: the process has the new image, and the old one is freed.
  unfoldable pub commit_image :
      ℕ → ℕ → List ℕ → ℕ → ℕ → ℕ → ℕ → ℕ → Memory → Fs → Kernel → Outcome (ℤ × Fs × Kernel)
  unfolding new_image
  commit_image p frame path argc entry table sz sp m fs k = do
    m1 ← free_pagetable vm (k.procs p).pagetable (k.procs p).sz (new_frame frame entry sp m)
    done (pos argc, fs, set_proc p (new_image path table sz (k.procs p)) (record k { memory = m1 }))

  -- From the first iunlockput on, with the segments loaded.
  unfoldable pub finish_exec :
      ℕ
      → ℕ
      → List ℕ
      → List (List ℕ)
      → ℕ
      → ℕ
      → ℕ
      → ℕ
      → Memory
      → Fs
      → Kernel
      → Outcome (ℤ × Fs × Kernel)
  unfolding commit_image build_stack
  finish_exec p frame path args entry table ip sz m fs k = do
    fs1 ← iunlockput ip fs
    (sp, sz', m1) ← build_stack copyout uvmalloc table args sz m
    elim sp [
      | none ↦ do
        m2 ← proc_freepagetable vm table sz' m1
        done (negsuc 0, end_op fs1, record k { memory = m2 })
      | some s ↦ commit_image p frame path (length args) entry table sz' s m1 (end_op fs1) k
    ]

  -- From proc_pagetable on.
  unfoldable pub load_image :
      ℕ → ℕ → List ℕ → List (List ℕ) → ElfHdr → ℕ → Fs → Kernel → Outcome (ℤ × Fs × Kernel)
  unfolding finish_exec refuse
  load_image p frame path args elf ip fs k = do
    (created, m) ← proc_pagetable vm frame k.memory
    elim created [
      | none ↦ refuse ip fs (record k { memory = m })
      | some table ↦ do
        (loaded, sz, fs', m') ←
            load_segments uvmalloc elf.phnum (elf.phoff % 2 ^ 32) table ip 0 fs m
        if loaded then finish_exec p frame path args elf.entry table ip sz m' fs' k else (do
          m'' ← proc_freepagetable vm table sz m'
          refuse ip fs' (record k { memory = m'' }))
    ]

  -- exec(path, argv) for the process `p`, whose trapframe is the page `frame` and whose directory is `cwd`.
  unfoldable pub exec : ℕ → ℕ → ℕ → List ℕ → List (List ℕ) → Fs → Kernel → Outcome (ℤ × Fs × Kernel)
  unfolding load_image
  exec p frame cwd path args fs k = do
    (found, fs1) ← namei cwd path (begin_op fs)
    elim found [
      | none ↦ done (negsuc 0, end_op fs1, k)
      | some ip ↦ do
        fs2 ← ilock ip fs1
        (header, fs3) ← read_struct ip 0 elfhdr_size fs2
        elim header [
          | none ↦ refuse ip fs3 k
          | some bytes ↦
              if (elfhdr_of bytes).magic == elf_magic
              then load_image p frame path args (elfhdr_of bytes) ip fs3 k
              else refuse ip fs3 k
        ]
    ]
