-- ===== src/Exec.antt =====
-- initial-xv6/src/kernel/exec.c: loading a program. A transaction of the log is what begin_op and end_op of
-- Fs.Creation say, and the argument strings are lists without their NUL.
pub mod Image
pub mod Call
pub mod Stack
pub mod Name
pub mod Refusal
use cpu_scheduling_algos.Prelude.{
  ℕ, zero, suc, ◌+◌, ◌-◌, ◌*◌, ◌/◌, ◌%◌, ◌^◌, ◌==◌, ltb, if◌then◌else◌, Bool, true, false, not,
  ◌||◌, Option, none, some, List, [], ◌∷◌, ◌++◌, length, get_or, Outcome, done, panic, ◌>>=◌,
}
use cpu_scheduling_algos.Kalloc.{Memory, page_size}
use cpu_scheduling_algos.Vm.{Vm}
use cpu_scheduling_algos.Proc.{Proc, Kernel, set_proc}
use cpu_scheduling_algos.Proc.Frame
use cpu_scheduling_algos.Lifecycle.{proc_pagetable, proc_freepagetable}
use cpu_scheduling_algos.Paging.{round_up, walkaddr, set_word}
use cpu_scheduling_algos.Paging.Copy.{set_bytes}
use cpu_scheduling_algos.Fs.{Fs}
use cpu_scheduling_algos.Fs.Inodes.{ilock}
use cpu_scheduling_algos.Fs.Content.{readi, iunlockput}
use cpu_scheduling_algos.Fs.Creation.{begin_op, end_op}
use cpu_scheduling_algos.Fs.Paths.{namei, slash}

-- flags2perm(flags): PTE_X is 8, and PTE_W is 4.
unfoldable pub flags2perm : ℕ → ℕ
flags2perm flags = (if flags % 2 == 1 then 8 else 0) + (if flags / 2 % 2 == 1 then 4 else 0)

-- `n` bytes from `off` on as a little-endian number.
abbrev pub number : ℕ → ℕ → List ℕ → ℕ
number off zero bytes = 0
number off (suc n) bytes = get_or bytes off 0 % 256 + number (off + 1) n bytes * 256

-- The fields of `struct elfhdr` that exec reads.
pub record ElfHdr : Type 0 where
  pub magic : ℕ
  pub entry : ℕ
  pub phoff : ℕ
  pub phnum : ℕ

abbrev pub elfhdr_of : List ℕ → ElfHdr
elfhdr_of bytes = record {
  magic = number 0 4 bytes;
  entry = number 24 8 bytes;
  phoff = number 32 8 bytes;
  phnum = number 56 2 bytes;
}

-- The fields of `struct proghdr` that exec reads.
pub record ProgHdr : Type 0 where
  pub type : ℕ
  pub flags : ℕ
  pub off : ℕ
  pub vaddr : ℕ
  pub filesz : ℕ
  pub memsz : ℕ

abbrev pub proghdr_of : List ℕ → ProgHdr
proghdr_of bytes = record {
  type = number 0 4 bytes;
  flags = number 4 4 bytes;
  off = number 8 8 bytes;
  vaddr = number 16 8 bytes;
  filesz = number 32 8 bytes;
  memsz = number 40 8 bytes;
}

-- ELF_MAGIC, sizeof(struct elfhdr), sizeof(struct proghdr), MAXARG
abbrev pub elf_magic : ℕ
elf_magic = 1179403647

abbrev pub elfhdr_size : ℕ
elfhdr_size = 64

abbrev pub proghdr_size : ℕ
proghdr_size = 56

abbrev pub maxarg : ℕ
maxarg = 32

-- `readi(ip, 0, &x, off, sizeof(x)) != sizeof(x)`, for none: the bytes of `x`.
unfoldable pub read_struct : ℕ → ℕ → ℕ → Fs → Outcome (Option (List ℕ) × Fs)
unfolding readi
read_struct ip off size fs = do
  (r, fs', bytes) ← readi (λ dst some_bytes w. (true, w ++ some_bytes)) ip 0 off size fs []
  done (if r == size then some bytes else none, fs')

-- The loop of loadseg, at `i`: whether the segment is in place. uvmalloc has found pages for its `sz` bytes, so
-- `i` does not wrap around.
unfoldable pub load_pages : ℕ → ℕ → ℕ → ℕ → ℕ → ℕ → ℕ → Fs → Memory → Outcome (Bool × Fs × Memory)
unfolding walkaddr readi
load_pages zero i table va ip offset sz fs m = done (true, fs, m)
load_pages (suc fuel) i table va ip offset sz fs m =
    let n = if ltb (sz - i) page_size then sz - i else page_size in
    if not (ltb i sz) then done (true, fs, m) else elim (walkaddr table (va + i) m) [
      | none ↦ panic
      | some pa ↦ do
        (r, fs', m') ←
            readi (λ dst bytes w. (true, set_bytes pa (dst - pa) bytes w)) ip pa
              ((offset + i) % 2 ^ 32) n fs m
        if not (r == n)
            then done (false, fs', m')
            else load_pages fuel (i + page_size) table va ip offset sz fs' m'
    ]

-- loadseg(pagetable, va, ip, offset, sz), whose last two arguments are cut to 32 bits.
unfoldable pub loadseg : ℕ → ℕ → ℕ → ℕ → ℕ → Fs → Memory → Outcome (Bool × Fs × Memory)
unfolding load_pages
loadseg table va ip offset sz fs m =
    let size = sz % 2 ^ 32 in
    load_pages ((size + (page_size - 1)) / page_size) 0 table va ip (offset % 2 ^ 32) size fs m

-- A program header that exec refuses.
abbrev pub bad_segment : ProgHdr → Bool
bad_segment ph =
    ltb ph.memsz ph.filesz
    || ltb ((ph.vaddr + ph.memsz) % 2 ^ 64) ph.vaddr
    || not (ph.vaddr % page_size == 0)

module _ (uvmalloc : ℕ → ℕ → ℕ → ℕ → Memory → Outcome (ℕ × Memory)) where
  -- `if((sz1 = uvmalloc(…)) == 0) goto bad; sz = sz1; if(loadseg(…) < 0) goto bad;`: whether to go on, and `sz`.
  unfoldable pub load_segment : ProgHdr → ℕ → ℕ → ℕ → Fs → Memory → Outcome (Bool × ℕ × Fs × Memory)
  unfolding loadseg
  load_segment ph table ip sz fs m = do
    (sz1, m1) ← uvmalloc table sz (ph.vaddr + ph.memsz) (flags2perm ph.flags) m
    if sz1 == 0 then done (false, sz, fs, m1) else (do
      (loaded, fs', m2) ← loadseg table ph.vaddr ip ph.off ph.filesz fs m1
      done (loaded, sz1, fs', m2))

  -- The loop over the program headers with `n` of them left, the next one at `off`.
  unfoldable pub load_segments : ℕ → ℕ → ℕ → ℕ → ℕ → Fs → Memory → Outcome (Bool × ℕ × Fs × Memory)
  unfolding read_struct load_segment
  load_segments zero off table ip sz fs m = done (true, sz, fs, m)
  load_segments (suc n) off table ip sz fs m = do
    (bytes, fs') ← read_struct ip off proghdr_size fs
    elim bytes [
      | none ↦ done (false, sz, fs', m)
      | some b ↦
          let ph = proghdr_of b in
          if not (ph.type == 1)
          then load_segments n ((off + proghdr_size) % 2 ^ 32) table ip sz fs' m
          else if bad_segment ph
          then done (false, sz, fs', m)
          else (do
            (loaded, sz', fs'', m') ← load_segment ph table ip sz fs' m
            if loaded
                then load_segments n ((off + proghdr_size) % 2 ^ 32) table ip sz' fs'' m'
                else done (false, sz', fs'', m'))
    ]
