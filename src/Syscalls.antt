-- ===== src/Syscalls.antt =====
-- initial-xv6/src/kernel/syscall.c: the arguments of system calls that lie in user memory, and the dispatch.
-- Sysproc has argraw, argint and argaddr.
use cpu_scheduling_algos.Prelude.{
  ℕ, ◌+◌, ◌-◌, ◌*◌, ◌%◌, ◌^◌, ◌≤◌, ◌<◌, ◌≡◌, ltb, leb, if◌then◌else◌, ◌&&◌, ◌||◌, Option, none,
  some, List, [], ◌∷◌, Bool-cases, inl, inr, arith, Outcome, done, ◌>>=◌,
}
use cpu_scheduling_algos.Prelude.Int.{ℤ, pos, negsuc}
use cpu_scheduling_algos.Kalloc.{Memory}
use cpu_scheduling_algos.Paging.{set_word}
use cpu_scheduling_algos.Paging.Copy.{copyin, copyinstr}
use cpu_scheduling_algos.Proc.Frame
use cpu_scheduling_algos.Proc.{Kernel}
use cpu_scheduling_algos.Trap.{page_of}
use cpu_scheduling_algos.Sysproc.{argraw, int_of}

-- The little-endian word of some bytes.
abbrev pub word_of : List ℕ → ℕ
word_of [] = 0
word_of (b ∷ bs) = b + 256 * word_of bs

-- fetchaddr(addr, ip): the word, none for -1. `addr + sizeof(uint64)` is 64-bit.
unfoldable pub fetchaddr : ℕ → ℕ → ℕ → Memory → Option ℕ
fetchaddr table sz addr m =
    if leb sz addr || ltb sz ((addr + 8) % 2 ^ 64)
    then none
    else elim (copyin table addr 8 m) [ none ↦ none | some bytes ↦ some (word_of bytes) ]

-- fetchstr(addr, buf, max): the characters in `buf` before its zero, none for -1. The C result is their
-- number.
unfoldable pub fetchstr : ℕ → ℕ → ℕ → Memory → Option (List ℕ)
fetchstr table addr max m = copyinstr table addr max m

-- argstr(n, buf, max)
unfoldable pub argstr : ℕ → ℕ → ℕ → Kernel → Outcome (Option (List ℕ))
argstr n max p k = do
  addr ← argraw n p k
  table ← page_of (k.procs p).pagetable
  done (fetchstr table addr max k.memory)

-- An `int` result in the 64-bit register a0.
abbrev pub register_of : ℤ → ℕ
register_of (pos n) = n % 2 ^ 64
register_of (negsuc n) = (2 ^ 64 - 1 - n % 2 ^ 64)

-- The word of register a7, and NELEM(syscalls): the numbers from 1 to 26 all have a handler.
abbrev pub a7 : ℕ
a7 = 21

abbrev pub ncalls : ℕ
ncalls = 27

-- `p->trapframe->a0 = r`
abbrev pub set_a0 : ℕ → ℤ → Kernel → Kernel
set_a0 frame r k = record k { memory = set_word frame Frame.a0 (register_of r) k.memory }

-- `num > 0 && num < NELEM(syscalls)` for the int in a7: the number of the handler.
abbrev pub call_number : ℤ → Option ℕ
call_number (negsuc n) = none
call_number (pos n) = if ltb 0 n && ltb n ncalls then some n else none

-- syscall() of process `p`, with the table of the handlers. The message about an unknown number is not
-- modelled.
unfoldable pub syscall : (ℕ → ℕ → Kernel → Outcome (ℤ × Kernel)) → ℕ → Kernel → Outcome Kernel
syscall handlers p k = do
  frame ← page_of (k.procs p).trapframe
  elim (call_number (int_of (k.memory.words frame a7))) [
    | none ↦ done (set_a0 frame (negsuc 0) k)
    | some n ↦ do (r, k') ← handlers n p k; done (set_a0 frame r k')
  ]

-- fetchaddr reads no word that is not wholly below the process's size, not even where the end of the word
-- is above the largest address.
pub fetchaddr-some :
    (table sz addr w : ℕ) (m : Memory)
    → sz < 2 ^ 63
    → addr < 2 ^ 64
    → fetchaddr table sz addr m ≡ some w
    → addr + 8 ≤ sz
unfolding fetchaddr
fetchaddr-some table sz addr w m small word run =
    elim (Bool-cases (leb sz addr || ltb sz ((addr + 8) % 2 ^ 64))) [
      | inl t ↦ absurd (ground arith)
      | inr f ↦ ground arith
    ]
