-- ===== src/Sysproc/Calls.antt =====
-- The calls of initial-xv6/src/kernel/sysproc.c that end a process, wait, sleep, or change its size.
use cpu_scheduling_algos.Prelude.{
  ℕ, ◌%◌, ◌/◌, ◌^◌, if◌then◌else◌, Option, none, some, List, [], ◌∷◌, Outcome, done, ◌>>=◌,
}
use cpu_scheduling_algos.Prelude.Int.{ℤ, pos, negsuc}
use cpu_scheduling_algos.Vm.{Vm}
use cpu_scheduling_algos.Proc.{Kernel}
use cpu_scheduling_algos.Trap.{page_of}
use cpu_scheduling_algos.Waiting.{exit, Round, returns, sleeps, wait_round, waitx_round}
use cpu_scheduling_algos.Sysproc.{count_call, argint, argraw, growproc, sleep_round}
use cpu_scheduling_algos.Sysproc.Number

-- sys_exit, which does not return.
unfoldable pub sys_exit : (ℕ → Kernel → Kernel) → ℕ → Kernel → Outcome Kernel
sys_exit close_files p k = do
  let counted = count_call Number.exit p k
  status ← argint 0 p counted
  exit close_files status p counted

-- sys_wait up to its first sleep.
unfoldable pub sys_wait : Vm → ℕ → Kernel → Outcome Round
sys_wait vm p k = do
  let counted = count_call Number.wait p k
  addr ← argraw 0 p counted
  wait_round vm addr p counted

-- The old size, or -1.
abbrev pub grown : ℕ → ℤ × Kernel → ℤ × Kernel
grown size (pos _, k) = (pos size, k)
grown size (negsuc _, k) = (negsuc 0, k)

unfoldable pub sys_sbrk : Vm → ℕ → Kernel → Outcome (ℤ × Kernel)
sys_sbrk vm p k = do
  let counted = count_call Number.sbrk p k
  n ← argint 0 p counted
  r ← growproc vm n p counted
  done (grown (counted.procs p).sz r)

-- sys_sleep up to its first sleep: the time at which it began, and what sleep_round says. The argument
-- is compared as an unsigned int.
unfoldable pub sys_sleep : ℕ → Kernel → Outcome (ℕ × (Option ℤ × Kernel))
sys_sleep p k = do
  let counted = count_call Number.sleep p k
  n ← argraw 0 p counted
  done (counted.ticks, sleep_round counted.ticks (n % 2 ^ 32) p counted)

-- The two copies of sys_waitx behind waitx: the times as 4 bytes each, at two addresses. Times that
-- waitx has not set are what the stack held, `junk`.
abbrev pub word_bytes : ℕ → List ℕ
word_bytes w = w % 256 ∷ w / 256 % 256 ∷ w / 65536 % 256 ∷ w / 16777216 % 256 ∷ []

unfoldable pub copy_times : Vm → ℕ → ℕ → ℕ → ℕ × ℕ → ℤ → Kernel → ℤ × Kernel
copy_times vm table addr1 addr2 (wtime, rtime) ret k =
    let (fine1, m1) = vm.copyout table addr1 (word_bytes wtime) k.memory in
    let (fine2, m2) = vm.copyout table addr2 (word_bytes rtime) m1 in
    if fine1
    then ((if fine2 then ret else negsuc 0), record k { memory = m2 })
    else (negsuc 0, record k { memory = m1 })

abbrev pub times_or : ℕ × ℕ → Option (ℕ × ℕ) → ℕ × ℕ
times_or junk none = junk
times_or junk (some times) = times

unfoldable pub end_waitx : Vm → ℕ → ℕ → ℕ → ℕ × ℕ → Round → Outcome Round
unfolding copy_times
end_waitx vm p addr1 addr2 times (sleeps k) = done (sleeps k)
end_waitx vm p addr1 addr2 times (returns ret k) = do
  table ← page_of (k.procs p).pagetable
  let (value, k') = copy_times vm table addr1 addr2 times ret k
  done (returns value k')

-- sys_waitx up to its first sleep.
unfoldable pub sys_waitx : Vm → ℕ × ℕ → ℕ → Kernel → Outcome Round
unfolding end_waitx
sys_waitx vm junk p k = do
  let counted = count_call Number.waitx p k
  addr ← argraw 0 p counted
  addr1 ← argraw 1 p counted
  addr2 ← argraw 2 p counted
  (times, round) ← waitx_round vm addr p counted
  end_waitx vm p addr1 addr2 (times_or junk times) round
