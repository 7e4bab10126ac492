-- ===== src/Sysproc.antt =====
-- The system calls of initial-xv6/src/kernel/sysproc.c, with argint and argaddr of syscall.c: the
-- n-th argument is the register a<n> of the caller's trapframe.
pub mod Number
pub mod Alarm
pub mod Counts
pub mod Calls
use Prim.Native.Nat.{bit_and}
use cpu_scheduling_algos.Prelude.{
  ℕ, zero, suc, ◌+◌, ◌-◌, ◌*◌, ◌%◌, ◌^◌, ◌==◌, ltb, leb, if◌then◌else◌, Bool, true, false, not,
  Option, none, some, List, update, find_from, Outcome, done, panic, ◌>>=◌,
}
use cpu_scheduling_algos.Prelude.Int.{ℤ, pos, negsuc}
use cpu_scheduling_algos.Kalloc.{Memory, kfree}
use cpu_scheduling_algos.Vm.{Vm}
use cpu_scheduling_algos.Proc.Frame
use cpu_scheduling_algos.Proc.{Proc, Kernel, ticks_chan, set_proc, wrap32}
use cpu_scheduling_algos.Lifecycle.{fork}
use cpu_scheduling_algos.Trap.{copy_words, page_of}
use cpu_scheduling_algos.Waiting.{kill, is_killed, fall_asleep}

-- `myproc()->syscall_count[n]++;`
unfoldable pub count_call : ℕ → ℕ → Kernel → Kernel
count_call n p k =
    set_proc p
      (record (k.procs p) {
        syscall_count = update (k.procs p).syscall_count n ((k.procs p).syscall_count n + 1);
      })
      k

-- argraw(n): the word of a0 + n in the trapframe. Other numbers than 0 to 5 are a panic.
unfoldable pub argraw : ℕ → ℕ → Kernel → Outcome ℕ
argraw n p k = do
  frame ← page_of (k.procs p).trapframe
  if ltb n 6 then done (k.memory.words frame (Frame.a0 + n)) else panic

-- argint: the low 32 bits, as an `int`.
abbrev pub int_of : ℕ → ℤ
int_of raw = let w = raw % 2 ^ 32 in if ltb w (2 ^ 31) then pos w else negsuc (2 ^ 32 - 1 - w)

unfoldable pub argint : ℕ → ℕ → Kernel → Outcome ℤ
unfolding argraw
argint n p k = do raw ← argraw n p k; done (int_of raw)

unfoldable pub sys_getpid : ℕ → Kernel → ℤ × Kernel
unfolding count_call
sys_getpid p k = (pos (k.procs p).pid, count_call Number.getpid p k)

unfoldable pub sys_uptime : ℕ → Kernel → ℤ × Kernel
unfolding count_call
sys_uptime p k = (pos k.ticks, count_call Number.uptime p k)

unfoldable pub sys_fork : Vm → ℕ → Kernel → Outcome (ℤ × Kernel)
unfolding count_call
sys_fork vm p k = fork vm p (count_call Number.fork p k)

unfoldable pub sys_kill : ℕ → Kernel → Outcome (ℤ × Kernel)
unfolding count_call argint
sys_kill p k = do
  let counted = count_call Number.kill p k
  pid ← argint 0 p counted
  done (kill pid counted)

-- The loop over the bits of the mask: `mask & (1 << i)`, on the 32 bits of the int.
abbrev pub bit_set : ℕ → ℕ → Bool
bit_set mask i = not (bit_and mask (2 ^ i) == 0)

unfoldable pub syscall_index : ℕ → Option ℕ
unfolding find_from
syscall_index mask = find_from (bit_set mask) 32 0

unfoldable pub sys_get_sys_count : ℕ → Kernel → Outcome (ℤ × Kernel)
unfolding count_call argraw
sys_get_sys_count p k = do
  let counted = count_call Number.get_sys_count p k
  raw ← argraw 0 p counted
  done (elim (syscall_index (raw % 2 ^ 32)) [
    | none ↦ (negsuc 0, counted)
    | some i ↦ (pos ((counted.procs p).syscall_count i), counted)
  ])

unfoldable pub sys_sigalarm : ℕ → Kernel → Outcome (ℤ × Kernel)
unfolding count_call argint argraw
sys_sigalarm p k = do
  let counted = count_call Number.sigalarm p k
  ticks ← argint 0 p counted
  handler ← argraw 1 p counted
  done (pos 0, set_proc p (record (counted.procs p) { ticks = ticks; handler = handler }) counted)

-- The resets of sys_sigreturn, with the memory after its kfree.
unfoldable pub end_alarm : ℕ → Memory → Kernel → Kernel
end_alarm p m k =
    set_proc p
      (record (k.procs p) { alarm_tf = none; alarm_on = 0; cur_ticks = 0; in_alarm_handler = 0 })
      (record k { memory = m })

-- sys_sigreturn up to its call of usertrapret(), which does not return. PGSIZE is 512 words.
unfoldable pub sys_sigreturn : Vm → ℕ → Kernel → Outcome Kernel
unfolding count_call end_alarm
sys_sigreturn vm p k = do
  let counted = count_call Number.sigreturn p k
  frame ← page_of (counted.procs p).trapframe
  saved ← page_of (counted.procs p).alarm_tf
  m ← kfree vm.kernel_end saved (copy_words 512 frame saved counted.memory)
  done (end_alarm p m counted)

unfoldable pub sys_settickets : ℕ → Kernel → Outcome (ℤ × Kernel)
unfolding count_call argint
sys_settickets p k = do
  let counted = count_call Number.settickets p k
  n ← argint 0 p counted
  done (pos 0, set_proc p (record (counted.procs p) { tickets = n }) counted)

-- One turn of the loop of sys_sleep, which began at `ticks0` with the argument `n`: `ticks - ticks0`
-- is unsigned, and so is the comparison. The value returned, or none for a sleep on `&ticks`.
unfoldable pub sleep_round : ℕ → ℕ → ℕ → Kernel → Option ℤ × Kernel
sleep_round ticks0 n p k =
    let waited = (k.ticks + 2 ^ 32 - ticks0) % 2 ^ 32 in
    if leb n waited
    then (some (pos 0), k)
    else if is_killed k p
    then (some (negsuc 0), k)
    else (none, fall_asleep p ticks_chan k)

-- `p->sz = sz`.
abbrev pub resize : ℕ → ℕ → Memory → Kernel → ℤ × Kernel
resize p size m k = (pos 0, set_proc p (record (k.procs p) { sz = size }) (record k { memory = m }))

-- growproc(n) of proc.c, by the sign of n; a null page table stops the machine.
unfoldable pub growproc : Vm → ℤ → ℕ → Kernel → Outcome (ℤ × Kernel)
growproc vm (pos zero) p k = done (resize p (k.procs p).sz k.memory k)
growproc vm (pos (suc d)) p k = do
  table ← page_of (k.procs p).pagetable
  (size, m) ← vm.uvmalloc table (k.procs p).sz (((k.procs p).sz + suc d) % 2 ^ 64) k.memory
  done (if size == 0 then (negsuc 0, record k { memory = m }) else resize p size m k)
growproc vm (negsuc d) p k = do
  table ← page_of (k.procs p).pagetable
  (size, m) ←
      vm.uvmdealloc table (k.procs p).sz (((k.procs p).sz + 2 ^ 64 - suc d) % 2 ^ 64) k.memory
  done (resize p size m k)
