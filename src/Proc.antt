-- ===== src/Proc.antt =====
-- initial-xv6/src/kernel/proc.h and the globals of proc.c and trap.c: the process table, the
-- multi-level queue, and what the handlers share. A pointer to `proc[i]` is the index `i`, and a
-- null pointer is `none`. `int` fields that only count up from 0 are natural numbers (their
-- overflow is undefined in C); `int` fields that a user sets are integers; `uint` fields wrap.
pub mod Frame
use cpu_scheduling_algos.Prelude.{
  ℕ, ◌+◌, ◌%◌, ◌^◌, Bool, true, false, Option, none, some, ◌==◌, if◌then◌else◌, update, List,
}
use cpu_scheduling_algos.Prelude.Int.{ℤ}
use cpu_scheduling_algos.Kalloc.{Memory}

-- param.h.
abbrev pub nproc : ℕ
nproc = 64

abbrev pub nofile : ℕ
nofile = 16

-- `uint` arithmetic.
abbrev pub wrap32 : ℕ → ℕ
wrap32 n = n % 2 ^ 32

pub data ProcState : Type 0 where
  unused used sleeping runnable running zombie : ProcState

abbrev pub is_unused : ProcState → Bool
is_unused unused = true
is_unused _ = false

abbrev pub is_sleeping : ProcState → Bool
is_sleeping sleeping = true
is_sleeping _ = false

abbrev pub is_runnable : ProcState → Bool
is_runnable runnable = true
is_runnable _ = false

abbrev pub is_running : ProcState → Bool
is_running running = true
is_running _ = false

abbrev pub is_zombie : ProcState → Bool
is_zombie zombie = true
is_zombie _ = false

-- The addresses that the kernel sleeps on: null, a process, `&ticks`, or some other object.
pub data Chan : Type 0 where
  no_chan ticks_chan : Chan
  proc_chan other_chan : ℕ → Chan

abbrev pub chan_eqb : Chan → Chan → Bool
chan_eqb no_chan no_chan = true
chan_eqb ticks_chan ticks_chan = true
chan_eqb (proc_chan i) (proc_chan j) = i == j
chan_eqb (other_chan i) (other_chan j) = i == j
chan_eqb _ _ = false

-- Saved registers for kernel context switches; `saved` holds s0 to s11.
pub record Context : Type 0 where
  pub ra : ℕ
  pub sp : ℕ
  pub saved : ℕ → ℕ

-- `struct proc`, without the lock and the fields that no code reads (time_slice, remainingtime,
-- last_scheduled).
pub record Proc : Type 0 where
  pub syscall_count : ℕ → ℕ
  pub state : ProcState
  pub chan : Chan
  pub killed : ℕ
  pub xstate : ℤ
  pub pid : ℕ
  pub parent : Option ℕ
  pub kstack : ℕ
  pub sz : ℕ
  pub pagetable : Option ℕ
  pub trapframe : Option ℕ
  pub context : Context
  pub ofile : ℕ → Option ℕ
  pub cwd : Option ℕ
  pub name : List ℕ
  pub rtime : ℕ
  pub ctime : ℕ
  pub etime : ℕ
  pub handler : ℕ
  pub ticks : ℤ
  pub cur_ticks : ℕ
  pub alarm_tf : Option ℕ
  pub alarm_on : ℕ
  pub in_alarm_handler : ℕ
  pub tickets : ℤ
  pub arrival_time : ℕ
  pub queue_number : ℕ
  pub queueticks : ℕ

-- The kernel's globals. `multique[q][i]` and `sizeofq[q]` are the multi-level queue of proc.c;
-- `file_ref` and `inode_ref` are the reference counts of open files and in-memory inodes.
pub record Kernel : Type 0 where
  pub procs : ℕ → Proc
  pub multique : ℕ → ℕ → Option ℕ
  pub sizeofq : ℕ → ℕ
  pub nextpid : ℕ
  pub initproc : Option ℕ
  pub ticks : ℕ
  pub seed : ℕ
  pub memory : Memory
  pub file_ref : ℕ → ℕ
  pub inode_ref : ℕ → ℕ

-- `proc[i] = p`.
abbrev pub set_proc : ℕ → Proc → Kernel → Kernel
set_proc i p k = record k { procs = update k.procs i p }

-- p->state = s
abbrev pub set_state : ℕ → ProcState → Kernel → Kernel
set_state i s k = set_proc i (record (k.procs i) { state = s }) k

abbrev pub timesliceq : ℕ → ℕ
timesliceq q = if q == 0 then 1 else if q == 1 then 4 else if q == 2 then 8 else 16
