-- ===== src/Locks.antt =====
-- initial-xv6/src/kernel/spinlock.c and sleeplock.c: interrupts off and on, spin locks, sleep locks.
pub mod Interrupts
pub mod Exclusion
use cpu_scheduling_algos.Prelude.{
  ℕ, ◌+◌, ◌-◌, ◌==◌, ltb, if◌then◌else◌, Bool, true, false, not, ◌&&◌, ◌||◌, Option, none, some,
  Outcome, done, panic,
}
use cpu_scheduling_algos.Proc.{Proc, Kernel, Chan, other_chan, is_running}
use cpu_scheduling_algos.Waiting.{wakeup, fall_asleep}

-- The fields of `struct cpu` that push_off and pop_off use, and whether interrupts are on.
pub record Cpu : Type 0 where
  pub noff : ℕ
  pub intena : Bool
  pub intr : Bool

unfoldable pub push_off : Cpu → Cpu
push_off c = record {
  noff = c.noff + 1;
  intena = if c.noff == 0 then c.intr else c.intena;
  intr = false;
}

unfoldable pub pop_off : Cpu → Outcome Cpu
pop_off c =
    if c.intr || ltb c.noff 1
    then panic
    else done (record c { noff = c.noff - 1; intr = c.noff - 1 == 0 && c.intena })

-- `struct spinlock`: `holder` is the field `cpu`.
pub record Spinlock : Type 0 where
  pub locked : Bool
  pub holder : Option ℕ

abbrev pub initlock : Spinlock
initlock = record { locked = false; holder = none }

abbrev pub same_cpu : Option ℕ → ℕ → Bool
same_cpu none id = false
same_cpu (some i) id = i == id

-- holding(lk) on the CPU `id`.
unfoldable pub holding : Spinlock → ℕ → Bool
holding lk id = lk.locked && same_cpu lk.holder id

-- acquire(lk) up to its first swap: the lock taken, or none where the CPU goes on spinning.
unfoldable pub acquire : ℕ → Spinlock → Cpu → Outcome (Option Spinlock × Cpu)
unfolding push_off holding
acquire id lk c =
    if holding lk id
    then panic
    else done
        (if lk.locked then none else some (record { locked = true; holder = some id }), push_off c)

unfoldable pub release : ℕ → Spinlock → Cpu → Outcome (Spinlock × Cpu)
unfolding pop_off holding
release id lk c =
    if holding lk id
    then (elim (pop_off c) [ done c' ↦ done (initlock, c') | panic ↦ panic ])
    else panic

-- sched() of proc.c by process `p` on the CPU `id`, with its four checks. `swtch` is what the machine
-- does until the process runs again, on the CPU that it returns.
unfoldable pub sched :
    (Cpu → Kernel → Cpu × Kernel) → ℕ → Spinlock → Cpu → ℕ → Kernel → Outcome (Cpu × Kernel)
unfolding holding
sched swtch id lk c p k =
    let (c', k') = swtch c k in
    if not (holding lk id) || not (c.noff == 1) || is_running (k.procs p).state || c.intr
    then panic
    else done (record c' { intena = c.intena }, k')

-- `struct sleeplock` without its spin lock; `addr` tells its address from those of other objects.
pub record Sleeplock : Type 0 where
  pub addr : ℕ
  pub is_locked : Bool
  pub owner : ℕ

abbrev pub initsleeplock : ℕ → Sleeplock
initsleeplock addr = record { addr = addr; is_locked = false; owner = 0 }

-- One turn of acquiresleep(lk) by process `p`: it takes the lock, or it falls asleep on it.
unfoldable pub acquiresleep : ℕ → Sleeplock → Kernel → Option Sleeplock × Kernel
acquiresleep p lk k =
    if lk.is_locked
    then (none, fall_asleep p (other_chan lk.addr) k)
    else (some (record lk { is_locked = true; owner = (k.procs p).pid }), k)

unfoldable pub releasesleep : ℕ → Sleeplock → Kernel → Sleeplock × Kernel
releasesleep p lk k =
    (record lk { is_locked = false; owner = 0 }, wakeup (some p) (other_chan lk.addr) k)

unfoldable pub holdingsleep : ℕ → Sleeplock → Kernel → Bool
holdingsleep p lk k = lk.is_locked && lk.owner == (k.procs p).pid
