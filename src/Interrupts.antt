-- ===== src/Interrupts.antt =====
-- Traps in initial-xv6/src/kernel/trap.c: usertrap, usertrapret, kerneltrap, clockintr and devintr.
pub mod Clock
pub mod Causes
use Prim.Native.Nat.{bit_and}
use cpu_scheduling_algos.Prelude.{
  ℕ, ◌+◌, ◌*◌, ◌%◌, ◌^◌, ◌==◌, leb, if◌then◌else◌, Bool, true, false, not, ◌&&◌, ◌||◌, Option, none,
  some, update, Outcome, done, panic, ◌>>=◌,
}
use cpu_scheduling_algos.Prelude.Int.{ℤ, pos, negsuc}
use cpu_scheduling_algos.Kalloc.{page_size}
use cpu_scheduling_algos.Proc.Frame
use cpu_scheduling_algos.Proc.{Proc, Kernel, running, is_running, ticks_chan, wrap32}
use cpu_scheduling_algos.Waiting.{wakeup, update_time, is_killed, setkilled, exit}
use cpu_scheduling_algos.Trap.{page_of, alarm_tick, mlfq_tick, yield_cpu}

-- clockintr(); `me` is the process that runs on this CPU, if any.
unfoldable pub clockintr : Option ℕ → Kernel → Kernel
clockintr me k = wakeup me ticks_chan (update_time (record k { ticks = wrap32 (k.ticks + 1) }))

-- What devintr asks of plic.c, uart.c and virtio_disk.c.
pub record Devices : Type 0 where
  pub claim : ℕ
  pub uartintr : Kernel → Kernel
  pub virtio_disk_intr : Kernel → Kernel

-- `(scause & 0x8000000000000000L) && (scause & 0xff) == 9`
abbrev pub is_external : ℕ → Bool
is_external scause = leb (2 ^ 63) (scause % 2 ^ 64) && scause % 256 == 9

-- The handler of a device's interrupt: UART0_IRQ is 10 and VIRTIO0_IRQ is 1.
abbrev pub serve : Devices → Kernel → Kernel
serve d k = if d.claim == 10 then d.uartintr k else if d.claim == 1 then d.virtio_disk_intr k else k

-- devintr() on CPU `cpu`: 2 for the timer, 1 for another device, 0 for no interrupt that it knows.
unfoldable pub devintr : Devices → ℕ → Option ℕ → ℕ → Kernel → ℕ × Kernel
unfolding clockintr
devintr d cpu me scause k =
    if is_external scause
    then (1, serve d k)
    else if scause == 2 ^ 63 + 1
    then (2, if cpu == 0 then clockintr me k else k)
    else (0, k)

-- The registers that a trap handler reads; `from_user` is that sstatus has SPP clear.
pub record Csrs : Type 0 where
  pub sepc : ℕ
  pub scause : ℕ
  pub from_user : Bool
  pub intr_on : Bool

-- Where a handler ends: it comes back, or the process has exited.
pub data After : Type 0 where
  resumes exits : Kernel → After

-- `p->trapframe->epc = …`
abbrev pub set_epc : ℕ → ℕ → Kernel → Kernel
set_epc frame epc k = record k {
  memory = record k.memory {
    words = update k.memory.words frame (update (k.memory.words frame) Frame.epc epc);
  };
}

-- `syscall` is the call that the process makes (syscall.c), `close_files` what exit does to files,
-- and `sched p` what the machine does from the call of sched() until it returns. `mlfq` is the build
-- option.
module _ (d : Devices) (syscall : ℕ → Kernel → Outcome After) (close_files : ℕ → Kernel → Kernel)
    (sched : ℕ → Kernel → Kernel) (mlfq : Bool) where
  -- `exit(-1)`
  unfoldable pub exit_killed : ℕ → Kernel → Outcome After
  exit_killed p k = do gone ← exit close_files (negsuc 0) p k; done (exits gone)

  -- The block under `which_dev == 2`.
  unfoldable pub timer_tick : ℕ → Kernel → Outcome After
  timer_tick p k = do
    alarmed ← alarm_tick p k
    done (resumes (if mlfq then mlfq_tick sched p alarmed else yield_cpu sched p alarmed))

  -- usertrap behind the cause: a killed process exits.
  unfoldable pub finish_trap : ℕ → ℕ → Kernel → Outcome After
  unfolding exit_killed timer_tick
  finish_trap which p k =
      if is_killed k p
      then exit_killed p k
      else if which == 2
      then timer_tick p k
      else done (resumes k)

  -- usertrap behind a system call, which may not come back.
  unfoldable pub after_call : ℕ → After → Outcome After
  unfolding finish_trap
  after_call p (resumes k) = finish_trap 0 p k
  after_call p (exits k) = done (exits k)

  -- `r_scause() == 8`; the program counter moves behind the ecall, in 64 bits.
  unfoldable pub call_trap : ℕ → ℕ → Kernel → Outcome After
  unfolding after_call exit_killed
  call_trap frame p k =
      if is_killed k p
      then exit_killed p k
      else (syscall p (set_epc frame ((k.memory.words frame Frame.epc + 4) % 2 ^ 64) k)
          >>= after_call p)

  -- The causes that are no system call: an unexpected one marks the process as killed.
  unfoldable pub device_trap : ℕ → ℕ → ℕ → Kernel → Outcome After
  unfolding devintr finish_trap
  device_trap cpu scause p k =
      let (which, served) = devintr d cpu (some p) scause k in
      finish_trap which p (if which == 0 then setkilled p served else served)

  -- usertrap with the trapframe page of the process.
  unfoldable pub user_trap : ℕ → Csrs → ℕ → Kernel → ℕ → Outcome After
  unfolding call_trap device_trap
  user_trap cpu csrs p k frame =
      let saved = set_epc frame csrs.sepc k in
      if csrs.scause == 8 then call_trap frame p saved else device_trap cpu csrs.scause p saved

  -- usertrap() on CPU `cpu` up to its call of usertrapret().
  unfoldable pub usertrap : ℕ → Csrs → ℕ → Kernel → Outcome After
  unfolding user_trap
  usertrap cpu csrs p k =
      if csrs.from_user then page_of (k.procs p).trapframe >>= user_trap cpu csrs p k else panic

  -- kerneltrap() on CPU `cpu`, where process `p` runs, or none.
  unfoldable pub kerneltrap : ℕ → Csrs → Option ℕ → Kernel → Outcome Kernel
  unfolding devintr
  kerneltrap cpu csrs me k =
      let (which, served) = devintr d cpu me csrs.scause k in
      if csrs.from_user || csrs.intr_on || which == 0
      then panic
      else done (elim me [
        | none ↦ served
        | some p ↦
            if which == 2 && is_running (served.procs p).state
            then yield_cpu sched p served
            else served
      ])

-- usertrapret() up to its jump: the trapframe's words for the next trap, and the program counter at
-- which the process continues. `satp`, `usertrap_at` and `hartid` are the kernel's page table, the
-- handler's address and the CPU.
unfoldable pub usertrapret : ℕ → ℕ → ℕ → ℕ → Kernel → Outcome (ℕ × Kernel)
usertrapret satp usertrap_at hartid p k = do
  frame ← page_of (k.procs p).trapframe
  let w1 = update (k.memory.words frame) Frame.kernel_satp satp
  let w2 = update w1 Frame.kernel_sp ((k.procs p).kstack + page_size)
  let w3 = update w2 Frame.kernel_trap usertrap_at
  let w4 = update w3 Frame.kernel_hartid hartid
  done (
    w4 Frame.epc,
    record k { memory = record k.memory { words = update k.memory.words frame w4 } },
  )
