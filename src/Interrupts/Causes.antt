-- ===== src/Interrupts/Causes.antt =====
-- usertrap of trap.c and killed processes.
use cpu_scheduling_algos.Prelude.{
  ℕ, ◌<◌, ◌≡◌, ◌≢◌, ◌==◌, if◌then◌else◌, Bool, true, Bool-cases, inl, inr, arith, Option, some,
  Outcome, done, >>=-eq-done,
}
use cpu_scheduling_algos.Prelude.Int.{negsuc}
use cpu_scheduling_algos.Proc.{Kernel, nproc}
use cpu_scheduling_algos.Waiting.{is_killed, setkilled, exit}
use cpu_scheduling_algos.Trap.{page_of}
use cpu_scheduling_algos.Interrupts.{
  Devices, Csrs, After, resumes, serve, set_epc, clockintr, devintr, exit_killed, finish_trap,
  call_trap, device_trap, user_trap, usertrap,
}
use cpu_scheduling_algos.Interrupts.Clock.{procs-clockintr}

-- The interrupt handlers of the devices leave a killed process killed.
abbrev pub KeepsKilled : Devices → ℕ → Type 0
KeepsKilled d p = (k : Kernel) → is_killed k p ≡ true → is_killed (serve d k) p ≡ true

clockintr-killed :
    (me : Option ℕ) (p : ℕ) (k : Kernel)
    → p < nproc
    → is_killed k p ≡ true
    → is_killed (clockintr me k) p ≡ true
clockintr-killed me p k lt dead = ground (arith, procs-clockintr me p k lt)

devintr-killed :
    (d : Devices) (cpu : ℕ) (me : Option ℕ) (scause p : ℕ) (k : Kernel)
    → KeepsKilled d p
    → p < nproc
    → is_killed k p ≡ true
    → is_killed (devintr d cpu me scause k).1 p ≡ true
unfolding devintr
devintr-killed d cpu me scause p k keeps lt dead =
    ground (arith, keeps k dead, clockintr-killed me p k lt dead)

abbrev marked : ℕ → ℕ → Kernel → Kernel
marked p which k = if which == 0 then setkilled p k else k

marked-killed :
    (p which : ℕ) (k : Kernel) → is_killed k p ≡ true → is_killed (marked p which k) p ≡ true
marked-killed p which k dead = ground arith

module _ (d : Devices) (syscall : ℕ → Kernel → Outcome After) (close_files : ℕ → Kernel → Kernel)
    (sched : ℕ → Kernel → Kernel) (mlfq : Bool) where
  exit_killed-exits :
      (p : ℕ) (k k' : Kernel) → exit_killed d syscall close_files sched mlfq p k ≢ done (resumes k')
  unfolding exit_killed
  exit_killed-exits p k k' h =
      let (gone, e, e') = >>=-eq-done (exit close_files (negsuc 0) p k) _ h in cc e'

  finish_trap-killed :
      (which p : ℕ) (k k' : Kernel)
      → is_killed k p ≡ true
      → finish_trap d syscall close_files sched mlfq which p k ≢ done (resumes k')
  unfolding finish_trap
  finish_trap-killed which p k k' dead h = exit_killed-exits p k k' (ground arith)

  call_trap-killed :
      (frame p : ℕ) (k k' : Kernel)
      → is_killed k p ≡ true
      → call_trap d syscall close_files sched mlfq frame p k ≢ done (resumes k')
  unfolding call_trap
  call_trap-killed frame p k k' dead h = exit_killed-exits p k k' (ground arith)

  device_trap-killed :
      (cpu scause p : ℕ) (k k' : Kernel)
      → KeepsKilled d p
      → p < nproc
      → is_killed k p ≡ true
      → device_trap d syscall close_files sched mlfq cpu scause p k ≢ done (resumes k')
  unfolding device_trap
  device_trap-killed cpu scause p k k' keeps lt dead h =
      finish_trap-killed (devintr d cpu (some p) scause k).0 p
        (marked p (devintr d cpu (some p) scause k).0 (devintr d cpu (some p) scause k).1) k'
        (marked-killed p (devintr d cpu (some p) scause k).0 (devintr d cpu (some p) scause k).1
          (devintr-killed d cpu (some p) scause p k keeps lt dead))
        h

  user_trap-killed :
      (cpu : ℕ) (csrs : Csrs) (p frame : ℕ) (k k' : Kernel)
      → KeepsKilled d p
      → p < nproc
      → is_killed k p ≡ true
      → user_trap d syscall close_files sched mlfq cpu csrs p k frame ≢ done (resumes k')
  unfolding user_trap
  user_trap-killed cpu csrs p frame k k' keeps lt dead h = elim (Bool-cases (csrs.scause == 8)) [
    | inl call ↦ call_trap-killed frame p (set_epc frame csrs.sepc k) k' dead (ground arith)
    | inr other ↦
        device_trap-killed cpu csrs.scause p (set_epc frame csrs.sepc k) k' keeps lt dead
          (ground arith)
  ]

  -- A process that is killed when it traps does not get back to user mode: whatever the cause of the
  -- trap, usertrap does not come to usertrapret, provided that the handlers of the devices leave the
  -- process killed.
  pub usertrap_killed :
      (cpu : ℕ) (csrs : Csrs) (p : ℕ) (k k' : Kernel)
      → KeepsKilled d p
      → p < nproc
      → is_killed k p ≡ true
      → usertrap d syscall close_files sched mlfq cpu csrs p k ≢ done (resumes k')
  unfolding usertrap
  usertrap_killed cpu csrs p k k' keeps lt dead h = elim (Bool-cases csrs.from_user) [
    | inl user ↦
        let (frame, e, e') =
          >>=-eq-done (page_of (k.procs p).trapframe)
            (user_trap d syscall close_files sched mlfq cpu csrs p k) (ground arith) in
        user_trap-killed cpu csrs p frame k k' keeps lt dead e'
    | inr kernel ↦ absurd (ground arith)
  ]
