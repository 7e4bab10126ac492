-- ===== src/Tests/Traps.antt =====
-- Traps, locks and the user library at concrete states.
use cpu_scheduling_algos.Prelude.{
  ℕ, ◌≡◌, ◌≢◌, refl, ◌==◌, if◌then◌else◌, true, false, ltb, ◌^◌, some, ◌⊎◌, arith, done,
}
use cpu_scheduling_algos.Proc.{Kernel, running}
use cpu_scheduling_algos.Locks.{Cpu, holding}
use cpu_scheduling_algos.Locks.Interrupts.{push_many, pop_many, Restored, pop_many-push_many}
use cpu_scheduling_algos.Locks.Exclusion.{
  System, Reach, fresh, is_inside, begin, swap, own, here, next, enter, spinning, taken, inside,
  exclusion,
}
use cpu_scheduling_algos.Interrupts.{Devices, Csrs, resumes, usertrap}
use cpu_scheduling_algos.Interrupts.Causes.{usertrap_killed}
use cpu_scheduling_algos.Str
use cpu_scheduling_algos.Sysproc.{int_of}
use cpu_scheduling_algos.Ulib
use cpu_scheduling_algos.Ulib.Agree.{memmove_agrees}
use cpu_scheduling_algos.Tests.World.{free_slot, kernel_with}

-- A CPU inside one push_off that began with interrupts on.
abbrev busy : Cpu
busy = record { noff = 1; intena = true; intr = false }

pop_many-push_many_example :
    (c' : Cpu) × (pop_many 3 (push_many 3 busy) ≡ done c') × Restored busy c'
pop_many-push_many_example = pop_many-push_many 3 busy (λ ne. refl)

-- CPU 2 takes the free lock.
abbrev begun : System
begun = enter 2 spinning fresh

abbrev locked_by : System
locked_by = enter 2 taken (record begun { lock = record begun.lock { locked = true } })

abbrev entered : System
entered = enter 2 inside (record locked_by { lock = record locked_by.lock { holder = some 2 } })

enters : Reach fresh entered
unfolding holding
enters =
    next (next (next here (begin fresh 2 refl refl)) (swap begun 2 refl refl))
      (own locked_by 2 refl)

abbrev other : ℕ
other = 3

exclusion_example :
    (holding entered.lock other ≡ is_inside (entered.phase other))
    × ((other ≡ 2)
        ⊎ ((is_inside (entered.phase 2) ≡ false) ⊎ (is_inside (entered.phase other) ≡ false)))
exclusion_example = exclusion entered 2 other enters

-- The process in slot 0 runs, and is killed.
abbrev doomed : Kernel
doomed = kernel_with (λ i.
    if i == 0
    then record free_slot { state = running; pid = 1; killed = 1; trapframe = some 12288 }
    else free_slot)

abbrev silent : Devices
silent = record { claim = 0; uartintr = λ k. k; virtio_disk_intr = λ k. k }

abbrev ecall : Csrs
ecall = record { sepc = 16; scause = 8; from_user = true; intr_on = false }

usertrap_killed_example :
    usertrap silent (λ p k. done (resumes k)) (λ p k. k) (λ p k. k) true 0 ecall 0 doomed
    ≢ done (resumes doomed)
usertrap_killed_example =
    usertrap_killed silent (λ p k. done (resumes k)) (λ p k. k) (λ p k. k) true 0 ecall 0 doomed
      doomed (λ k dead. dead) (omega arith) refl

memmove_agrees_example :
    Ulib.memmove 12 10 (int_of 4) (λ a. a)
    ≡ (if ltb 4 (2 ^ 31) then Str.memmove 12 10 4 (λ a. a) else (λ a. a))
memmove_agrees_example = memmove_agrees 12 10 4 (λ a. a) (omega arith)
