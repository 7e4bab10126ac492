-- ===== src/Tests/Machine.antt =====
-- Pages, pipes, bytes and system calls at concrete states.
use cpu_scheduling_algos.Prelude.{
  ℕ, ◌<◌, ◌≤◌, ◌%◌, ◌≡◌, ◌≢◌, refl, ◌==◌, ◌&&◌, if◌then◌else◌, true, some, [], ◌∷◌, ◌⊎◌, arith,
  done, panic, length,
}
use cpu_scheduling_algos.Prelude.Int.{pos}
use cpu_scheduling_algos.Kalloc.{Memory, bad_page, kfree, kalloc, freed_junk}
use cpu_scheduling_algos.Kalloc.Chain.{IsFree, Served, kfree-IsFree, kalloc-Served}
use cpu_scheduling_algos.Proc.{Kernel}
use cpu_scheduling_algos.Proc.Frame
use cpu_scheduling_algos.Pipe.{Pipe, pipewrite, piperead, returned}
use cpu_scheduling_algos.Pipe.Fifo.{IsValid}
use cpu_scheduling_algos.Pipe.Transfer.{fetched, Wrote, Took, pipewrite_lem, piperead_lem}
use cpu_scheduling_algos.Sysproc.{sys_sigreturn}
use cpu_scheduling_algos.Sysproc.Alarm.{alarm_round_trip}
use cpu_scheduling_algos.Trap.{fire_alarm, jump_to_handler}
use cpu_scheduling_algos.Tests.World.{two_pages, queued, easy_vm, free_slot, kernel_with}

pub two-IsFree : IsFree two_pages (4096 ∷ 8192 ∷ [])
two-IsFree = (
  (refl, (λ e. omega arith), (refl, (λ e. omega arith), refl)),
  (((λ e. omega arith), tt), (tt, tt)),
)

kfree-IsFree_example :
    (((12288 % 4096 ≢ 0) ⊎ ((12288 < 0) ⊎ (0x88000000 ≤ 12288)))
      × (kfree 0 12288 two_pages ≡ panic))
    ⊎ ((m' : Memory) × (12288 % 4096 ≡ 0)
        × (0 ≤ 12288)
        × (12288 < 0x88000000)
        × (kfree 0 12288 two_pages ≡ done m')
        × IsFree m' (12288 ∷ 4096 ∷ 8192 ∷ [])
        × ((w : ℕ) → w ≢ 0 → m'.words 12288 w ≡ freed_junk))
kfree-IsFree_example =
    kfree-IsFree 0 12288 two_pages (4096 ∷ 8192 ∷ []) (omega arith)
      ((λ e. omega arith), ((λ e. omega arith), tt)) two-IsFree

kalloc-Served_example : Served two_pages (4096 ∷ 8192 ∷ [])
kalloc-Served_example = kalloc-Served two_pages (4096 ∷ 8192 ∷ []) two-IsFree

-- A pipe whose write counter is about to wrap around.
abbrev one_byte : Pipe
one_byte = record {
  addr = 0;
  buffer = λ i. if i == 510 then 65 else 0;
  nread = 4294967294;
  nwrite = 4294967295;
  readopen = true;
  writeopen = true;
}

one_byte-IsValid : IsValid one_byte
one_byte-IsValid = record {
  read_word = omega arith;
  write_word = omega arith;
  bounded = omega arith;
}

pipewrite_lem_example :
    let (end, pi', k') = pipewrite 0 (fetched (66 ∷ 67 ∷ [])) one_byte queued in
    Wrote one_byte (66 ∷ 67 ∷ []) 0 end pi'
pipewrite_lem_example = pipewrite_lem 0 (66 ∷ 67 ∷ []) one_byte queued one_byte-IsValid refl refl

piperead_lem_example :
    let (end, got, pi', k') = piperead (λ _. true) 0 3 one_byte queued in
    (end ≡ returned (pos (length got))) × Took one_byte 3 0 got (length got) pi'
piperead_lem_example =
    piperead_lem (λ _. true) 0 3 one_byte queued (λ j. refl) one_byte-IsValid refl

-- Process 0 has its trapframe at 12288, with the mask 4 in a0.
abbrev trapped : Kernel
trapped = record (kernel_with (λ _. record free_slot { trapframe = some 12288; handler = 64 })) {
  memory = record two_pages {
    words = λ pa w. if pa == 12288 && w == Frame.a0 then 4 else two_pages.words pa w;
  };
}

-- The process in its handler.
abbrev interrupted : Kernel
unfolding jump_to_handler kalloc
interrupted = jump_to_handler 0 4096 12288 (kalloc trapped.memory).1 trapped

fires : fire_alarm 0 trapped ≡ done interrupted
unfolding fire_alarm kalloc jump_to_handler
fires = refl

alarm_round_trip_example :
    (k3 : Kernel) × (sys_sigreturn easy_vm 0 interrupted ≡ done k3)
    × ((w : ℕ) → w < Frame.size → k3.memory.words 12288 w ≡ trapped.memory.words 12288 w)
    × (k3.memory.freelist ≡ trapped.memory.freelist)
    × ((k3.procs 0).in_alarm_handler ≡ 0)
unfolding bad_page
alarm_round_trip_example =
    alarm_round_trip easy_vm trapped interrupted interrupted 0 12288 refl (omega arith)
      (omega arith) refl fires refl refl (λ w. refl)
