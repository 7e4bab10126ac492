-- ===== src/Tests/Devices.antt =====
-- The disk driver at concrete states.
use cpu_scheduling_algos.Prelude.{
  ℕ, ◌+◌, ◌<◌, ◌≡◌, refl, true, false, none, some, [], ◌∷◌, done, arith, find_from,
}
use cpu_scheduling_algos.Disk.{
  Disk, format, alloc_desc, alloc3_desc, start_rw, finish_rw, virtio_disk_intr, initial_disk,
}
use cpu_scheduling_algos.Disk.Descriptors.{taken}
use cpu_scheduling_algos.Disk.Interrupt.{entry, unseen, IsServed, virtio_disk_intr_lem}
use cpu_scheduling_algos.Disk.Safe.{finish_rw-safe}
use cpu_scheduling_algos.Disk.System.{InFlight, here, starts, Reachable, initial, next, Shared}
use cpu_scheduling_algos.Tests.World.{queued}

-- Process 1 writes buffer 3 to block 7.
abbrev one_request : Disk
one_request = format 3 7 true (0, 1, 2) (taken 2 (taken 1 (taken 0 (initial_disk queued))))

abbrev call : InFlight
call = record { i = 0; j = 1; k = 2; b = 3 }

started : start_rw 1 3 7 true (initial_disk queued) ≡ done (some (0, 1, 2), one_request)
unfolding start_rw alloc3_desc alloc_desc find_from
started = refl

one_request-Reachable : Reachable one_request (call ∷ [])
one_request-Reachable = next (initial queued) (starts 1 3 7 true 0 1 2 started)

finish_rw-safe_example :
    Shared one_request.is_free (call ∷ [])
    × ((d' : Disk) × (finish_rw 1 0 one_request ≡ done d') × Shared d'.is_free [])
finish_rw-safe_example = finish_rw-safe 1 one_request-Reachable here

-- The device has written the block.
abbrev served : Disk
served = record one_request { used_id = λ i. 0; used_end = 1; info_status = λ i. 0 }

served-IsServed : IsServed served
unfolding format
served-IsServed m l = ((3, refl), refl)

virtio_disk_intr_lem_example :
    (d' : Disk) × (virtio_disk_intr none served ≡ done d')
    × (d'.used_idx ≡ 1)
    × ((m b : ℕ)
        → m < unseen served
        → served.info_b (entry served (served.used_idx + m)) ≡ some b
        → d'.is_busy b ≡ false)
unfolding format
virtio_disk_intr_lem_example =
    virtio_disk_intr_lem none served (omega arith) (omega arith) served-IsServed
