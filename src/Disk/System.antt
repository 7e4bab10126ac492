-- ===== src/Disk/System.antt =====
-- The disk driver of initial-xv6/src/kernel/virtio_disk.c as a system of steps: what the processes in
-- virtio_disk_rw, the interrupt, the device and the rest of the kernel do, one after another.
use cpu_scheduling_algos.Prelude.{
  ℕ, ◌+◌, ◌≡◌, ◌<◌, ◌≤◌, ◌==◌, if◌then◌else◌, Bool, false, Option, none, some, List, [], ◌∷◌, done,
  ◌%◌,
}
use cpu_scheduling_algos.Proc.{Kernel}
use cpu_scheduling_algos.Disk.{
  Disk, Desc, ndesc, start_rw, wait_rw, finish_rw, virtio_disk_intr, initial_disk,
}

-- A call of virtio_disk_rw between its two loops: its `idx` and its buffer.
pub record InFlight : Type 0 where
  pub i : ℕ
  pub j : ℕ
  pub k : ℕ
  pub b : ℕ

-- Some call of the list, and the others.
pub data Picked : InFlight → List InFlight → List InFlight → Type 0 where
  here : {r : InFlight} {rs : List InFlight} → Picked r (r ∷ rs) rs
  there :
      {r q : InFlight} {rs rest : List InFlight} → Picked r rs rest → Picked r (q ∷ rs) (q ∷ rest)

pub data Step : Disk → List InFlight → Disk → List InFlight → Type 0 where
  starts :
      {d d' : Disk} {rs : List InFlight} (p b blockno : ℕ) (w : Bool) (i j k : ℕ)
      → start_rw p b blockno w d ≡ done (some (i, j, k), d')
      → Step d rs d' (record { i = i; j = j; k = k; b = b } ∷ rs)
  finds_none :
      {d d' : Disk} {rs : List InFlight} (p b blockno : ℕ) (w : Bool)
      → start_rw p b blockno w d ≡ done (none, d')
      → Step d rs d' rs
  waits : {d d' : Disk} {rs : List InFlight} (p b : ℕ) → wait_rw p b d ≡ some d' → Step d rs d' rs
  finishes :
      {d d' : Disk} {rs rest : List InFlight} (p : ℕ) (r : InFlight)
      → Picked r rs rest
      → Disk.is_busy d r.b ≡ false
      → finish_rw p r.i d ≡ done d'
      → Step d rs d' rest
  interrupts :
      {d d' : Disk} {rs : List InFlight} (me : Option ℕ)
      → virtio_disk_intr me d ≡ done d'
      → Step d rs d' rs
  device :
      {d : Disk} {rs : List InFlight} (ids status : ℕ → ℕ) (last : ℕ)
      → Step d rs (record d { used_id = ids; info_status = status; used_end = last }) rs
  elsewhere : {d : Disk} {rs : List InFlight} (k : Kernel) → Step d rs (record d { kernel = k }) rs

-- The states that the driver gets to from the one that virtio_disk_init leaves.
pub data Reachable : Disk → List InFlight → Type 0 where
  initial : (k : Kernel) → Reachable (initial_disk k) []
  next :
      {d d' : Disk} {rs rs' : List InFlight} → Reachable d rs → Step d rs d' rs' → Reachable d' rs'

-- How many of the descriptors of the calls are `a`.
abbrev pub one_at : ℕ → ℕ → ℕ
one_at a c = if a == c then 1 else 0

abbrev pub uses_of : ℕ → InFlight → ℕ
uses_of a r = one_at a r.i + one_at a r.j + one_at a r.k

abbrev pub uses : ℕ → List InFlight → ℕ
uses a [] = 0
uses a (r ∷ rs) = uses_of a r + uses a rs

-- The descriptors of a call are chained in their order, and the last one ends the chain.
abbrev pub Chain : (ℕ → Desc) → InFlight → Type 0
Chain desc r =
    ((desc r.i).flags % 2 ≡ 1)
    × ((desc r.i).next ≡ r.j)
    × ((desc r.j).flags % 2 ≡ 1)
    × ((desc r.j).next ≡ r.k)
    × ((desc r.k).flags % 2 ≡ 0)

abbrev pub Chains : (ℕ → Desc) → List InFlight → Type 0
Chains desc [] = Unit
Chains desc (r ∷ rs) = Chain desc r × Chains desc rs

-- Each descriptor is either free or in exactly one place of one call.
abbrev pub Shared : (ℕ → Bool) → List InFlight → Type 0
Shared free rs =
    ((a : ℕ) → a < ndesc → (if free a then 1 else 0) + uses a rs ≡ 1)
    × ((a : ℕ) → ndesc ≤ a → uses a rs ≡ 0)

abbrev pub IsSound : Disk → List InFlight → Type 0
IsSound d rs = Shared d.is_free rs × Chains d.desc rs
