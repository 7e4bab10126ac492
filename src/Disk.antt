-- ===== src/Disk.antt =====
-- initial-xv6/src/kernel/virtio_disk.c: the descriptors of the disk's requests and the interrupt. The queue
-- memory and the book-keeping are one record; the device is whoever changes its `used` ring and statuses.
pub mod System
pub mod Descriptors
pub mod Frame
pub mod Requests
pub mod Safe
pub mod Interrupt
use cpu_scheduling_algos.Prelude.{
  ℕ, zero, suc, ◌+◌, ◌-◌, ◌*◌, ◌%◌, ◌==◌, leb, if◌then◌else◌, Bool, true, false, not, ◌||◌, Option,
  none, some, update, find_from, Outcome, done, panic, ◌>>=◌,
}
use cpu_scheduling_algos.Proc.{Kernel, Chan, other_chan}
use cpu_scheduling_algos.Waiting.{wakeup, fall_asleep}

-- NUM
abbrev pub ndesc : ℕ
ndesc = 8

-- What a descriptor's `addr` points to: nothing, an element of `disk.ops`, the data of a buffer, or the
-- status in an element of `disk.info`.
pub data Target : Type 0 where
  nowhere : Target
  request block status_of : ℕ → Target

-- `struct virtq_desc`
pub record Desc : Type 0 where
  pub addr : Target
  pub len : ℕ
  pub flags : ℕ
  pub next : ℕ

-- `struct virtio_blk_req`
pub record BlkReq : Type 0 where
  pub typ : ℕ
  pub sector : ℕ

-- `disk`, with the flag `disk` of each buffer and the process table, which wakeup and sleep change. Its lock
-- is held from the start of each function to its end or its sleep.
pub record Disk : Type 0 where
  pub desc : ℕ → Desc
  pub avail_ring : ℕ → ℕ
  pub avail_idx : ℕ
  pub used_id : ℕ → ℕ
  pub used_end : ℕ
  pub is_free : ℕ → Bool
  pub used_idx : ℕ
  pub info_b : ℕ → Option ℕ
  pub info_status : ℕ → ℕ
  pub ops : ℕ → BlkReq
  pub is_busy : ℕ → Bool
  pub kernel : Kernel

-- `&disk.free[0]` and a buffer, as channels.
abbrev pub free_chan : Chan
free_chan = other_chan 0

abbrev pub buf_chan : ℕ → Chan
buf_chan b = other_chan (b + 1)

abbrev pub no_desc : Desc
no_desc = record { addr = nowhere; len = 0; flags = 0; next = 0 }

-- alloc_desc(): none is its -1.
unfoldable pub alloc_desc : Disk → Option (ℕ × Disk)
alloc_desc d = elim (find_from d.is_free ndesc 0) [
  | none ↦ none
  | some i ↦ some (i, record d { is_free = update d.is_free i false })
]

-- free_desc(i), called by the process `me`.
unfoldable pub free_desc : Option ℕ → ℕ → Disk → Outcome Disk
free_desc me i d =
    if leb ndesc i || d.is_free i
    then panic
    else done (record d {
      desc = update d.desc i no_desc;
      is_free = update d.is_free i true;
      kernel = wakeup me free_chan d.kernel;
    })

-- free_chain(i): after NUM rounds every descriptor is free, and free_desc of the next round panics.
unfoldable pub free_chain : Option ℕ → ℕ → ℕ → Disk → Outcome Disk
unfolding free_desc
free_chain me zero i d = panic
free_chain me (suc n) i d = free_desc me i d >>= (λ d'.
    let more = free_chain me n (d.desc i).next d' in
    if (d.desc i).flags % 2 == 1 then more else done d')

-- alloc3_desc(idx), whose -1 is none.
unfoldable pub alloc3_desc : Option ℕ → Disk → Outcome (Option (ℕ × ℕ × ℕ) × Disk)
unfolding alloc_desc free_desc
alloc3_desc me d = elim (alloc_desc d) [
  | none ↦ done (none, d)
  | some (i, d1) ↦ elim (alloc_desc d1) [
    | none ↦ free_desc me i d1 >>= (λ d'. done (none, d'))
    | some (j, d2) ↦ elim (alloc_desc d2) [
      | none ↦ free_desc me i d2 >>= (λ d'. free_desc me j d' >>= (λ d''. done (none, d'')))
      | some (k, d3) ↦ done (some (i, j, k), d3)
    ]
  ]
]

-- The three descriptors of a request for the buffer `b`, formatted and given to the device.
unfoldable pub format : ℕ → ℕ → Bool → ℕ × ℕ × ℕ → Disk → Disk
format b blockno is_write (i, j, k) d =
    let first : Desc = record { addr = request i; len = 16; flags = 1; next = j } in
    let second : Desc = record {
      addr = block b;
      len = 1024;
      flags = if is_write then 1 else 3;
      next = k;
    } in
    let third : Desc = record { addr = status_of i; len = 1; flags = 2; next = 0 } in
    record d {
      ops =
          update d.ops i
            (record { typ = if is_write then 1 else 0; sector = (blockno * 2) % 4294967296 });
      desc = update (update (update d.desc i first) j second) k third;
      info_status = update d.info_status i 255;
      is_busy = update d.is_busy b true;
      info_b = update d.info_b i (some b);
      avail_ring = update d.avail_ring (d.avail_idx % ndesc) i;
      avail_idx = (d.avail_idx + 1) % 65536;
    }

-- One round of virtio_disk_rw's first loop for the process `p`, and what follows it: with no three
-- descriptors the process sleeps, and the loop goes round again once it is woken.
unfoldable pub start_rw : ℕ → ℕ → ℕ → Bool → Disk → Outcome (Option (ℕ × ℕ × ℕ) × Disk)
unfolding alloc3_desc format
start_rw p b blockno is_write d = alloc3_desc (some p) d >>= (λ (idx, d'). elim idx [
  | none ↦ done (none, record d' { kernel = fall_asleep p free_chan d'.kernel })
  | some ijk ↦ done (some ijk, format b blockno is_write ijk d')
])

-- A round of `while(b->disk == 1) sleep(b, &disk.vdisk_lock);` that sleeps.
unfoldable pub wait_rw : ℕ → ℕ → Disk → Option Disk
wait_rw p b d =
    if d.is_busy b then some (record d { kernel = fall_asleep p (buf_chan b) d.kernel }) else none

-- The end of virtio_disk_rw, behind that loop.
unfoldable pub finish_rw : ℕ → ℕ → Disk → Outcome Disk
unfolding free_chain
finish_rw p i d = free_chain (some p) ndesc i (record d { info_b = update d.info_b i none })

-- The loop of virtio_disk_intr, with one round for each entry of the used ring not yet looked at. To store
-- through a null `b` is a fault in the kernel, which panics.
unfoldable pub intr_loop : ℕ → Option ℕ → Disk → Outcome Disk
intr_loop zero me d = done d
intr_loop (suc n) me d =
    let id = d.used_id (d.used_idx % ndesc) in
    elim (d.info_b id) [
      | none ↦ if d.used_idx == d.used_end then done d else panic
      | some b ↦
          let more = intr_loop n me (record d {
            is_busy = update d.is_busy b false;
            kernel = wakeup me (buf_chan b) d.kernel;
            used_idx = (d.used_idx + 1) % 65536;
          }) in
          if d.used_idx == d.used_end
          then done d
          else if not (d.info_status id == 0)
          then panic
          else more
    ]

-- virtio_disk_intr(), where the device adds no entry while it runs.
unfoldable pub virtio_disk_intr : Option ℕ → Disk → Outcome Disk
unfolding intr_loop
virtio_disk_intr me d = intr_loop ((d.used_end + 65536 - d.used_idx) % 65536) me d

-- What virtio_disk_init leaves in memory: the queue memory is zeroed, and every descriptor is free.
abbrev pub initial_disk : Kernel → Disk
initial_disk k = record {
  desc = λ i. no_desc;
  avail_ring = λ i. 0;
  avail_idx = 0;
  used_id = λ i. 0;
  used_end = 0;
  is_free = λ i. leb (i + 1) ndesc;
  used_idx = 0;
  info_b = λ i. none;
  info_status = λ i. 0;
  ops = λ i. record { typ = 0; sector = 0 };
  is_busy = λ i. false;
  kernel = k;
}
