-- ===== src/Log.antt =====
-- initial-xv6/src/kernel/log.c: the write-ahead log of the file system. A block is its 32-bit words;
-- the header block holds the number of logged blocks in word 0, and their numbers behind it.
pub mod Commit
pub mod Recover
pub mod Crash
pub mod Absorb
use cpu_scheduling_algos.Prelude.{
  ℕ, zero, suc, ◌+◌, ◌-◌, ◌*◌, ◌==◌, ltb, leb, if◌then◌else◌, Bool, true, false, not, ◌&&◌, ◌||◌,
  Option, none, some, update, find_from, for_from, Outcome, done, panic,
}
use cpu_scheduling_algos.Proc.{Kernel, Chan, other_chan}
use cpu_scheduling_algos.Waiting.{wakeup, fall_asleep}

abbrev pub maxopblocks : ℕ
maxopblocks = 10

abbrev pub logsize : ℕ
logsize = maxopblocks * 3

abbrev pub Block : Type 0
Block = ℕ → ℕ

-- The disk, and what bread returns of each block: its buffer in the cache (bio.c), which holds what
-- was read from the disk or a newer version. The disk takes `power` more writes, one block each, and
-- then the machine stops: later writes do not reach it.
pub record Store : Type 0 where
  pub disk : ℕ → Block
  pub cache : ℕ → Block
  pub power : ℕ

-- bwrite of the buffer of a block.
unfoldable pub bwrite : ℕ → Store → Store
bwrite b s =
    if s.power == 0 then s else record s { disk = update s.disk b (s.cache b); power = s.power - 1 }

-- `memmove(dst->data, src->data, BSIZE)`, of the buffers of two blocks.
abbrev pub copy_block : ℕ → ℕ → Store → Store
copy_block dst src s = record s { cache = update s.cache dst (s.cache src) }

-- `struct log` with its header `lh`, whose fields are `n` and `block`.
pub record Log : Type 0 where
  pub start : ℕ
  pub size : ℕ
  pub outstanding : ℕ
  pub committing : Bool
  pub n : ℕ
  pub block : ℕ → ℕ

-- The rounds of write_log and of install_trans. (bunpin lets the cache drop a block once it is
-- written.)
unfoldable pub log_block : Log → ℕ → Store → Store
unfolding bwrite
log_block l tail s = bwrite (l.start + tail + 1) (copy_block (l.start + tail + 1) (l.block tail) s)

unfoldable pub install_block : Log → ℕ → Store → Store
unfolding bwrite
install_block l tail s = bwrite (l.block tail) (copy_block (l.block tail) (l.start + tail + 1) s)

unfoldable pub write_log : Log → Store → Store
unfolding for_from log_block
write_log l s = for_from (log_block l) l.n 0 s

unfoldable pub install_trans : Log → Store → Store
unfolding for_from install_block
install_trans l s = for_from (install_block l) l.n 0 s

-- The header block as write_head leaves it: words behind the last block number stay.
abbrev pub header : Log → Block → Block
header l old w = if w == 0 then l.n else if leb w l.n then l.block (w - 1) else old w

unfoldable pub write_head : Log → Store → Store
unfolding bwrite
write_head l s =
    bwrite l.start (record s { cache = update s.cache l.start (header l (s.cache l.start)) })

-- read_head: the log's header from its block.
abbrev pub read_head : Log → Store → Log
read_head l s = record l {
  n = s.cache l.start 0;
  block = λ i. if ltb i (s.cache l.start 0) then s.cache l.start (i + 1) else l.block i;
}

-- `log.lh.n = 0;`
abbrev pub emptied : Log → Log
emptied l = record l { n = 0 }

unfoldable pub recover_from_log : Log → Store → Log × Store
unfolding install_trans write_head
recover_from_log l s =
    let found = read_head l s in (emptied found, write_head (emptied found) (install_trans found s))

unfoldable pub commit : Log → Store → Log × Store
unfolding write_log write_head install_trans
commit l s =
    let committed = write_head l (write_log l s) in
    if ltb 0 l.n then (emptied l, write_head (emptied l) (install_trans l committed)) else (l, s)

-- initlog, with the fields of the super block.
unfoldable pub initlog : ℕ → ℕ → Log → Store → Log × Store
unfolding recover_from_log
initlog logstart nlog l s = recover_from_log (record l { start = logstart; size = nlog }) s

-- The channel `&log`, an address that nothing else sleeps on.
abbrev pub log_chan : ℕ → Chan
log_chan addr = other_chan addr

-- One turn of the loop of begin_op by process `p`: whether it goes on, or has fallen asleep.
unfoldable pub begin_op : ℕ → ℕ → Log → Kernel → Bool × Log × Kernel
begin_op addr p l k =
    if l.committing || ltb logsize (l.n + (l.outstanding + 1) * maxopblocks)
    then (false, l, fall_asleep p (log_chan addr) k)
    else (true, record l { outstanding = l.outstanding + 1 }, k)

-- end_op up to its commit: whether it commits.
unfoldable pub leave_op : ℕ → ℕ → Log → Kernel → Outcome (Bool × Log × Kernel)
leave_op addr p l k =
    let left = record l { outstanding = l.outstanding - 1 } in
    if l.committing
    then panic
    else if l.outstanding - 1 == 0
    then done (true, record left { committing = true }, k)
    else done (false, left, wakeup (some p) (log_chan addr) k)

-- end_op once the commit is done.
abbrev pub end_commit : ℕ → ℕ → Log → Kernel → Log × Kernel
end_commit addr p l k = (record l { committing = false }, wakeup (some p) (log_chan addr) k)

-- log_write of the buffer of block `blockno`: the log, and whether the buffer is pinned.
unfoldable pub log_write : ℕ → Log → Outcome (Bool × Log)
unfolding find_from
log_write blockno l =
    if leb logsize l.n || leb (l.size - 1) l.n || ltb l.outstanding 1
    then panic
    else (elim (find_from (λ i. l.block i == blockno) l.n 0) [
      | none ↦ done (true, record l { block = update l.block l.n blockno; n = l.n + 1 })
      | some i ↦ done (false, record l { block = update l.block i blockno })
    ])
