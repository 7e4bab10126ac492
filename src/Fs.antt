-- ===== src/Fs.antt =====
-- initial-xv6/src/kernel/fs.c and fs.h: the file system's blocks. `block` has the blocks' bytes as the cache
-- of bio.c shows them to every process; `logged` lists the blocks that log_write() has been given, the last
-- one first. A bread() with its brelse() leaves the cache's counts as they were.
pub mod Inodes
pub mod Content
pub mod Directories
pub mod Paths
pub mod Creation
pub mod Links
pub mod Start
pub mod Bitmap
pub mod Table
pub mod Elements
pub mod Rounds
pub mod Allocation
use cpu_scheduling_algos.Prelude.{
  ℕ, zero, suc, ◌+◌, ◌-◌, ◌*◌, ◌/◌, ◌%◌, ◌==◌, ltb, if◌then◌else◌, Bool, true, false, not, ◌&&◌,
  Option, none, some, List, [], ◌∷◌, update, find_from, for_from, Outcome, done, panic,
}

-- `struct superblock`, the fields that fs.c reads after the start.
pub record SuperBlock : Type 0 where
  pub size : ℕ
  pub ninodes : ℕ
  pub inodestart : ℕ
  pub bmapstart : ℕ

-- `struct inode`; `is_locked` says that the calling process holds its sleep lock.
pub record Inode : Type 0 where
  pub dev : ℕ
  pub inum : ℕ
  pub ref : ℕ
  pub is_locked : Bool
  pub is_valid : Bool
  pub type : ℕ
  pub major : ℕ
  pub minor : ℕ
  pub nlink : ℕ
  pub size : ℕ
  pub addrs : ℕ → ℕ

-- The superblock `sb`, the blocks by device and number, `itable`, and the transactions that begin_op() has
-- started and end_op() not yet ended.
pub record Fs : Type 0 where
  pub sb : SuperBlock
  pub block : ℕ → ℕ → ℕ → ℕ
  pub logged : List (ℕ × ℕ)
  pub inode : ℕ → Inode
  pub outstanding : ℕ

abbrev pub bsize : ℕ
bsize = 1024

-- Bitmap bits per block: BPB.
abbrev pub bpb : ℕ
bpb = 8192

-- BBLOCK(b, sb)
abbrev pub bblock : ℕ → Fs → ℕ
bblock b fs = b / bpb + fs.sb.bmapstart

-- log_write(bp) of a buffer of block `b`, with the bytes that were stored in it.
abbrev pub log_data : ℕ → ℕ → (ℕ → ℕ) → Fs → Fs
log_data dev b content fs = record fs {
  block = update fs.block dev (update (fs.block dev) b content);
  logged = (dev, b) ∷ fs.logged;
}

-- `byte & (1 << i)`, `byte |= 1 << i` and `byte &= ~(1 << i)` on bit `i`.
unfoldable pub bit_at : ℕ → ℕ → Bool
bit_at zero byte = byte % 2 == 1
bit_at (suc i) byte = bit_at i (byte / 2)

unfoldable pub set_bit : Bool → ℕ → ℕ → ℕ
set_bit value zero byte = byte / 2 * 2 + (if value then 1 else 0)
set_bit value (suc i) byte = set_bit value i (byte / 2) * 2 + byte % 2

-- Bit `bi` of a block of the map.
abbrev pub map_bit : ℕ → (ℕ → ℕ) → Bool
map_bit bi content = bit_at (bi % 8) (content (bi / 8))

abbrev pub mark : Bool → ℕ → (ℕ → ℕ) → ℕ → ℕ
mark value bi content = update content (bi / 8) (set_bit value (bi % 8) (content (bi / 8)))

-- bzero(dev, bno), whose memset fills the block.
abbrev pub bzero : ℕ → ℕ → Fs → Fs
bzero dev bno fs = log_data dev bno (λ i. if ltb i bsize then 0 else fs.block dev bno i) fs

-- The bits of a block of the map that stand for blocks of the disk.
abbrev pub bits_from : ℕ → ℕ → ℕ
bits_from b size = if ltb (size - b) bpb then size - b else bpb

-- The loop of balloc from block `b` on, with at most `n` blocks of the map to come.
unfoldable pub balloc_from : ℕ → ℕ → ℕ → Fs → ℕ × Fs
balloc_from zero dev b fs = (0, fs)
balloc_from (suc n) dev b fs =
    let rest = balloc_from n dev (b + bpb) fs in
    let content = fs.block dev (bblock b fs) in
    if ltb b fs.sb.size
    then elim (find_from (λ bi. not (map_bit bi content)) (bits_from b fs.sb.size) 0) [
      | none ↦ rest
      | some bi ↦
          (b + bi, bzero dev (b + bi) (log_data dev (bblock b fs) (mark true bi content) fs))
    ]
    else (0, fs)

-- balloc(dev)
unfoldable pub balloc : ℕ → Fs → ℕ × Fs
balloc dev fs = balloc_from (fs.sb.size / bpb + 1) dev 0 fs

-- bfree(dev, b)
unfoldable pub bfree : ℕ → ℕ → Fs → Outcome Fs
bfree dev b fs =
    let content = fs.block dev (bblock b fs) in
    if map_bit (b % bpb) content
    then done (log_data dev (bblock b fs) (mark false (b % bpb) content) fs)
    else panic
