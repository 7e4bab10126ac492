-- ===== src/Buffers.antt =====
-- initial-xv6/src/kernel/bio.c: the cache of disk blocks. The doubly linked list from `bcache.head` is the
-- list of the buffers' indices, most recently used first.
pub mod Unique
use cpu_scheduling_algos.Prelude.{
  ℕ, zero, suc, ◌+◌, ◌-◌, ◌%◌, ◌==◌, if◌then◌else◌, Bool, true, false, not, ◌&&◌, ◌||◌, Option,
  none, some, List, [], ◌∷◌, ◌++◌, update, any, erase_first, Outcome, done, panic, ◌>>=◌,
}

-- `struct buf` without its sleep lock, which `brelse` takes as a condition, and its list pointers.
pub record Buf : Type 0 where
  pub is_valid : Bool
  pub dev : ℕ
  pub blockno : ℕ
  pub refcnt : ℕ
  pub content : ℕ → ℕ

-- `bcache`, with the disk's blocks by device and number (virtio_disk_rw of virtio_disk.c moves a whole
-- block between the disk and a buffer).
pub record Bcache : Type 0 where
  pub buf : ℕ → Buf
  pub order : List ℕ
  pub disk : ℕ → ℕ → ℕ → ℕ

abbrev pub nbuf : ℕ
nbuf = 30

-- `refcnt++` and `refcnt--` of a `uint`.
abbrev pub up : ℕ → ℕ
up n = (n + 1) % 4294967296

abbrev pub down : ℕ → ℕ
down n = (n + 4294967295) % 4294967296

abbrev pub set_buf : ℕ → Buf → Bcache → Bcache
set_buf i b c = record c { buf = update c.buf i b }

-- The first and the last buffer of the list that passes a test.
abbrev pub find_in : (ℕ → Bool) → List ℕ → Option ℕ
find_in test [] = none
find_in test (i ∷ is) = if test i then some i else find_in test is

abbrev pub find_last : (ℕ → Bool) → List ℕ → Option ℕ
find_last test [] = none
find_last test (i ∷ is) = elim (find_last test is) [
  | none ↦ if test i then some i else none
  | some j ↦ some j
]

-- `b->dev == dev && b->blockno == blockno`
abbrev pub holds : Bcache → ℕ → ℕ → ℕ → Bool
holds c dev blockno i = (c.buf i).dev == dev && (c.buf i).blockno == blockno

abbrev pub is_unused : Bcache → ℕ → Bool
is_unused c i = (c.buf i).refcnt == 0

-- Recycling a buffer for another block.
abbrev pub recycle : ℕ → ℕ → ℕ → Bcache → Bcache
recycle dev blockno i c =
    set_buf i (record (c.buf i) { dev = dev; blockno = blockno; is_valid = false; refcnt = 1 }) c

-- bget(dev, blockno) up to its acquiresleep.
unfoldable pub bget : ℕ → ℕ → Bcache → Outcome (ℕ × Bcache)
bget dev blockno c = elim (find_in (holds c dev blockno) c.order) [
  | some i ↦ done (i, set_buf i (record (c.buf i) { refcnt = up (c.buf i).refcnt }) c)
  | none ↦ elim (find_last (is_unused c) c.order) [
    | some i ↦ done (i, recycle dev blockno i c)
    | none ↦ panic
  ]
]

-- `if (!b->valid) { virtio_disk_rw(b, 0); b->valid = 1; }`
abbrev pub fetch : ℕ → Bcache → Bcache
fetch i c =
    if (c.buf i).is_valid
    then c
    else set_buf i
        (record (c.buf i) { content = c.disk (c.buf i).dev (c.buf i).blockno; is_valid = true }) c

-- bread(dev, blockno), where no other process has the buffer locked.
unfoldable pub bread : ℕ → ℕ → Bcache → Outcome (ℕ × Bcache)
bread dev blockno c = do (i, c1) ← bget dev blockno c; done (i, fetch i c1)

-- bwrite(b) of a buffer that is locked, as `locked` says.
unfoldable pub bwrite : Bool → ℕ → Bcache → Outcome Bcache
bwrite locked i c =
    let b = c.buf i in
    if locked
    then done (record c { disk = update c.disk b.dev (update (c.disk b.dev) b.blockno b.content) })
    else panic

-- brelse(b): an unused buffer moves to the head of the list.
unfoldable pub brelse : Bool → ℕ → Bcache → Outcome Bcache
brelse locked i c =
    let left = set_buf i (record (c.buf i) { refcnt = down (c.buf i).refcnt }) c in
    let moved = record left { order = i ∷ erase_first (λ j. j == i) c.order } in
    if locked then done (if down (c.buf i).refcnt == 0 then moved else left) else panic

abbrev pub bpin : ℕ → Bcache → Bcache
bpin i c = set_buf i (record (c.buf i) { refcnt = up (c.buf i).refcnt }) c

abbrev pub bunpin : ℕ → Bcache → Bcache
bunpin i c = set_buf i (record (c.buf i) { refcnt = down (c.buf i).refcnt }) c

-- binit: `n` buffers from `i` on, each put at the head of the list.
abbrev pub binit_from : ℕ → ℕ → List ℕ → List ℕ
binit_from zero i order = order
binit_from (suc n) i order = binit_from n (i + 1) (i ∷ order)

-- binit() leaves the buffers as the loader did, all zero.
abbrev pub binit : Bcache → Bcache
binit c = record c { order = binit_from nbuf 0 [] }
