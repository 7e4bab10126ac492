-- ===== src/Mkfs.antt =====
-- initial-xv6/src/mkfs/mkfs.c: the tool that builds the disk image. The image is the bytes of its blocks, and
-- the host's reads and writes of it succeed; numbers are stored little-endian, as xshort and xint arrange. A
-- failed assertion ends the tool, as `panic` does in the kernel.
pub mod Build
pub mod Freemap
use cpu_scheduling_algos.Prelude.{
  ℕ, zero, suc, ◌+◌, ◌-◌, ◌*◌, ◌/◌, ◌%◌, ◌==◌, ltb, if◌then◌else◌, Bool, true, false, not, ◌&&◌,
  ◌||◌, List, [], ◌∷◌, ◌++◌, any, length, update, for_from, Outcome, done, panic, ◌>>=◌,
}
use cpu_scheduling_algos.Paging.Copy.{take, drop}
use cpu_scheduling_algos.Fs.{mark, bpb, bsize}
use cpu_scheduling_algos.Fs.Inodes.{number_at, set_number, ndirect, ipb, dinode_size}
use cpu_scheduling_algos.Fs.Content.{store, nindirect}

-- The image, `freeinode` and `freeblock`.
pub record Image : Type 0 where
  pub block : ℕ → ℕ → ℕ
  pub freeinode : ℕ
  pub freeblock : ℕ

-- FSSIZE and NINODES; the first blocks of the inodes, of the free map and of the data.
abbrev pub fssize : ℕ
fssize = 2000

abbrev pub ninodes : ℕ
ninodes = 200

abbrev pub inodestart : ℕ
inodestart = 32

abbrev pub bmapstart : ℕ
bmapstart = inodestart + (ninodes / ipb + 1)

abbrev pub nmeta : ℕ
nmeta = bmapstart + (fssize / bpb + 1)

-- wsect(sec, buf)
abbrev pub wsect : ℕ → (ℕ → ℕ) → Image → Image
wsect sec buf img = record img { block = update img.block sec buf }

-- `struct dinode`
pub record Dinode : Type 0 where
  pub type : ℕ
  pub major : ℕ
  pub minor : ℕ
  pub nlink : ℕ
  pub size : ℕ
  pub addrs : ℕ → ℕ

abbrev pub iblock : ℕ → ℕ
iblock inum = inum / ipb + inodestart

abbrev pub place : ℕ → ℕ
place inum = inum % ipb * dinode_size

-- rinode(inum, ip)
unfoldable pub rinode : ℕ → Image → Dinode
rinode inum img =
    let buf = img.block (iblock inum) in
    let off = place inum in
    record {
      type = number_at 2 buf off;
      major = number_at 2 buf (off + 2);
      minor = number_at 2 buf (off + 4);
      nlink = number_at 2 buf (off + 6);
      size = number_at 4 buf (off + 8);
      addrs = λ i. number_at 4 buf (off + 12 + 4 * i);
    }

-- winode(inum, ip)
unfoldable pub winode : ℕ → Dinode → Image → Image
winode inum d img =
    let off = place inum in
    let buf = img.block (iblock inum) in
    let numbers = set_number 4 (off + 8) d.size (
      set_number 2 (off + 6) d.nlink (
        set_number 2 (off + 4) d.minor
          (set_number 2 (off + 2) d.major (set_number 2 off d.type buf)))) in
    wsect (iblock inum)
      (for_from (λ i c. set_number 4 (off + 12 + 4 * i) (d.addrs i) c) (ndirect + 1) 0 numbers) img

-- ialloc(type)
unfoldable pub ialloc : ℕ → Image → ℕ × Image
unfolding winode
ialloc type img = (
  img.freeinode,
  winode img.freeinode
      (record { type = type; major = 0; minor = 0; nlink = 1; size = 0; addrs = λ i. 0 })
      (record img { freeinode = img.freeinode + 1 }),
)

-- `freeblock++`
abbrev pub next_block : Image → Image
next_block img = record img { freeblock = img.freeblock + 1 }

-- `if(addrs[i] == 0) addrs[i] = freeblock++;`
abbrev pub fill_addr : ℕ → Dinode → Image → Dinode × Image
fill_addr i d img =
    if d.addrs i == 0
    then (record d { addrs = update d.addrs i img.freeblock }, next_block img)
    else (d, img)

-- The same for an element of the indirect block `b`.
abbrev pub fill_indirect : ℕ → ℕ → Image → Image
fill_indirect b i img =
    if number_at 4 (img.block b) (4 * i) == 0
    then wsect b (set_number 4 (4 * i) img.freeblock (img.block b)) (next_block img)
    else img

-- The block `x` that holds block `fbn` of the file.
unfoldable pub locate : ℕ → Dinode → Image → ℕ × Dinode × Image
locate fbn d img =
    let (direct, img1) = fill_addr fbn d img in
    let (far, img2) = fill_addr ndirect d img in
    let b = far.addrs ndirect in
    let img3 = fill_indirect b (fbn - ndirect) img2 in
    if ltb fbn ndirect
    then (direct.addrs fbn, direct, img1)
    else (number_at 4 (img3.block b) (4 * (fbn - ndirect)), far, img3)

-- `min(n, (fbn + 1) * BSIZE - off)`
abbrev pub piece : ℕ → ℕ → ℕ
piece n off = let room = (off / bsize + 1) * bsize - off in if ltb n room then n else room

-- The loop of iappend, each round of which appends one byte or more: the size at its end.
unfoldable pub append_from : ℕ → List ℕ → ℕ → Dinode → Image → Outcome (ℕ × Dinode × Image)
unfolding locate
append_from fuel [] off d img = done (off, d, img)
append_from zero (b ∷ bs) off d img = panic
append_from (suc fuel) (b ∷ bs) off d img =
    let n1 = piece (length (b ∷ bs)) off in
    let (x, d', img') = locate (off / bsize) d img in
    let img'' = wsect x (store (off % bsize) (take n1 (b ∷ bs)) (img'.block x)) img' in
    let more = append_from fuel (drop n1 (b ∷ bs)) (off + n1) d' img'' in
    if not (ltb (off / bsize) (ndirect + nindirect)) then panic else more

-- iappend(inum, xp, n)
unfoldable pub iappend : ℕ → List ℕ → Image → Outcome Image
unfolding append_from rinode winode
iappend inum bytes img =
    let d = rinode inum img in
    append_from (length bytes) bytes d.size d img
    >>= (λ (off, d', img'). done (winode inum (record d' { size = off }) img'))

-- balloc(used): the map of the first `used` blocks.
unfoldable pub balloc : ℕ → Image → Outcome Image
balloc used img =
    if ltb used bpb
    then done (wsect bmapstart (for_from (λ i c. mark true i c) used 0 (λ i. 0)) img)
    else panic
