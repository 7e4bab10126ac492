-- ===== src/Fs/Inodes.antt =====
-- The inodes of initial-xv6/src/kernel/fs.c: their table and their copies on the disk. The processes that
-- wait for a sleep lock are in Locks.
use cpu_scheduling_algos.Prelude.{
  ℕ, zero, suc, ◌+◌, ◌-◌, ◌*◌, ◌/◌, ◌%◌, ◌==◌, ltb, if◌then◌else◌, Bool, true, false, not, ◌&&◌,
  ◌||◌, Option, none, some, update, find_from, for_from, Outcome, done, panic, ◌>>=◌,
}
use cpu_scheduling_algos.Fs.{Fs, Inode, log_data}

abbrev pub ninode : ℕ
ninode = 50

-- The bytes of a `struct dinode`, and the inodes of a block: IPB.
abbrev pub dinode_size : ℕ
dinode_size = 64

abbrev pub ipb : ℕ
ipb = 16

-- NDIRECT
abbrev pub ndirect : ℕ
ndirect = 12

-- IBLOCK(i, sb)
abbrev pub iblock : ℕ → Fs → ℕ
iblock i fs = i / ipb + fs.sb.inodestart

-- The little-endian number of `n` bytes from `off` on, and its store.
unfoldable pub number_at : ℕ → (ℕ → ℕ) → ℕ → ℕ
number_at zero content off = 0
number_at (suc n) content off = content off % 256 + number_at n content (off + 1) * 256

unfoldable pub set_number : ℕ → ℕ → ℕ → (ℕ → ℕ) → ℕ → ℕ
set_number zero off x content = content
set_number (suc n) off x content = set_number n (off + 1) (x / 256) (update content off (x % 256))

abbrev pub set_inode : ℕ → Inode → Fs → Fs
set_inode i ip fs = record fs { inode = update fs.inode i ip }

-- `*dip = …` with the fields of an inode, `dip` at byte `at` of the block.
unfoldable pub encode : ℕ → Inode → (ℕ → ℕ) → ℕ → ℕ
unfolding set_number for_from
encode at ip content =
    for_from (λ i. set_number 4 (at + 12 + i * 4) (ip.addrs i)) (ndirect + 1) 0
      (set_number 4 (at + 8) ip.size (
        set_number 2 (at + 6) ip.nlink (
          set_number 2 (at + 4) ip.minor
            (set_number 2 (at + 2) ip.major (set_number 2 at ip.type content)))))

-- The fields of an inode from `*dip`.
unfoldable pub decode : ℕ → (ℕ → ℕ) → Inode → Inode
unfolding number_at
decode at content ip = record ip {
  type = number_at 2 content at;
  major = number_at 2 content (at + 2);
  minor = number_at 2 content (at + 4);
  nlink = number_at 2 content (at + 6);
  size = number_at 4 content (at + 8);
  addrs = λ i. number_at 4 content (at + 12 + i * 4);
}

-- `memset(dip, 0, sizeof(*dip)); dip->type = type;`
abbrev pub new_dinode : ℕ → ℕ → (ℕ → ℕ) → ℕ → ℕ
new_dinode at type content =
    set_number 2 at type (for_from (λ i c. update c (at + i) 0) dinode_size 0 content)

-- `ip->ref > 0 && ip->dev == dev && ip->inum == inum`, and `ip->ref == 0`.
abbrev pub names : ℕ → ℕ → Fs → ℕ → Bool
names dev inum fs i = ltb 0 (fs.inode i).ref && (fs.inode i).dev == dev && (fs.inode i).inum == inum

abbrev pub is_empty : Fs → ℕ → Bool
is_empty fs i = (fs.inode i).ref == 0

-- iget(dev, inum)
unfoldable pub iget : ℕ → ℕ → Fs → Outcome (ℕ × Fs)
unfolding find_from
iget dev inum fs = elim (find_from (names dev inum fs) ninode 0) [
  | some i ↦ done (i, set_inode i (record (fs.inode i) { ref = (fs.inode i).ref + 1 }) fs)
  | none ↦ elim (find_from (is_empty fs) ninode 0) [
    | none ↦ panic
    | some i ↦ done (
      i,
      set_inode i (record (fs.inode i) { dev = dev; inum = inum; ref = 1; is_valid = false }) fs,
    )
  ]
]

-- The loop of ialloc: the first inode from `inum` on whose type on the disk is 0.
unfoldable pub ialloc_from : ℕ → ℕ → ℕ → ℕ → Fs → Outcome (Option ℕ × Fs)
unfolding iget set_number for_from number_at
ialloc_from zero inum dev type fs = done (none, fs)
ialloc_from (suc n) inum dev type fs =
    let rest = ialloc_from n (inum + 1) dev type fs in
    let content = fs.block dev (iblock inum fs) in
    let at = inum % ipb * dinode_size in
    if not (number_at 2 content at == 0) then rest else do
      (i, fs') ← iget dev inum (log_data dev (iblock inum fs) (new_dinode at type content) fs)
      done (some i, fs')

-- ialloc(dev, type)
unfoldable pub ialloc : ℕ → ℕ → Fs → Outcome (Option ℕ × Fs)
unfolding ialloc_from
ialloc dev type fs = ialloc_from (fs.sb.ninodes - 1) 1 dev type fs

-- iupdate(ip)
unfoldable pub iupdate : ℕ → Fs → Fs
unfolding encode
iupdate i fs =
    let ip = fs.inode i in
    let b = iblock ip.inum fs in
    log_data ip.dev b (encode (ip.inum % ipb * dinode_size) ip (fs.block ip.dev b)) fs

-- idup(ip)
abbrev pub idup : ℕ → Fs → Fs
idup i fs = set_inode i (record (fs.inode i) { ref = (fs.inode i).ref + 1 }) fs

-- ilock(ip), once acquiresleep() has the lock.
unfoldable pub ilock : ℕ → Fs → Outcome Fs
unfolding decode
ilock i fs =
    let ip = record (fs.inode i) { is_locked = true } in
    let at = ip.inum % ipb * dinode_size in
    let read = record (decode at (fs.block ip.dev (iblock ip.inum fs)) ip) { is_valid = true } in
    if ltb ip.ref 1
    then panic
    else if ip.is_valid
    then done (set_inode i ip fs)
    else if read.type == 0
    then panic
    else done (set_inode i read fs)

-- iunlock(ip)
unfoldable pub iunlock : ℕ → Fs → Outcome Fs
iunlock i fs =
    let ip = fs.inode i in
    if not ip.is_locked || ltb ip.ref 1
    then panic
    else done (set_inode i (record ip { is_locked = false }) fs)
