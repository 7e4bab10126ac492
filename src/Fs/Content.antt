-- ===== src/Fs/Content.antt =====
-- The content of inodes in initial-xv6/src/kernel/fs.c, and the freeing of those that nobody names.
use cpu_scheduling_algos.Prelude.{
  ℕ, zero, suc, ◌+◌, ◌-◌, ◌*◌, ◌/◌, ◌%◌, ◌==◌, ltb, if◌then◌else◌, Bool, false, ◌&&◌, ◌||◌, List,
  [], ◌∷◌, update, window, Outcome, done, panic, ◌>>=◌,
}
use cpu_scheduling_algos.Fs.{Fs, Inode, bsize, log_data, balloc, bfree}
use cpu_scheduling_algos.Fs.Inodes.{ndirect, number_at, set_number, set_inode, iupdate, iunlock}

-- NINDIRECT
abbrev pub nindirect : ℕ
nindirect = 256

-- MAXFILE * BSIZE
abbrev pub max_bytes : ℕ
max_bytes = 274432

-- `ip->addrs[n] = addr`
abbrev pub set_addr : ℕ → ℕ → ℕ → Fs → Fs
set_addr i n addr fs =
    set_inode i (record (fs.inode i) { addrs = update (fs.inode i).addrs n addr }) fs

-- `if((addr = ip->addrs[n]) == 0){ addr = balloc(ip->dev); if(addr == 0) return 0; ip->addrs[n] = addr; }`
unfoldable pub addr_at : ℕ → ℕ → Fs → ℕ × Fs
addr_at i n fs =
    let ip = fs.inode i in
    let (addr, fs') = balloc ip.dev fs in
    if ip.addrs n == 0
    then if addr == 0 then (0, fs') else (addr, set_addr i n addr fs')
    else (ip.addrs n, fs)

-- bmap(ip, bn) for entry `n` of the indirect block `table`: `a = (uint*)bp->data; …`
unfoldable pub indirect : ℕ → ℕ → ℕ → Fs → ℕ × Fs
indirect i table n fs =
    let dev = (fs.inode i).dev in
    let addr = number_at 4 (fs.block dev table) (n * 4) in
    let (new, fs') = balloc dev fs in
    if addr == 0
    then if new == 0
      then (0, fs')
      else (new, log_data dev table (set_number 4 (n * 4) new (fs'.block dev table)) fs')
    else (addr, fs)

-- bmap(ip, bn)
unfoldable pub bmap : ℕ → ℕ → Fs → Outcome (ℕ × Fs)
bmap i bn fs =
    let (table, fs') = addr_at i ndirect fs in
    if ltb bn ndirect
    then done (addr_at i bn fs)
    else if ltb (bn - ndirect) nindirect
    then done (if table == 0 then (0, fs') else indirect i table (bn - ndirect) fs')
    else panic

-- The first loop of itrunc, with `n` addresses from `k` on.
unfoldable pub free_direct : ℕ → ℕ → ℕ → Fs → Outcome Fs
free_direct zero k i fs = done fs
free_direct (suc n) k i fs =
    let ip = fs.inode i in
    if ip.addrs k == 0
    then free_direct n (k + 1) i fs
    else do fs' ← bfree ip.dev (ip.addrs k) fs; free_direct n (k + 1) i (set_addr i k 0 fs')

-- The loop over the indirect block `table`.
unfoldable pub free_indirect : ℕ → ℕ → ℕ → ℕ → Fs → Outcome Fs
free_indirect zero j dev table fs = done fs
free_indirect (suc n) j dev table fs =
    let addr = number_at 4 (fs.block dev table) (j * 4) in
    if addr == 0
    then free_indirect n (j + 1) dev table fs
    else do fs' ← bfree dev addr fs; free_indirect n (j + 1) dev table fs'

-- `if(ip->addrs[NDIRECT]){ … }`
unfoldable pub free_table : ℕ → Fs → Outcome Fs
free_table i fs =
    let ip = fs.inode i in
    let table = ip.addrs ndirect in
    if table == 0 then done fs else do
      fs1 ← free_indirect nindirect 0 ip.dev table fs
      fs2 ← bfree ip.dev table fs1
      done (set_addr i ndirect 0 fs2)

-- itrunc(ip)
unfoldable pub itrunc : ℕ → Fs → Outcome Fs
itrunc i fs = do
  fs1 ← free_direct ndirect 0 i fs
  fs2 ← free_table i fs1
  done (iupdate i (set_inode i (record (fs2.inode i) { size = 0 }) fs2))

-- `itrunc(ip); ip->type = 0; iupdate(ip); ip->valid = 0;`
unfoldable pub erase : ℕ → Fs → Outcome Fs
erase i fs = do
  fs1 ← itrunc i fs
  let fs2 = iupdate i (set_inode i (record (fs1.inode i) { type = 0 }) fs1)
  done (set_inode i (record (fs2.inode i) { is_valid = false }) fs2)

abbrev pub drop_ref : ℕ → Fs → Fs
drop_ref i fs = set_inode i (record (fs.inode i) { ref = (fs.inode i).ref - 1 }) fs

-- iput(ip) of an inode with a reference.
unfoldable pub iput : ℕ → Fs → Outcome Fs
iput i fs =
    let ip = fs.inode i in
    do
      fs' ← if ip.ref == 1 && ip.is_valid && ip.nlink == 0 then erase i fs else done fs
      done (drop_ref i fs')

-- iunlockput(ip)
unfoldable pub iunlockput : ℕ → Fs → Outcome Fs
iunlockput i fs = do fs' ← iunlock i fs; iput i fs'

-- `struct stat` and stati(ip, st).
pub record Stat : Type 0 where
  pub dev : ℕ
  pub ino : ℕ
  pub type : ℕ
  pub nlink : ℕ
  pub size : ℕ

abbrev pub stati : Inode → Stat
stati ip = record { dev = ip.dev; ino = ip.inum; type = ip.type; nlink = ip.nlink; size = ip.size }

-- `min(n - tot, BSIZE - off%BSIZE)` with `left` for `n - tot`.
abbrev pub piece : ℕ → ℕ → ℕ
piece left off = if ltb left (bsize - off % bsize) then left else bsize - off % bsize

-- What a transfer returns for `tot = -1`.
abbrev pub minus_one : ℕ
minus_one = 4294967295

-- The loop of readi, `left` bytes before its end and `tot` bytes behind its start. `out` is either_copyout()
-- to the destination `dst`, on the state `w` that it changes.
unfoldable pub read_loop {ℓ} :
    {W : Type ℓ} (out : ℕ → List ℕ → W → Bool × W)
    → ℕ
    → ℕ
    → ℕ
    → ℕ
    → ℕ
    → ℕ
    → Fs
    → W
    → Outcome (ℕ × Fs × W)
read_loop out zero i dst off left tot fs w = done (tot, fs, w)
read_loop out (suc fuel) i dst off left tot fs w =
    let m = piece left off in
    if left == 0 then done (tot, fs, w) else do
      (addr, fs') ← bmap i (off / bsize) fs
      let (ok, w') = out dst (window (fs'.block (fs'.inode i).dev addr) (off % bsize) m) w
      if addr == 0
          then done (tot, fs', w)
          else if ok
          then read_loop out fuel i (dst + m) (off + m) (left - m) (tot + m) fs' w'
          else done (minus_one, fs', w')

-- readi(ip, user_dst, dst, off, n), whose offsets are 32-bit.
unfoldable pub readi {ℓ} :
    {W : Type ℓ} (out : ℕ → List ℕ → W → Bool × W) → ℕ → ℕ → ℕ → ℕ → Fs → W → Outcome (ℕ × Fs × W)
readi out i dst off n fs w =
    let size = (fs.inode i).size in
    let end = (off + n) % 4294967296 in
    let count = if ltb size end then size - off else n in
    if ltb size off || ltb end off
    then done (0, fs, w)
    else read_loop out count i dst off count 0 fs w

-- `content[off .. off + length xs) = xs`
abbrev pub store : ℕ → List ℕ → (ℕ → ℕ) → ℕ → ℕ
store off [] content = content
store off (x ∷ xs) content = store (off + 1) xs (update content off x)

-- The loop of writei; it gives the last offset too. `inp` is either_copyin() of `m` bytes from `src`: the
-- bytes it copied, all of them if it succeeded.
unfoldable pub write_loop :
    (inp : ℕ → ℕ → Bool × List ℕ) → ℕ → ℕ → ℕ → ℕ → ℕ → ℕ → Fs → Outcome (ℕ × ℕ × Fs)
write_loop inp zero i src off left tot fs = done (tot, off, fs)
write_loop inp (suc fuel) i src off left tot fs =
    let m = piece left off in
    let (ok, bytes) = inp src m in
    if left == 0 then done (tot, off, fs) else do
      (addr, fs') ← bmap i (off / bsize) fs
      let dev = (fs'.inode i).dev
      let content = store (off % bsize) bytes (fs'.block dev addr)
      if addr == 0
          then done (tot, off, fs')
          else if ok
          then write_loop inp fuel i (src + m) (off + m) (left - m) (tot + m)
              (log_data dev addr content fs')
          else done (
            tot,
            off,
            record fs' { block = update fs'.block dev (update (fs'.block dev) addr content) },
          )

-- writei(ip, user_src, src, off, n)
unfoldable pub writei : (inp : ℕ → ℕ → Bool × List ℕ) → ℕ → ℕ → ℕ → ℕ → Fs → Outcome (ℕ × Fs)
writei inp i src off n fs =
    let size = (fs.inode i).size in
    let end = (off + n) % 4294967296 in
    if ltb size off || ltb end off || ltb max_bytes end then done (minus_one, fs) else do
      (tot, last, fs') ← write_loop inp n i src off n 0 fs
      let ip = fs'.inode i
      let grown = if ltb ip.size last then set_inode i (record ip { size = last }) fs' else fs'
      done (tot, iupdate i grown)
