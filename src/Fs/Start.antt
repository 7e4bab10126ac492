-- ===== src/Fs/Start.antt =====
-- readsb and fsinit in initial-xv6/src/kernel/fs.c.
use cpu_scheduling_algos.Prelude.{ℕ, ◌==◌, if◌then◌else◌, Outcome, done, panic}
use cpu_scheduling_algos.Log.{Log, Store, initlog}
use cpu_scheduling_algos.Fs.{Fs, SuperBlock}
use cpu_scheduling_algos.Fs.Inodes.{number_at}

abbrev pub fsmagic : ℕ
fsmagic = 270544960

-- readsb(dev, sb): the fields that fs.c reads later.
unfoldable pub readsb : (ℕ → ℕ) → SuperBlock
unfolding number_at
readsb content = record {
  size = number_at 4 content 4;
  ninodes = number_at 4 content 12;
  inodestart = number_at 4 content 24;
  bmapstart = number_at 4 content 28;
}

-- fsinit(dev), with the log and the disk that initlog() works on.
unfoldable pub fsinit : ℕ → Fs → Log → Store → Outcome (Fs × Log × Store)
unfolding readsb number_at initlog
fsinit dev fs l s =
    let content = fs.block dev 1 in
    let (l', s') = initlog (number_at 4 content 20) (number_at 4 content 16) l s in
    if number_at 4 content 0 == fsmagic
    then done (record fs { sb = readsb content }, l', s')
    else panic
