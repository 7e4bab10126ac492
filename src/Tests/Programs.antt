-- ===== src/Tests/Programs.antt =====
-- The buffer cache, the file system, descriptors, the console and grep at concrete states.
use cpu_scheduling_algos.Prelude.{
  ℕ, ◌+◌, ◌/◌, ◌<◌, ◌≡◌, refl, subst, ◌==◌, ltb, if◌then◌else◌, true, false, ◌&&◌, none, some, List,
  [], ◌∷◌, inl, inr, ◌⊎◌, ◌↔◌, Bool-cases, arith, done, panic, Option, length, find_from,
}
use cpu_scheduling_algos.Prelude.Int.{ℤ, pos}
use cpu_scheduling_algos.Proc.{no_chan}
use cpu_scheduling_algos.Buffers
use cpu_scheduling_algos.Buffers.Unique
use cpu_scheduling_algos.Fs.{Fs, Inode, balloc, balloc_from, bfree, bit_at}
use cpu_scheduling_algos.Fs.Inodes.{iget}
use cpu_scheduling_algos.Fs.Rounds.{in_use, IsReserved}
use cpu_scheduling_algos.Fs.Allocation.{Allocated, balloc_lem, bfree-balloc}
use cpu_scheduling_algos.Fs.Table
use cpu_scheduling_algos.Fs.Paths.{skipelem, is_absolute}
use cpu_scheduling_algos.Fs.Elements.{elements, skipelem_lem}
use cpu_scheduling_algos.Grep.{match}
use cpu_scheduling_algos.Grep.Language.{Matches, match_iff}
use cpu_scheduling_algos.File.{File, Files, fd_none, sys_dup, sys_close}
use cpu_scheduling_algos.File.Counts.{IsCounted}
use cpu_scheduling_algos.File.Descriptors.{descriptors-IsCounted}
use cpu_scheduling_algos.Console.{Cons, consoleintr, consoleread}
use cpu_scheduling_algos.Console.Input.{IsOrdered, console-IsOrdered}
use cpu_scheduling_algos.Tests.World.{queued}

-- Two buffers: the first has block 9 of device 1, the second is unused.
abbrev two_buffers : Buffers.Bcache
two_buffers = record {
  buf = λ i. record {
    is_valid = true;
    dev = 1;
    blockno = if i == 0 then 9 else 8;
    refcnt = if i == 0 then 1 else 0;
    content = λ b. 5;
  };
  order = 0 ∷ 1 ∷ [];
  disk = λ d b i. 6;
}

bread_lem_example :
    ((Buffers.bread 1 7 two_buffers ≡ panic)
      × ((j : ℕ)
          → Unique.listed two_buffers j ≡ true
          → (Buffers.holds two_buffers 1 7 j ≡ false) × (Buffers.is_unused two_buffers j ≡ false)))
    ⊎ ((i : ℕ) × (c' : Buffers.Bcache) × (Buffers.bread 1 7 two_buffers ≡ done (i, c'))
        × Unique.Got two_buffers 1 7 i c')
bread_lem_example = Unique.bread_lem two_buffers 1 7

abbrev no_inode : Inode
no_inode = record {
  dev = 0;
  inum = 0;
  ref = 0;
  is_locked = false;
  is_valid = false;
  type = 0;
  major = 0;
  minor = 0;
  nlink = 0;
  size = 0;
  addrs = λ i. 0;
}

-- A disk of 100 blocks whose first 80 are in use; its map is block 45.
abbrev pub small_disk : Fs
small_disk = record {
  sb = record { size = 100; ninodes = 20; inodestart = 32; bmapstart = 45 };
  block = λ dev b i. if b == 45 && ltb i 10 then 255 else 0;
  logged = [];
  inode = λ i. no_inode;
  outstanding = 1;
}

small_disk-IsReserved : IsReserved small_disk 1
unfolding bit_at
small_disk-IsReserved j lt =
    let z : 0 ≡ j / 8192 = omega arith in subst (λ x. in_use small_disk 1 (x + 45) ≡ true) z refl

balloc_lem_example :
    ((balloc 1 small_disk ≡ (0, small_disk)) × ((j : ℕ) → j < 100 → in_use small_disk 1 j ≡ true))
    ⊎ ((b : ℕ) × (fs' : Fs) × (balloc 1 small_disk ≡ (b, fs'))
        × (0 < b)
        × Allocated small_disk 1 b fs'
        × ((j : ℕ) → j < b → in_use small_disk 1 j ≡ true))
unfolding bit_at
balloc_lem_example = balloc_lem small_disk 1 small_disk-IsReserved refl

abbrev less_room : Fs
less_room = (balloc 1 small_disk).1

first_free : balloc 1 small_disk ≡ (80, less_room)
unfolding balloc balloc_from find_from bit_at
first_free = refl

bfree-balloc_example :
    (fs'' : Fs) × (bfree 1 80 less_room ≡ done fs'')
    × ((j : ℕ) → j < 100 → in_use fs'' 1 j ≡ in_use small_disk 1 j)
bfree-balloc_example =
    bfree-balloc small_disk less_room 1 80 small_disk-IsReserved (omega arith) first_free

-- The table with inode 7 of device 1 in entry 0.
abbrev one_inode : Fs
one_inode = record small_disk {
  inode = λ i.
      if 0 == i then record no_inode { dev = 1; inum = 7; ref = 1; is_valid = false } else no_inode;
}

small_disk-IsUnique : Table.IsUnique small_disk
small_disk-IsUnique i j li lj pi pj d n = absurd (omega arith)

first_entry : iget 1 7 small_disk ≡ done (0, one_inode)
unfolding iget
first_entry = refl

iget-IsUnique_example : Table.IsUnique one_inode
iget-IsUnique_example =
    Table.iget-IsUnique small_disk one_inode 1 7 0 small_disk-IsUnique first_entry

-- "/a//b"
abbrev a_b : List ℕ
a_b = 47 ∷ 97 ∷ 47 ∷ 47 ∷ 98 ∷ []

skipelem_lem_example :
    ((skipelem a_b ≡ none) × (elements a_b ≡ []))
    ⊎ ((rest : List ℕ) × (element : List ℕ) × (skipelem a_b ≡ some (rest, element))
        × (elements a_b ≡ element ∷ elements rest)
        × (length rest < length a_b)
        × (is_absolute rest ≡ false))
skipelem_lem_example = skipelem_lem a_b

both_elements : elements a_b ≡ (97 ∷ []) ∷ (98 ∷ []) ∷ []
both_elements = refl

-- The pattern "a*b" on the text "caab".
match_iff_example :
    (match (97 ∷ 42 ∷ 98 ∷ []) (99 ∷ 97 ∷ 97 ∷ 98 ∷ []) ≡ true)
    ↔ Matches (97 ∷ 42 ∷ 98 ∷ []) (99 ∷ 97 ∷ 97 ∷ 98 ∷ [])
match_iff_example = match_iff (97 ∷ 42 ∷ 98 ∷ []) (99 ∷ 97 ∷ 97 ∷ 98 ∷ [])

-- Descriptor 0 is the one reference to file 3.
abbrev one_open : Files
one_open = record {
  file = λ f. record {
    type = fd_none;
    ref = if 3 == f then 1 else 0;
    readable = true;
    writable = true;
    pipe = 0;
    ip = 0;
    off = 0;
    major = 0;
  };
  ofile = λ i. if i == 0 then some 3 else none;
}

one_open-IsCounted : IsCounted (λ f. 0) one_open
one_open-IsCounted f = elim (Bool-cases (3 == f)) [ inl t ↦ rw t refl | inr e ↦ rw e refl ]

descriptors-IsCounted_example :
    ((r : ℤ) × (s' : Files) × (sys_dup (pos 0) one_open ≡ done (r, s')) × IsCounted (λ f. 0) s')
    × ((r : ℤ) × (ff : Option File) × (s' : Files) × (sys_close (pos 0) one_open ≡ done (r, ff, s'))
        × IsCounted (λ f. 0) s')
descriptors-IsCounted_example = descriptors-IsCounted (λ f. 0) (pos 0) one_open one_open-IsCounted

-- Two characters of a line, with the counters about to wrap.
abbrev two_chars : Cons
two_chars = record { buf = λ i. 97; r = 4294967295; w = 4294967295; e = 1 }

two_chars-IsOrdered : IsOrdered two_chars
two_chars-IsOrdered = record {
  r = omega arith;
  w = omega arith;
  e = omega arith;
  edited = omega arith;
  fits = omega arith;
}

console-IsOrdered_example :
    IsOrdered (consoleintr no_chan none 10 two_chars queued).1
    × IsOrdered (consoleread no_chan (λ i. true) 0 4 two_chars queued).2
console-IsOrdered_example =
    console-IsOrdered no_chan none 10 (λ i. true) 0 4 two_chars queued two_chars-IsOrdered
