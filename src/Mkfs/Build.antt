-- ===== src/Mkfs/Build.antt =====
-- main of initial-xv6/src/mkfs/mkfs.c: the directory and the files of the image.
use cpu_scheduling_algos.Prelude.{
  ℕ, zero, suc, ◌+◌, ◌-◌, ◌*◌, ◌/◌, ◌%◌, ◌==◌, if◌then◌else◌, Bool, true, false, ◌&&◌, List, [],
  ◌∷◌, ◌++◌, any, Outcome, done, panic, ◌>>=◌,
}
use cpu_scheduling_algos.Paging.Copy.{take, drop}
use cpu_scheduling_algos.Fs.{bsize}
use cpu_scheduling_algos.Fs.Inodes.{set_number}
use cpu_scheduling_algos.Mkfs.{
  Image, fssize, ninodes, inodestart, bmapstart, nmeta, wsect, rinode, winode, ialloc, iappend,
  balloc,
}

abbrev pub zeros : ℕ → List ℕ
zeros zero = []
zeros (suc n) = 0 ∷ zeros n

abbrev pub same_text : List ℕ → List ℕ → Bool
same_text [] [] = true
same_text [] (y ∷ ys) = false
same_text (x ∷ xs) [] = false
same_text (x ∷ xs) (y ∷ ys) = x == y && same_text xs ys

-- `strncmp(argv[i], "user/", 5) == 0`
abbrev pub in_user : List ℕ → Bool
in_user path = same_text (take 5 path) (b'u' ∷ b's' ∷ b'e' ∷ b'r' ∷ b'/' ∷ [])

-- The name without a leading `_`.
abbrev pub strip_underscore : List ℕ → List ℕ
strip_underscore [] = []
strip_underscore (c ∷ cs) = if c == b'_' then cs else c ∷ cs

-- The bytes of `de`, whose name strncpy cuts and fills up to DIRSIZ bytes.
abbrev pub dirent : ℕ → List ℕ → List ℕ
dirent inum name = inum % 256 ∷ inum / 256 % 256 ∷ take 14 (name ++ zeros 14)

-- An argument of the tool: its text, and what each read() of that file returns.
pub record HostFile : Type 0 where
  pub path : List ℕ
  pub pieces : List (List ℕ)

-- `while((cc = read(fd, buf, sizeof(buf))) > 0) iappend(inum, buf, cc);`
unfoldable pub append_all : ℕ → List (List ℕ) → Image → Outcome Image
unfolding iappend
append_all inum [] img = done img
append_all inum (p ∷ ps) img = iappend inum p img >>= append_all inum ps

-- The round of main's loop for one argument, and the loop.
unfoldable pub add_file : HostFile → Image → Outcome Image
unfolding ialloc iappend append_all
add_file f img =
    let short = if in_user f.path then drop 5 f.path else f.path in
    let (inum, img1) = ialloc 2 img in
    let added =
      iappend 1 (dirent inum (strip_underscore short)) img1 >>= append_all inum f.pieces in
    if any (λ c. c == b'/') short then panic else added

unfoldable pub add_files : List HostFile → Image → Outcome Image
unfolding add_file
add_files [] img = done img
add_files (f ∷ fs) img = add_file f img >>= add_files fs

-- `sb` in block 1 of an image of zeros.
abbrev pub superblock : (ℕ → ℕ)
superblock = set_number 4 28 bmapstart (
    set_number 4 24 inodestart (
      set_number 4 20 2 (
        set_number 4 16 30 (
          set_number 4 12 ninodes (
            set_number 4 8 (fssize - nmeta)
              (set_number 4 4 fssize (set_number 4 0 270544960 (λ i. 0))))))))

abbrev pub empty_image : Image
empty_image = wsect 1 superblock (record { block = λ b i. 0; freeinode = 1; freeblock = nmeta })

-- `din.size` of the root becomes `((off/BSIZE) + 1) * BSIZE`.
abbrev pub fix_root : Image → Image
fix_root img =
    let din = rinode 1 img in winode 1 (record din { size = (din.size / bsize + 1) * bsize }) img

-- main(argc, argv) for the arguments behind the image.
unfoldable pub main : List HostFile → Outcome Image
unfolding add_files balloc ialloc iappend
main files = do
  let (rootino, img) = ialloc 1 empty_image
  img1 ← iappend rootino (dirent rootino (b'.' ∷ [])) img
  img2 ← iappend rootino (dirent rootino (b'.' ∷ b'.' ∷ [])) img1
  img3 ← add_files files img2
  balloc img3.freeblock (fix_root img3)
