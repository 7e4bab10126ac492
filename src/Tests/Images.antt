-- ===== src/Tests/Images.antt =====
-- Loading a program, and the free map of a disk image, at concrete arguments.
use cpu_scheduling_algos.Prelude.{
  ℕ, ◌≡◌, ◌↔◌, refl, true, some, List, [], ◌∷◌, arith, done, ltb, ◌<◌, for_from,
}
use cpu_scheduling_algos.Fs.{Fs, mark, bpb}
use cpu_scheduling_algos.Fs.Rounds.{in_use, IsReserved}
use cpu_scheduling_algos.Mkfs.{Image, fssize, bmapstart, wsect, balloc}
use cpu_scheduling_algos.Mkfs.Build.{empty_image}
use cpu_scheduling_algos.Mkfs.Freemap.{balloc-IsReserved}
use cpu_scheduling_algos.Exec.{flags2perm}
use cpu_scheduling_algos.Exec.Image.{push_args, push_array, exec, room, last_part}
use cpu_scheduling_algos.Exec.Stack.{Built, push_array-InStack}
use cpu_scheduling_algos.Exec.Refusal.{Leaves, Execed, exec_lem}
use cpu_scheduling_algos.Tests.World.{queued, easy_vm, two_pages}
use cpu_scheduling_algos.Tests.Programs.{small_disk}

-- `ls -l`
abbrev ls : List (List ℕ)
ls = (b'l' ∷ b's' ∷ []) ∷ (b'-' ∷ b'l' ∷ []) ∷ []

push_array-InStack_example :
    Built
      (λ t va bytes m. (true, m))
      8192
      12288
      2
      (push_array
        (λ t va bytes m. (true, m))
        4096
        8192
        (push_args (λ t va bytes m. (true, m)) 4096 8192 ls 0 12288 two_pages))
push_array-InStack_example =
    push_array-InStack (λ t va bytes m. (true, m)) 4096 8192 ls two_pages (omega arith) refl
      (omega arith) (omega arith, (omega arith, tt))

-- The two strings and their three pointers.
stack_of_ls :
    push_array
      (λ t va bytes m. (true, m))
      4096
      8192
      (push_args (λ t va bytes m. (true, m)) 4096 8192 ls 0 12288 two_pages)
    ≡ (some 12224, two_pages)
unfolding push_array push_args room
stack_of_ls = refl

exec_lem_example :
    Leaves
      (Execed easy_vm
        (λ t old new perm m. done (new, m))
        (λ t va bytes m. (true, m))
        1
        4096
        (b'/' ∷ b'l' ∷ b's' ∷ [])
        ls
        queued)
      (exec easy_vm
        (λ t old new perm m. done (new, m))
        (λ t va bytes m. (true, m))
        1
        4096
        0
        (b'/' ∷ b'l' ∷ b's' ∷ [])
        ls
        small_disk
        queued)
exec_lem_example =
    exec_lem easy_vm (λ t old new perm m. done (new, m)) (λ t va bytes m. (true, m)) 1 4096
      (b'/' ∷ b'l' ∷ b's' ∷ []) ls queued 0 small_disk

name_of_ls : last_part (b'/' ∷ b'l' ∷ b's' ∷ []) (b'/' ∷ b'l' ∷ b's' ∷ []) ≡ b'l' ∷ b's' ∷ []
unfolding last_part
name_of_ls = refl

executable_and_writable : flags2perm 7 ≡ 12
unfolding flags2perm
executable_and_writable = refl

-- The image with its first 50 blocks in use, on device 1.
abbrev mapped : Image
mapped = wsect bmapstart (for_from (λ i c. mark true i c) 50 0 (λ i. 0)) empty_image

abbrev mounted : Fs
mounted = record small_disk {
  sb = record { size = fssize; ninodes = 200; inodestart = 32; bmapstart = bmapstart };
  block = λ dev. mapped.block;
}

balloc-mapped : balloc 50 empty_image ≡ done mapped
unfolding balloc
balloc-mapped = refl

balloc-IsReserved_example :
    ((j : ℕ) → j < bpb → in_use mounted 1 j ≡ ltb j 50) × (IsReserved mounted 1 ↔ bmapstart < 50)
balloc-IsReserved_example =
    balloc-IsReserved 50 1 empty_image mapped mounted balloc-mapped refl refl refl
