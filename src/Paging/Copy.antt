-- ===== src/Paging/Copy.antt =====
-- Copies between the kernel and user memory in initial-xv6/src/kernel/vm.c: copyout, copyin, copyinstr; and
-- uvmfirst, which copies the first program.
use cpu_scheduling_algos.Prelude.{
  ℕ, zero, suc, ◌+◌, ◌-◌, ◌*◌, ◌/◌, ◌%◌, ◌^◌, ◌==◌, ltb, leb, if◌then◌else◌, Bool, true, false,
  Option, none, some, Option, List, [], ◌∷◌, ◌++◌, length, update, Outcome, done, panic, ◌>>=◌,
}
use cpu_scheduling_algos.Kalloc.{Memory, page_size, fill_page, kalloc}
use cpu_scheduling_algos.Trap.{page_of}
use cpu_scheduling_algos.Paging.{round_down, walkaddr, mappages}

-- Byte `off` of a page: words are little-endian.
abbrev pub byte_at : Memory → ℕ → ℕ → ℕ
byte_at m page off = m.words page (off / 8) / 256 ^ (off % 8) % 256

-- `page[off] = b`
abbrev pub set_byte : ℕ → ℕ → ℕ → Memory → Memory
set_byte page off b m =
    let w = m.words page (off / 8) in
    let unit = 256 ^ (off % 8) in
    let w' = w / (unit * 256) * (unit * 256) + b * unit + w % unit in
    record m { words = update m.words page (update (m.words page) (off / 8) w') }

-- `memmove(page + off, bytes, n)` for bytes that fit in the page.
unfoldable pub set_bytes : ℕ → ℕ → List ℕ → Memory → Memory
set_bytes page off [] m = m
set_bytes page off (b ∷ bs) m = set_bytes page (off + 1) bs (set_byte page off (b % 256) m)

unfoldable pub get_bytes : Memory → ℕ → ℕ → ℕ → List ℕ
get_bytes m page off zero = []
get_bytes m page off (suc n) = byte_at m page off ∷ get_bytes m page (off + 1) n

abbrev pub take {ℓ} : {A : Type ℓ} → ℕ → List A → List A
take zero xs = []
take (suc n) [] = []
take (suc n) (x ∷ xs) = x ∷ take n xs

abbrev pub drop {ℓ} : {A : Type ℓ} → ℕ → List A → List A
drop zero xs = xs
drop (suc n) [] = []
drop (suc n) (x ∷ xs) = drop n xs

-- The bytes that a round moves: up to the end of the page, or all that are left.
abbrev pub chunk : ℕ → ℕ → ℕ
chunk va len = let room = page_size - (va - round_down va) in if ltb len room then len else room

-- The loop of copyout with the bytes that are left; each round moves one byte or more.
unfoldable pub copy_out : ℕ → ℕ → ℕ → List ℕ → Memory → Bool × Memory
unfolding walkaddr set_bytes
copy_out fuel table dst [] m = (true, m)
copy_out zero table dst (b ∷ bs) m = (false, m)
copy_out (suc fuel) table dst (b ∷ bs) m =
    let va0 = round_down dst in
    let n = chunk dst (length (b ∷ bs)) in
    elim (walkaddr table va0 m) [
      | none ↦ (false, m)
      | some pa ↦
          copy_out fuel table (va0 + page_size) (drop n (b ∷ bs))
            (set_bytes pa (dst - va0) (take n (b ∷ bs)) m)
    ]

-- copyout(pagetable, dstva, src, len): `true` for 0.
unfoldable pub copyout : ℕ → ℕ → List ℕ → Memory → Bool × Memory
unfolding copy_out
copyout table dstva src m = copy_out (length src) table dstva src m

-- The loop of copyin with `len` bytes left: the bytes, none for -1.
unfoldable pub copy_in : ℕ → ℕ → ℕ → ℕ → Memory → Option (List ℕ)
unfolding walkaddr get_bytes
copy_in fuel table src zero m = some []
copy_in zero table src (suc len) m = none
copy_in (suc fuel) table src (suc len) m =
    let va0 = round_down src in
    let n = chunk src (suc len) in
    elim (walkaddr table va0 m) [
      | none ↦ none
      | some pa ↦ elim (copy_in fuel table (va0 + page_size) (suc len - n) m) [
        | none ↦ none
        | some rest ↦ some (get_bytes m pa (src - va0) n ++ rest)
      ]
    ]

-- copyin(pagetable, dst, srcva, len)
unfoldable pub copyin : ℕ → ℕ → ℕ → Memory → Option (List ℕ)
unfolding copy_in
copyin table srcva len m = copy_in len table srcva len m

-- The bytes before the NUL in a list, none if there is no NUL.
abbrev pub to_nul : List ℕ → Option (List ℕ)
to_nul [] = none
to_nul (b ∷ bs) =
    if b == 0 then some [] else elim (to_nul bs) [ none ↦ none | some s ↦ some (b ∷ s) ]

-- The loop of copyinstr with room for `max` bytes: the text, none for -1.
unfoldable pub copy_text : ℕ → ℕ → ℕ → ℕ → Memory → Option (List ℕ)
unfolding walkaddr get_bytes
copy_text fuel table src zero m = none
copy_text zero table src (suc max) m = none
copy_text (suc fuel) table src (suc max) m =
    let va0 = round_down src in
    let n = chunk src (suc max) in
    elim (walkaddr table va0 m) [
      | none ↦ none
      | some pa ↦
          let here = get_bytes m pa (src - va0) n in
          elim (to_nul here) [
            | some s ↦ some s
            | none ↦ elim (copy_text fuel table (va0 + page_size) (suc max - n) m) [
              | none ↦ none
              | some rest ↦ some (here ++ rest)
            ]
          ]
    ]

-- copyinstr(pagetable, dst, srcva, max)
unfoldable pub copyinstr : ℕ → ℕ → ℕ → Memory → Option (List ℕ)
unfolding copy_text
copyinstr table srcva max m = copy_text max table srcva max m

-- uvmfirst(pagetable, src, sz); PTE_W | PTE_R | PTE_X | PTE_U is 30. Writing to a null page stops the
-- machine; the result of mappages is not looked at.
unfoldable pub uvmfirst : ℕ → List ℕ → Memory → Outcome Memory
unfolding kalloc mappages set_bytes
uvmfirst table src m =
    let (page, m1) = kalloc m in
    if leb page_size (length src) then panic else (do
      mem ← page_of page
      (mapped, m2) ← mappages table 0 page_size mem 30 (fill_page mem 0 m1)
      done (set_bytes mem 0 src m2))
