-- ===== src/Exec/Stack.antt =====
-- The user stack that exec() of initial-xv6/src/kernel/exec.c builds.
use cpu_scheduling_algos.Prelude.{
  ℕ, suc, ◌+◌, ◌-◌, ◌*◌, ◌%◌, ◌^◌, ◌≤◌, ◌<◌, ◌≡◌, refl, subst, ltb, if◌then◌else◌, Bool, true,
  false, Option, none, some, List, [], ◌∷◌, ◌++◌, length, arith, Bool-cases, Option-cases, inl, inr,
}
use cpu_scheduling_algos.Kalloc.{Memory, page_size}
use cpu_scheduling_algos.Exec.{maxarg}
use cpu_scheduling_algos.Exec.Image.{room, push, push_args, push_array, words_of}

-- An address in the stack page that starts at `base`, aligned to 16 bytes.
abbrev pub InStack : ℕ → ℕ → ℕ → Type 0
InStack base top sp = (base ≤ sp) × (sp ≤ top) × (sp % 16 ≡ 0)

abbrev pub AllInStack : ℕ → ℕ → List ℕ → Type 0
AllInStack base top [] = Unit
AllInStack base top (x ∷ xs) = InStack base top x × AllInStack base top xs

-- Strings that fit in a page with their NUL, as sys_exec reads them.
abbrev pub FitPage : List (List ℕ) → Type 0
FitPage [] = Unit
FitPage (s ∷ ss) = (length s < page_size) × FitPage ss

-- There is room for `n` bytes at the address.
abbrev Room : ℕ → ℕ → ℕ → Option ℕ → Type 0
Room base n top none = Unit
Room base n top (some sp) = InStack base top sp × (sp + n ≤ top)

room-Room : (base n sp : ℕ) → n ≤ sp → sp < 2 ^ 64 → Room base n sp (room base n sp)
unfolding room
room-Room base n sp hn hs =
    let below = (sp + 2 ^ 64 - n) % 2 ^ 64 in
    let low : below + n ≡ sp = omega (arith, hn, hs) in
    elim (Bool-cases (ltb (below - below % 16) base)) [
      | inl e ↦ rw e tt
      | inr e ↦ rw e ((ground (arith, e), omega (arith, low), omega arith), omega (arith, low))
    ]

-- The outcome of pushing `n` strings below `top`, the first of them number `argc`.
abbrev Pushed : ℕ → ℕ → ℕ → ℕ → Option (List ℕ × ℕ) × Memory → Type 0
Pushed base top argc n (none, m) = Unit
Pushed base top argc n (some (ustack, sp), m) =
    (length ustack ≡ n) × (argc + n ≤ maxarg) × InStack base top sp × AllInStack base top ustack

InStack-lower : (base low top x : ℕ) → low ≤ top → InStack base low x → InStack base top x
InStack-lower base low top x h i = (i.0, omega (arith, h, i.1), i.2)

AllInStack-lower :
    (base low top : ℕ) (xs : List ℕ) → low ≤ top → AllInStack base low xs → AllInStack base top xs
AllInStack-lower base low top [] h i = tt
AllInStack-lower base low top (x ∷ xs) h i =
    (InStack-lower base low top x h i.0, AllInStack-lower base low top xs h i.1)

push-Pushed :
    (base low top argc n : ℕ) (r : Option (List ℕ × ℕ) × Memory)
    → InStack base top low
    → Pushed base low (argc + 1) n r
    → Pushed base top argc (suc n) (push low r)
push-Pushed base low top argc n (none, m) h p = tt
push-Pushed base low top argc n (some (ustack, sp), m) h p = (
  omega (arith, p.0),
  omega (arith, p.1),
  InStack-lower base low top sp h.1 p.2,
  (h, AllInStack-lower base low top ustack h.1 p.3),
)

Pushed-if :
    (base top argc n : ℕ) (b : Bool) (x y : Option (List ℕ × ℕ) × Memory)
    → Pushed base top argc n x
    → Pushed base top argc n y
    → Pushed base top argc n (if b then x else y)
Pushed-if base top argc n true x y hx hy = hx
Pushed-if base top argc n false x y hx hy = hy

module _ (copyout : ℕ → ℕ → List ℕ → Memory → Bool × Memory) where
  push_args-Pushed :
      (table base : ℕ) (args : List (List ℕ)) (argc sp : ℕ) (m : Memory)
      → page_size ≤ base
      → InStack base sp sp
      → sp < 2 ^ 64
      → argc ≤ maxarg
      → FitPage args
      → Pushed base sp argc (length args) (push_args copyout table base args argc sp m)
  unfolding push_args
  push_args-Pushed table base [] argc sp m hb hi hs ha hf = (refl, omega (arith, ha), hi, tt)
  push_args-Pushed table base (s ∷ ss) argc sp m hb hi hs ha hf =
      elim (Option-cases (room base (length s + 1) sp)) [
        | inl e ↦ rw (e, push_args) tt
        | inr (low, e) ↦
            let h =
              subst (Room base (length s + 1) sp) e
                (room-Room base (length s + 1) sp (omega (arith, hb, hi.0, hf.0)) hs) in
            let m' = (copyout table low (s ++ 0 ∷ []) m).1 in
            elim (Bool-cases (ltb argc maxarg)) [
              | inl lt ↦
                  rw (e, push_args, lt)
                    (Pushed-if base sp argc (suc (length ss)) (copyout table low (s ++ 0 ∷ []) m).0
                      (push low (push_args copyout table base ss (argc + 1) low m')) (none, m')
                      (push-Pushed base low sp argc (length ss)
                        (push_args copyout table base ss (argc + 1) low m') h.0
                        (push_args-Pushed table base ss (argc + 1) low m' hb
                          (h.0.0, omega arith, h.0.2) (omega (arith, h.0.1, hs))
                          (ground (arith, lt)) hf.1))
                      tt)
              | inr ge ↦ rw (e, push_args, ge) tt
            ]
      ]

  -- The stack pointer at the end, with the array of pointers above it.
  abbrev pub Built : ℕ → ℕ → ℕ → Option ℕ × Memory → Type 0
  Built base top n (none, m) = Unit
  Built base top n (some sp, m) = InStack base top sp × (sp + (n + 1) * 8 ≤ top)

  push_array-Built :
      (table base top n : ℕ) (r : Option (List ℕ × ℕ) × Memory)
      → page_size ≤ base
      → top < 2 ^ 64
      → Pushed base top 0 n r
      → Built base top n (push_array copyout table base r)
  unfolding push_array
  push_array-Built table base top n (none, m) hb ht p = tt
  push_array-Built table base top n (some (ustack, sp), m) hb ht p =
      elim (Option-cases (room base ((length ustack + 1) * 8) sp)) [
        | inl e ↦ rw (e, push_array) tt
        | inr (low, e) ↦
            let h = subst (Room base ((length ustack + 1) * 8) sp) e (
              room-Room base ((length ustack + 1) * 8) sp (omega (arith, hb, p.0, p.1, p.2.0))
                (omega (arith, ht, p.2.1))) in
            let copied = (copyout table low (words_of (ustack ++ 0 ∷ [])) m).0 in
            elim (Bool-cases copied) [
              | inl c ↦
                  rw (e, push_array, c)
                    (InStack-lower base sp top low p.2.1 h.0, omega (arith, h.1, p.0, p.2.1))
              | inr c ↦ rw (e, push_array, c) tt
            ]
      ]

  -- exec builds its stack in one page: if it gets to the end, the stack pointer that it gives the program is aligned
  -- to 16 bytes and not below that page, and the array of pointers above it does not reach beyond the page. It holds
  -- whatever copyout does, if the arguments are strings that fit in a page with their NUL, and the page is not the
  -- first one of the address space, is aligned to 16 bytes and ends below 2^64.
  pub push_array-InStack :
      (table base : ℕ) (args : List (List ℕ)) (m : Memory)
      → page_size ≤ base
      → base % 16 ≡ 0
      → base + page_size < 2 ^ 64
      → FitPage args
      → Built base
          (base + page_size)
          (length args)
          (push_array copyout table base (push_args copyout table base args 0 (base + page_size) m))
  push_array-InStack table base args m hb h16 ht hf =
      push_array-Built table base (base + page_size) (length args)
        (push_args copyout table base args 0 (base + page_size) m) hb ht
        (push_args-Pushed table base args 0 (base + page_size) m hb
          (omega arith, omega arith, omega (arith, h16)) ht (omega arith) hf)
