-- ===== src/Sysproc/Counts.antt =====
-- sys_getSysCount of sysproc.c: the counter that a mask selects.
use cpu_scheduling_algos.Prelude.{
  ℕ, ◌<◌, ◌≡◌, ◌%◌, ◌^◌, ◌∙◌, true, false, none, some, arith, Option-cases, find_from,
  find_from-some, find_from_least, find_from-none, ◌⊎◌, inl, inr, done,
}
use cpu_scheduling_algos.Prelude.Int.{pos, negsuc}
use cpu_scheduling_algos.Proc.Frame
use cpu_scheduling_algos.Proc.{Kernel}
use cpu_scheduling_algos.Sysproc.Number
use cpu_scheduling_algos.Sysproc.{bit_set, syscall_index, sys_get_sys_count, argraw, count_call}

-- The lowest set bit of a mask.
pub record Selects (mask i : ℕ) : Type 0 where
  pub inside : i < 32
  pub set : bit_set mask i ≡ true
  pub lowest : (j : ℕ) → j < i → bit_set mask j ≡ false

get_sys_count_at :
    (k : Kernel) (p frame : ℕ)
    → (k.procs p).trapframe ≡ some frame
    → (sys_get_sys_count p k
        ≡ done (elim (syscall_index (k.memory.words frame Frame.a0 % 2 ^ 32)) [
          | none ↦ (negsuc 0, count_call Number.get_sys_count p k)
          | some i ↦ (
            pos (((count_call Number.get_sys_count p k).procs p).syscall_count i),
            count_call Number.get_sys_count p k,
          )
        ]))
unfolding sys_get_sys_count argraw count_call
get_sys_count_at k p frame h = ground (arith, h)

-- No bit of the mask is set.
abbrev pub NoBit : ℕ → Type 0
NoBit mask = (j : ℕ) → j < 32 → bit_set mask j ≡ false

-- sys_getSysCount counts itself, and then returns the counter of the lowest bit that is set among
-- the 32 bits of its first argument, or -1 if none is; it changes nothing else.
pub get_sys_count_lem :
    (k : Kernel) (p frame : ℕ)
    → (k.procs p).trapframe ≡ some frame
    → let mask = k.memory.words frame Frame.a0 % 2 ^ 32 in
      let counted = count_call Number.get_sys_count p k in
      ((i : ℕ) × Selects mask i
        × (sys_get_sys_count p k ≡ done (pos ((counted.procs p).syscall_count i), counted)))
      ⊎ (NoBit mask × (sys_get_sys_count p k ≡ done (negsuc 0, counted)))
unfolding syscall_index
get_sys_count_lem k p frame h =
    let mask : ℕ = k.memory.words frame Frame.a0 % 2 ^ 32 in
    elim (Option-cases (find_from (bit_set mask) 32 0)) [
      | inl e ↦ inr (
        λ j lt. find_from-none (bit_set mask) 32 0 j e (omega arith) (omega arith),
        get_sys_count_at k p frame h ∙ rw e,
      )
      | inr (i, e) ↦
          let (t, lo, hi) = find_from-some (bit_set mask) 32 0 i e in
          inl (
            i,
            record {
              inside = omega arith;
              set = t;
              lowest = λ j lt. find_from_least (bit_set mask) 32 0 i j e (omega arith) lt;
            },
            get_sys_count_at k p frame h ∙ rw e,
          )
    ]
