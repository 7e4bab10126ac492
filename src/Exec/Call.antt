-- ===== src/Exec/Call.antt =====
-- sys_exec of initial-xv6/src/kernel/sysfile.c.
use cpu_scheduling_algos.Prelude.{
  ℕ, zero, suc, ◌+◌, ◌*◌, ◌%◌, ◌^◌, ◌==◌, if◌then◌else◌, Bool, true, false, none, some, List, [],
  ◌∷◌, ◌++◌, map, Outcome, done, ◌>>=◌,
}
use cpu_scheduling_algos.Prelude.Int.{ℤ, negsuc}
use cpu_scheduling_algos.Kalloc.{Memory, page_size, kalloc, kfree}
use cpu_scheduling_algos.Vm.{Vm}
use cpu_scheduling_algos.Proc.{Kernel}
use cpu_scheduling_algos.Trap.{page_of}
use cpu_scheduling_algos.Paging.Copy.{set_bytes}
use cpu_scheduling_algos.Sysproc.{argraw, count_call}
use cpu_scheduling_algos.Sysproc.Number
use cpu_scheduling_algos.Syscalls.{fetchaddr, fetchstr, argstr}
use cpu_scheduling_algos.Fs.{Fs}
use cpu_scheduling_algos.Exec.{maxarg}
use cpu_scheduling_algos.Exec.Image.{exec}

-- MAXPATH
abbrev pub maxpath : ℕ
maxpath = 128

-- An element of `argv`: its page, and the string in it.
abbrev pub Arg : Type 0
Arg = ℕ × List ℕ

abbrev pub with_arg : Arg → Bool × List Arg × Memory → Bool × List Arg × Memory
with_arg a (fetched, args, m) = (fetched, a ∷ args, m)

-- The loop that fetches the arguments, at `i`: whether it came to the null pointer, and the elements of `argv`
-- from there on. What a fetchstr that fails has written to its page is lost when the page is freed.
unfoldable pub fetch_args : ℕ → ℕ → ℕ → ℕ → ℕ → Memory → Bool × List Arg × Memory
unfolding fetchaddr fetchstr kalloc
fetch_args zero table sz uargv i m = (false, [], m)
fetch_args (suc fuel) table sz uargv i m = elim (fetchaddr table sz ((uargv + 8 * i) % 2 ^ 64) m) [
  | none ↦ (false, [], m)
  | some uarg ↦
      let (page, m1) = kalloc m in
      if uarg == 0 then (true, [], m) else elim page [
        | none ↦ (false, [], m1)
        | some pa ↦ elim (fetchstr table uarg page_size m1) [
          | none ↦ (false, (pa, []) ∷ [], m1)
          | some s ↦
              with_arg (pa, s)
                (fetch_args fuel table sz uargv (i + 1) (set_bytes pa 0 (s ++ 0 ∷ []) m1))
        ]
      ]
]

-- `for(i = 0; i < NELEM(argv) && argv[i] != 0; i++) kfree(argv[i]);`
unfoldable pub free_args : ℕ → List Arg → Memory → Outcome Memory
free_args kernel_end [] m = done m
free_args kernel_end ((pa, s) ∷ args) m = kfree kernel_end pa m >>= free_args kernel_end args

module _ (vm : Vm) (uvmalloc : ℕ → ℕ → ℕ → ℕ → Memory → Outcome (ℕ × Memory))
    (copyout : ℕ → ℕ → List ℕ → Memory → Bool × Memory) where
  unfoldable pub sys_exec : ℕ → ℕ → ℕ → Fs → Kernel → Outcome (ℤ × Fs × Kernel)
  unfolding fetch_args free_args exec
  sys_exec p frame cwd fs k0 = do
    let k = count_call Number.exec p k0
    uargv ← argraw 1 p k
    path ← argstr 0 maxpath p k
    table ← page_of (k.procs p).pagetable
    elim path [
      | none ↦ done (negsuc 0, fs, k)
      | some text ↦
          let (fetched, args, m) = fetch_args maxarg table (k.procs p).sz uargv 0 k.memory in
          if fetched
          then (do
            (ret, fs', k') ←
                exec vm uvmalloc copyout p frame cwd text (map (λ a. a.1) args) fs
                  (record k { memory = m })
            m' ← free_args vm.kernel_end args k'.memory
            done (ret, fs', record k' { memory = m' }))
          else (do
            m' ← free_args vm.kernel_end args m
            done (negsuc 0, fs, record k { memory = m' }))
    ]
