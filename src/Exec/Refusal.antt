-- ===== src/Exec/Refusal.antt =====
-- exec() of initial-xv6/src/kernel/exec.c: what it leaves of the process table.
use cpu_scheduling_algos.Prelude.{
  ℕ, ◌≤◌, ◌<◌, ◌≢◌, ◌∙◌, ap, subst, arith, ◌%◌, ◌^◌, ◌==◌, ◌≡◌, ◌⊎◌, inl, inr, refl, if◌then◌else◌,
  Bool, true, false, Option, none, some, List, length, Outcome, done, panic, ◌>>=◌,
}
use cpu_scheduling_algos.Prelude.Int.{ℤ, pos, negsuc}
use cpu_scheduling_algos.Kalloc.{Memory}
use cpu_scheduling_algos.Vm.{Vm}
use cpu_scheduling_algos.Proc.{Kernel, set_proc}
use cpu_scheduling_algos.Proc.Frame
use cpu_scheduling_algos.Paging.{set_word}
use cpu_scheduling_algos.Paging.Copy.{take}
use cpu_scheduling_algos.Exec.Name.{IsNameOf, last_part-IsNameOf}
use cpu_scheduling_algos.Lifecycle.{proc_pagetable, proc_freepagetable, free_pagetable}
use cpu_scheduling_algos.Fs.{Fs}
use cpu_scheduling_algos.Fs.Inodes.{ilock}
use cpu_scheduling_algos.Fs.Content.{iunlockput}
use cpu_scheduling_algos.Fs.Creation.{begin_op}
use cpu_scheduling_algos.Fs.Paths.{namei}
use cpu_scheduling_algos.Exec.{
  ElfHdr, elfhdr_of, elf_magic, elfhdr_size, read_struct, load_segments,
}
use cpu_scheduling_algos.Exec.Image.{
  last_part, build_stack, new_image, new_frame, refuse, commit_image, finish_exec, load_image, exec,
}

-- What a kernel routine leaves, if it does not panic.
unfoldable pub Leaves {ℓ} : {A : Type ℓ} → (A → Type 0) → Outcome A → Type 0
Leaves P (done a) = P a
Leaves P panic = Unit

Leaves-bind {ℓ κ} :
    {A : Type ℓ} {B : Type κ} (P : B → Type 0) (m : Outcome A) (f : A → Outcome B)
    → ((a : A) → Leaves P (f a))
    → Leaves P (m >>= f)
unfolding Leaves
Leaves-bind P (done a) f h = h a
Leaves-bind P panic f h = tt

-- The same, where the rest may use what the first routine returned.
Leaves-bind_eq {ℓ κ} :
    {A : Type ℓ} {B : Type κ} (P : B → Type 0) (m : Outcome A) (f : A → Outcome B)
    → ((a : A) → m ≡ done a → Leaves P (f a))
    → Leaves P (m >>= f)
unfolding Leaves
Leaves-bind_eq P (done a) f h = h a refl
Leaves-bind_eq P panic f h = tt

Leaves-if {ℓ} :
    {A : Type ℓ} (P : A → Type 0) (b : Bool) (x y : Outcome A)
    → Leaves P x
    → Leaves P y
    → Leaves P (if b then x else y)
Leaves-if P true x y hx hy = hx
Leaves-if P false x y hx hy = hy

Leaves-option {ℓ κ} :
    {A : Type ℓ} {B : Type κ} (P : A → Type 0) (o : Option B) (x : Outcome A) (f : B → Outcome A)
    → Leaves P x
    → ((b : B) → o ≡ some b → Leaves P (f b))
    → Leaves P (elim o [ none ↦ x | some b ↦ f b ])
Leaves-option P none x f hx hf = hx
Leaves-option P (some b) x f hx hf = hf b refl

-- Only the physical memory is another one.
abbrev pub SameTable : Kernel → Kernel → Type 0
SameTable k k' = (m : Memory) × (k' ≡ record k { memory = m })

module _ (vm : Vm) (uvmalloc : ℕ → ℕ → ℕ → ℕ → Memory → Outcome (ℕ × Memory))
    (copyout : ℕ → ℕ → List ℕ → Memory → Bool × Memory) where
  -- The process `p` of `k'` runs a new image: it has the page table that proc_pagetable made, the size that
  -- the stack for the arguments left, the name that the path ends in, and no system calls counted. The rest
  -- of it, the other processes and the rest of the kernel's state but for the memory are as before, and the
  -- memory is the one that the stack was built in, with the trapframe set and the old image freed.
  pub record NewImage (p frame : ℕ) (path : List ℕ) (args : List (List ℕ)) (k k' : Kernel)
      : Type 0 where
    pub table : ℕ
    pub size_before : ℕ
    pub size : ℕ
    pub sp : ℕ
    pub entry : ℕ
    pub created : Memory
    pub loaded : Memory
    pub stacked : Memory
    pub mapped : proc_pagetable vm frame k.memory ≡ done (some table, created)
    pub built :
        build_stack copyout uvmalloc table args size_before loaded ≡ done (some sp, size, stacked)
    pub freed :
        free_pagetable vm (k.procs p).pagetable (k.procs p).sz (
          set_word frame Frame.sp sp
            (set_word frame Frame.epc entry (set_word frame 15 sp stacked)))
        ≡ done k'.memory
    pub pagetable : (k'.procs p).pagetable ≡ some table
    pub sz : (k'.procs p).sz ≡ size
    pub named : IsNameOf path (k'.procs p).name
    pub counted : (i : ℕ) → i < 32 → (k'.procs p).syscall_count i ≡ 0
    pub uncounted : (i : ℕ) → 32 ≤ i → (k'.procs p).syscall_count i ≡ (k.procs p).syscall_count i
    pub others : (j : ℕ) → p ≢ j → k'.procs j ≡ k.procs j
    pub rest : k'.procs p ≡ record (k.procs p) {
      name = (k'.procs p).name;
      pagetable = (k'.procs p).pagetable;
      sz = (k'.procs p).sz;
      syscall_count = (k'.procs p).syscall_count;
    }
    pub kernel : k' ≡ record k { procs = k'.procs; memory = k'.memory }

  abbrev pub Execed : ℕ → ℕ → List ℕ → List (List ℕ) → Kernel → ℤ × Fs × Kernel → Type 0
  Execed p frame path args k (r, fs, k') =
      ((r ≡ negsuc 0) × SameTable k k')
      ⊎ ((r ≡ pos (length args)) × NewImage p frame path args k k')

  commit_image-NewImage :
      (p frame : ℕ) (path : List ℕ) (args : List (List ℕ)) (k : Kernel) (m2 : Memory)
      (table size_before size sp entry : ℕ) (created loaded stacked : Memory)
      → proc_pagetable vm frame k.memory ≡ done (some table, created)
      → build_stack copyout uvmalloc table args size_before loaded ≡ done (some sp, size, stacked)
      → free_pagetable vm (k.procs p).pagetable (k.procs p).sz (new_frame frame entry sp stacked)
        ≡ done m2
      → NewImage p frame path args k
          (set_proc p (new_image path table size (k.procs p)) (record k { memory = m2 }))
  unfolding new_image
  commit_image-NewImage p frame path args k m2 table size_before size sp entry created loaded
        stacked e b f =
      record {
        table = table;
        size_before = size_before;
        size = size;
        sp = sp;
        entry = entry;
        created = created;
        loaded = loaded;
        stacked = stacked;
        mapped = e;
        built = b;
        freed = f;
        pagetable = ground arith;
        sz = ground arith;
        named =
            let same : take 15 (last_part path path)
                ≡ ((set_proc p (new_image path table size (k.procs p))
                      (record k { memory = m2 })).procs
                    p).name =
              ground arith in
            subst (IsNameOf path) same (last_part-IsNameOf path);
        counted = λ i lt. ground arith;
        uncounted = λ i le. ground arith;
        others = λ j ne. ground arith;
        rest = ground arith;
        kernel = refl;
      }

  refuse-Leaves :
      (p frame : ℕ) (path : List ℕ) (args : List (List ℕ)) (k : Kernel) (ip : ℕ) (fs : Fs)
      (m : Memory)
      → Leaves (Execed p frame path args k) (refuse ip fs (record k { memory = m }))
  unfolding refuse Leaves
  refuse-Leaves p frame path args k ip fs m =
      Leaves-bind _ (iunlockput ip fs) _ (λ fs1. inl (refl, (m, refl)))

  module _ (p frame : ℕ) (path : List ℕ) (args : List (List ℕ)) (k : Kernel) where
    finish_exec-Leaves :
        (entry table ip sz : ℕ) (m m0 : Memory) (fs : Fs)
        → proc_pagetable vm frame k.memory ≡ done (some table, m0)
        → Leaves
            (Execed p frame path args k)
            (finish_exec vm uvmalloc copyout p frame path args entry table ip sz m fs k)
    unfolding finish_exec commit_image Leaves
    finish_exec-Leaves entry table ip sz m m0 fs mapped = Leaves-bind _ (iunlockput ip fs) _ (λ fs1.
        Leaves-bind_eq _ (build_stack copyout uvmalloc table args sz m) _ (λ (sp, sz', m1) built.
          Leaves-option _ sp _ _
            (Leaves-bind _ (proc_freepagetable vm table sz' m1) _ (λ m2. inl (refl, (m2, refl))))
            (λ s s_is.
              Leaves-bind_eq _
                (free_pagetable vm (k.procs p).pagetable (k.procs p).sz
                  (new_frame frame entry s m1))
                _
                (λ m2 freed. inr (
                  refl,
                  commit_image-NewImage p frame path args k m2 table sz sz' s entry m0 m m1 mapped
                      (built ∙ ap (λ o. done (o, sz', m1)) s_is) freed,
                )))))

    load_image-Leaves :
        (elf : ElfHdr) (ip : ℕ) (fs : Fs)
        → Leaves
            (Execed p frame path args k)
            (load_image vm uvmalloc copyout p frame path args elf ip fs k)
    unfolding load_image Leaves
    load_image-Leaves elf ip fs =
        Leaves-bind_eq _ (proc_pagetable vm frame k.memory) _ (λ (created, m) mapped.
          Leaves-option _ created _ _ (refuse-Leaves p frame path args k ip fs m) (λ table table_is.
            Leaves-bind _ (load_segments uvmalloc elf.phnum (elf.phoff % 2 ^ 32) table ip 0 fs m) _
              (λ (loaded, sz, fs', m').
                Leaves-if _ loaded _ _
                  (finish_exec-Leaves elf.entry table ip sz m' m fs'
                    (mapped ∙ ap (λ o. done (o, m)) table_is))
                  (Leaves-bind _ (proc_freepagetable vm table sz m') _
                    (λ m''. refuse-Leaves p frame path args k ip fs' m'')))))

    -- If exec does not panic, it either returns -1, and then the processes and the rest of the kernel's state but
    -- for the memory are as before, or it returns the number of arguments, and then the caller alone has
    -- changed: it has the page table that proc_pagetable made and the size that the building of its stack left,
    -- the first 15 characters of what stands behind the last slash of the path for its name, and none of the 32
    -- system calls counted; the trapframe has its a1, epc and sp set and the old image is freed. The state of
    -- the file system, which is apart from the kernel's state here, is not part of the statement.
    pub exec_lem :
        (cwd : ℕ) (fs : Fs)
        → Leaves (Execed p frame path args k) (exec vm uvmalloc copyout p frame cwd path args fs k)
    unfolding exec Leaves
    exec_lem cwd fs = Leaves-bind _ (namei cwd path (begin_op fs)) _ (λ (found, fs1).
        Leaves-option _ found _ _ (inl (refl, (k.memory, refl))) (λ ip ip_is.
          Leaves-bind _ (ilock ip fs1) _ (λ fs2.
            Leaves-bind _ (read_struct ip 0 elfhdr_size fs2) _ (λ (header, fs3).
              Leaves-option _ header _ _ (refuse-Leaves p frame path args k ip fs3 k.memory)
                (λ bytes bytes_is.
                  Leaves-if _ ((elfhdr_of bytes).magic == elf_magic) _ _
                    (load_image-Leaves (elfhdr_of bytes) ip fs3)
                    (refuse-Leaves p frame path args k ip fs3 k.memory))))))
