-- ===== src/Sysproc/Alarm.antt =====
-- The alarm of usertrap() (trap.c) and sys_sigreturn (sysproc.c): a handler interrupts the process
-- and gives it back as it was.
use cpu_scheduling_algos.Prelude.{
  ℕ, ◌<◌, ◌≡◌, ◌≢◌, refl, sym, ◌∙◌, false, Option, none, some, arith, done, done-injective, subst,
}
use cpu_scheduling_algos.Kalloc.{Memory, kalloc, kfree, bad_page, set_next, fill_page, freed_junk}
use cpu_scheduling_algos.Vm.{Vm}
use cpu_scheduling_algos.Proc.Frame
use cpu_scheduling_algos.Proc.{Kernel}
use cpu_scheduling_algos.Trap.{jump_to_handler, fire_alarm, copy_words}
use cpu_scheduling_algos.Sysproc.{sys_sigreturn, end_alarm, count_call}
use cpu_scheduling_algos.Sysproc.Number

-- What a fired alarm leaves behind.
pub record Fired (k k' : Kernel) (p frame tf : ℕ) : Type 0 where
  pub page : k.memory.freelist ≡ tf
  pub real : tf ≢ 0
  pub jumps : k'.memory.words frame Frame.epc ≡ (k.procs p).handler
  pub saves : (w : ℕ) → w < Frame.size → k'.memory.words tf w ≡ k.memory.words frame w
  pub marks : (k'.procs p).in_alarm_handler ≡ 1
  pub keeps : (k'.procs p).alarm_tf ≡ some tf
  pub resets : (k'.procs p).cur_ticks ≡ 0
  pub frame_stays : (k'.procs p).trapframe ≡ some frame

kalloc_lem :
    (m : Memory)
    → m.freelist ≢ 0
    → ((kalloc m).0 ≡ some m.freelist)
      × ((pa w : ℕ) → m.freelist ≢ pa → (kalloc m).1.words pa w ≡ m.words pa w)
unfolding kalloc
kalloc_lem m ne = (ground arith, λ pa w apart. ground arith)

jump-Fired :
    (k : Kernel) (p frame : ℕ) (m : Memory)
    → (k.procs p).trapframe ≡ some frame
    → k.memory.freelist ≢ 0
    → k.memory.freelist ≢ frame
    → ((w : ℕ) → m.words frame w ≡ k.memory.words frame w)
    → Fired k (jump_to_handler p k.memory.freelist frame m k) p frame k.memory.freelist
unfolding jump_to_handler
jump-Fired k p frame m has ne apart same = record {
  page = refl;
  real = ne;
  jumps = ground arith;
  saves = λ w lt. ground (arith, same w);
  marks = ground arith;
  keeps = ground arith;
  resets = ground arith;
  frame_stays = ground arith;
}

-- If the process has a trapframe page and the head of the free list is another page, the alarm
-- succeeds: it takes that page, saves the trapframe in it, sends the process to its handler, and
-- records where the trapframe is saved.
fire_alarm_lem :
    (k : Kernel) (p frame : ℕ)
    → (k.procs p).trapframe ≡ some frame
    → k.memory.freelist ≢ 0
    → k.memory.freelist ≢ frame
    → (k' : Kernel) × (fire_alarm p k ≡ done k') × Fired k k' p frame k.memory.freelist
unfolding fire_alarm
fire_alarm_lem k p frame has ne apart =
    let (page, keeps) = kalloc_lem k.memory ne in
    (
      jump_to_handler p k.memory.freelist frame (kalloc k.memory).1 k,
      rw (page, has),
      jump-Fired k p frame (kalloc k.memory).1 has ne apart (λ w. keeps frame w apart),
    )

-- What sys_sigreturn does to the caller and its trapframe page.
pub record Returned (k k' : Kernel) (p frame tf : ℕ) : Type 0 where
  pub restores : (w : ℕ) → w < 512 → k'.memory.words frame w ≡ k.memory.words tf w
  pub freed : k'.memory.freelist ≡ tf
  pub unmarks : (k'.procs p).in_alarm_handler ≡ 0
  pub forgets : (k'.procs p).alarm_tf ≡ none
  pub resets : (k'.procs p).cur_ticks ≡ 0

kfree_lem :
    (kernel_end pa : ℕ) (m : Memory)
    → bad_page kernel_end pa ≡ false
    → (m' : Memory) × (kfree kernel_end pa m ≡ done m')
      × (m'.freelist ≡ pa)
      × ((frame : ℕ) → pa ≢ frame → m'.words frame ≡ m.words frame)
unfolding kfree
kfree_lem kernel_end pa m ok = (
  record (set_next pa m.freelist (fill_page pa freed_junk m)) { freelist = pa },
  ground arith,
  refl,
  λ frame ne. ground arith,
)

counted_keeps :
    (k : Kernel) (p : ℕ) {page : Option ℕ}
    → (k.procs p).trapframe ≡ page
    → ((count_call Number.sigreturn p k).procs p).trapframe ≡ page
unfolding count_call
counted_keeps k p e = ground arith

counted_keeps_tf :
    (k : Kernel) (p : ℕ) {page : Option ℕ}
    → (k.procs p).alarm_tf ≡ page
    → ((count_call Number.sigreturn p k).procs p).alarm_tf ≡ page
unfolding count_call
counted_keeps_tf k p e = ground arith

end-Returned :
    (k counted : Kernel) (m : Memory) (p frame tf : ℕ)
    → ((w : ℕ) → w < 512 → m.words frame w ≡ k.memory.words tf w)
    → m.freelist ≡ tf
    → Returned k (end_alarm p m counted) p frame tf
unfolding end_alarm
end-Returned k counted m p frame tf same free = record {
  restores = same;
  freed = free;
  unmarks = ground arith;
  forgets = ground arith;
  resets = ground arith;
}

-- After a saved trapframe, sys_sigreturn copies the whole saved page back over the trapframe, frees
-- the page, and makes the process ready for its next alarm, if the page is one that kfree accepts.
sys_sigreturn_lem :
    (vm : Vm) (k : Kernel) (p frame tf : ℕ)
    → (k.procs p).trapframe ≡ some frame
    → (k.procs p).alarm_tf ≡ some tf
    → tf ≢ frame
    → bad_page vm.kernel_end tf ≡ false
    → (k' : Kernel) × (sys_sigreturn vm p k ≡ done k') × Returned k k' p frame tf
unfolding sys_sigreturn
sys_sigreturn_lem vm k p frame tf has saved apart ok =
    let (m', e, free, keeps) = kfree_lem vm.kernel_end tf (copy_words 512 frame tf k.memory) ok in
    let counted : Kernel = count_call Number.sigreturn p k in
    let has' : (counted.procs p).trapframe ≡ some frame = counted_keeps k p has in
    let saved' : (counted.procs p).alarm_tf ≡ some tf = counted_keeps_tf k p saved in
    (
      end_alarm p m' counted,
      rw (has', saved', e),
      end-Returned k counted m' p frame tf (λ w lt. ground (arith, keeps frame apart)) free,
    )

-- An alarm is transparent: whatever the handler does, if the process still has its trapframe page
-- and the saved page is untouched, sys_sigreturn succeeds and every word of the trapframe is what
-- it was when the alarm fired; the saved page is the next free page again, and the next alarm may
-- fire. It holds where the free list's head is a page that kfree accepts and is not the trapframe.
pub alarm_round_trip :
    (vm : Vm) (k k1 k2 : Kernel) (p frame : ℕ)
    → (k.procs p).trapframe ≡ some frame
    → k.memory.freelist ≢ 0
    → k.memory.freelist ≢ frame
    → bad_page vm.kernel_end k.memory.freelist ≡ false
    → fire_alarm p k ≡ done k1
    → (k2.procs p).trapframe ≡ (k1.procs p).trapframe
    → (k2.procs p).alarm_tf ≡ (k1.procs p).alarm_tf
    → ((w : ℕ) → k2.memory.words k.memory.freelist w ≡ k1.memory.words k.memory.freelist w)
    → (k3 : Kernel) × (sys_sigreturn vm p k2 ≡ done k3)
      × ((w : ℕ) → w < Frame.size → k3.memory.words frame w ≡ k.memory.words frame w)
      × (k3.memory.freelist ≡ k.memory.freelist)
      × ((k3.procs p).in_alarm_handler ≡ 0)
alarm_round_trip vm k k1 k2 p frame has ne apart ok fired same_frame same_saved same_words =
    let (k1', e, f) = fire_alarm_lem k p frame has ne apart in
    let f' : Fired k k1 p frame k.memory.freelist =
      subst (λ s. Fired k s p frame k.memory.freelist) (done-injective (sym e ∙ fired)) f in
    let (k3, e3, r) =
      sys_sigreturn_lem vm k2 p frame k.memory.freelist (same_frame ∙ f'.frame_stays)
        (same_saved ∙ f'.keeps) apart ok in
    (k3, e3, λ w lt. r.restores w (omega arith) ∙ same_words w ∙ f'.saves w lt, r.freed, r.unmarks)
