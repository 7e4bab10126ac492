-- ===== src/Disk/Safe.antt =====
-- The disk driver of initial-xv6/src/kernel/virtio_disk.c: its steps keep the descriptors apart.
use cpu_scheduling_algos.Prelude.{
  ℕ, zero, suc, ◌+◌, ◌-◌, ◌==◌, ◌≡◌, inl, inr, refl, sym, subst, ◌∙◌, if◌then◌else◌, Bool, true,
  false, not, Option, none, some, List, arith, Bool-cases, Option-cases, Outcome, done, panic,
  done-injective, ◌%◌,
}
use cpu_scheduling_algos.Disk.{Disk, ndesc, wait_rw, finish_rw, intr_loop, virtio_disk_intr}
use cpu_scheduling_algos.Disk.System.{
  InFlight, Picked, Step, starts, finds_none, waits, finishes, interrupts, device, elsewhere,
  Reachable, initial, next, Shared, IsSound,
}
use cpu_scheduling_algos.Disk.Requests.{Started, start_rw-Started, finish_rw-IsSound}

-- What a function of the driver leaves, if it returns.
abbrev Leaves : List InFlight → Outcome Disk → Type 0
Leaves rs (done d) = IsSound d rs
Leaves rs panic = Unit

Leaves-if :
    (rs : List InFlight) (b : Bool) (x y : Outcome Disk)
    → Leaves rs x
    → Leaves rs y
    → Leaves rs (if b then x else y)
Leaves-if rs true x y hx hy = hx
Leaves-if rs false x y hx hy = hy

intr_loop-Leaves :
    (n : ℕ) (me : Option ℕ) (d : Disk) (rs : List InFlight)
    → IsSound d rs
    → Leaves rs (intr_loop n me d)
unfolding intr_loop
intr_loop-Leaves zero me d rs h = h
intr_loop-Leaves (suc n) me d rs h =
    let id = d.used_id (d.used_idx % ndesc) in
    elim (Option-cases (d.info_b id)) [
      | inl e ↦ rw (e, intr_loop) (Leaves-if rs (d.used_idx == d.used_end) (done d) panic h tt)
      | inr (b, e) ↦
          rw (e, intr_loop)
            (Leaves-if rs (d.used_idx == d.used_end) _ _ h
              (Leaves-if rs (not (d.info_status id == 0)) _ _ tt (intr_loop-Leaves n me _ rs h)))
    ]

abbrev Waited : List InFlight → Option Disk → Type 0
Waited rs none = Unit
Waited rs (some d) = IsSound d rs

wait_rw-Waited :
    (p b : ℕ) (d : Disk) (rs : List InFlight) → IsSound d rs → Waited rs (wait_rw p b d)
unfolding wait_rw
wait_rw-Waited p b d rs h = elim (Bool-cases (d.is_busy b)) [
  | inl e ↦ rw (e, wait_rw) h
  | inr e ↦ rw (e, wait_rw) tt
]

wait_rw-keeps :
    (p b : ℕ) (d d' : Disk) (rs : List InFlight)
    → wait_rw p b d ≡ some d'
    → IsSound d rs
    → IsSound d' rs
wait_rw-keeps p b d d' rs e h = subst (λ x. Waited rs x) e (wait_rw-Waited p b d rs h)

Step-IsSound :
    {d d' : Disk} {rs rs' : List InFlight} → Step d rs d' rs' → IsSound d rs → IsSound d' rs'
unfolding virtio_disk_intr
Step-IsSound {d = d} {rs = rs} (starts p b blockno w i j k e) h =
    let (r, e', s) = start_rw-Started p b blockno w d rs h in
    subst (Started rs b) (done-injective (sym e' ∙ e)) s
Step-IsSound {d = d} {rs = rs} (finds_none p b blockno w e) h =
    let (r, e', s) = start_rw-Started p b blockno w d rs h in
    subst (Started rs b) (done-injective (sym e' ∙ e)) s
Step-IsSound {d = d} {d' = d'} {rs = rs} (waits p b e) h = wait_rw-keeps p b d d' rs e h
Step-IsSound {d = d} {rs' = rest} (finishes p r k idle e) h =
    let (d1, e', s) = finish_rw-IsSound p d k h in
    subst (λ x. IsSound x rest) (done-injective (sym e' ∙ e)) s
Step-IsSound {d = d} {rs = rs} (interrupts me e) h =
    subst (Leaves rs) e (intr_loop-Leaves ((d.used_end + 65536 - d.used_idx) % 65536) me d rs h)
Step-IsSound (device ids status last) h = h
Step-IsSound (elsewhere k) h = h

Reachable-IsSound : {d : Disk} {rs : List InFlight} → Reachable d rs → IsSound d rs
Reachable-IsSound (initial k) = ((λ a l. ground (arith, l), λ a g. refl), tt)
Reachable-IsSound (next reach step) = Step-IsSound step (Reachable-IsSound reach)

-- In every state that the driver gets to, each descriptor is free or belongs to one place of one call of
-- virtio_disk_rw. So the end of each call in flight returns: it frees the three descriptors of the call, with no
-- panic, and each descriptor is then free or belongs to one place of one of the other calls.
pub finish_rw-safe :
    {d : Disk} {r : InFlight} {rs rest : List InFlight} (p : ℕ)
    → Reachable d rs
    → Picked r rs rest
    → Shared d.is_free rs × ((d' : Disk) × (finish_rw p r.i d ≡ done d') × Shared d'.is_free rest)
finish_rw-safe p reach k =
    let h = Reachable-IsSound reach in
    let (d', e, s) = finish_rw-IsSound p _ k h in (h.0, (d', e, s.0))
