-- ===== src/Disk/Requests.antt =====
-- virtio_disk_rw of initial-xv6/src/kernel/virtio_disk.c: a request starts and ends with the descriptors kept apart.
use cpu_scheduling_algos.Prelude.{
  ℕ, ◌<◌, ◌==◌, ◌≡◌, ◌≢◌, inl, inr, refl, ap, if◌then◌else◌, Bool, true, false, Option, none, some,
  List, ◌∷◌, update, arith, Bool-cases, done, ◌%◌, ==_refl, ==_iff,
}
use cpu_scheduling_algos.Waiting.{fall_asleep}
use cpu_scheduling_algos.Disk.{Disk, ndesc, free_chan, format, free_chain, start_rw, finish_rw}
use cpu_scheduling_algos.Disk.Descriptors.{given_back, taken, free_desc-done, alloc3_desc-cases}
use cpu_scheduling_algos.Disk.Frame.{uses-Picked, Chains-Picked, Chains-frame, in_use, own_lem}
use cpu_scheduling_algos.Disk.System.{InFlight, Picked, uses, Chains, Shared, IsSound}

abbrev pub Started : List InFlight → ℕ → Option (ℕ × ℕ × ℕ) × Disk → Type 0
Started rs b (none, d) = IsSound d rs
Started rs b (some (i, j, k), d) = IsSound d (record { i = i; j = j; k = k; b = b } ∷ rs)

Shared-taken :
    (free : ℕ → Bool) (rs : List InFlight) (r : InFlight)
    → Shared free rs
    → (free r.i ≡ true) × (free r.j ≡ true) × (free r.k ≡ true)
    → (r.i < ndesc) × (r.j < ndesc) × (r.k < ndesc)
    → (r.i ≢ r.j) × (r.i ≢ r.k) × (r.j ≢ r.k)
    → Shared (update (update (update free r.i false) r.j false) r.k false) (r ∷ rs)
Shared-taken free rs r h f l ne =
    (λ a la. ground (arith, h.0 a la, f, ne), λ a ga. ground (arith, h.1 a ga, l))

Shared-same :
    (free free' : ℕ → Bool) (rs : List InFlight)
    → ((a : ℕ) → free' a ≡ free a)
    → Shared free rs
    → Shared free' rs
Shared-same free free' rs same h = (λ a l. rw (same a) (h.0 a l), h.1)

Shared-given :
    (free : ℕ → Bool) {r : InFlight} {rs rest : List InFlight} (p : Picked r rs rest)
    → Shared free rs
    → Shared (update (update (update free r.i true) r.j true) r.k true) rest
Shared-given free p h =
    let own = own_lem free p h in
    (
      λ a la. ground (arith, h.0 a la, uses-Picked p a, own.1, own.2, own.3),
      λ a ga. omega (arith, uses-Picked p a, h.1 a ga),
    )

odd-flags : (w : Bool) → (if w then 1 else 3) % 2 ≡ 1
odd-flags true = refl
odd-flags false = refl

apart-used : (rs : List InFlight) (i a : ℕ) → uses i rs ≡ 0 → 0 < uses a rs → (i == a) ≡ false
apart-used rs i a h used = elim (Bool-cases (i == a)) [
  | inl e ↦ absurd (omega (arith, h, used, ap (λ x. uses x rs) ((==_iff i a).0 e)))
  | inr e ↦ e
]

-- The chain that virtio_disk_rw formats, and those of the other calls.
Chains-format :
    (b blockno : ℕ) (w : Bool) (d : Disk) (rs : List InFlight) (r : InFlight)
    → (r.i ≢ r.j) × (r.i ≢ r.k) × (r.j ≢ r.k)
    → (uses r.i rs ≡ 0) × (uses r.j rs ≡ 0) × (uses r.k rs ≡ 0)
    → Chains d.desc rs
    → Chains (Disk.desc (format b blockno w (r.i, r.j, r.k) d)) (r ∷ rs)
unfolding format
Chains-format b blockno w d rs r ne u h =
    let ki : (r.k == r.i) ≡ false = ground (arith, ne) in
    let ji : (r.j == r.i) ≡ false = ground (arith, ne) in
    let kj : (r.k == r.j) ≡ false = ground (arith, ne) in
    (
      rw (ki, ji, kj, ==_refl r.i, ==_refl r.j, ==_refl r.k) (refl, refl, odd-flags w, refl, refl),
      Chains-frame d.desc (Disk.desc (format b blockno w (r.i, r.j, r.k) d)) rs
          (λ a used.
            let ia : (r.i == a) ≡ false = apart-used rs r.i a u.0 used in
            let ja : (r.j == a) ≡ false = apart-used rs r.j a u.1 used in
            let ka : (r.k == a) ≡ false = apart-used rs r.k a u.2 used in rw (ka, ja, ia) refl)
          h,
    )

unused :
    (free : ℕ → Bool) (rs : List InFlight)
    → Shared free rs
    → (i : ℕ) → i < ndesc
    → free i ≡ true
    → uses i rs ≡ 0
unused free rs h i l f = ground (arith, h.0 i l)

-- virtio_disk_rw returns from its first loop, or sleeps in it.
pub start_rw-Started :
    (p b blockno : ℕ) (w : Bool) (d : Disk) (rs : List InFlight)
    → IsSound d rs
    → (r : Option (ℕ × ℕ × ℕ) × Disk) × (start_rw p b blockno w d ≡ done r) × Started rs b r
unfolding start_rw format
start_rw-Started p b blockno w d rs h = elim (alloc3_desc-cases (some p) d) [
  | inl (i, j, k, e, f, l, ne) ↦
      let r : InFlight = record { i = i; j = j; k = k; b = b } in
      (
        (some (i, j, k), format b blockno w (i, j, k) (taken k (taken j (taken i d)))),
        rw (e, start_rw) refl,
        (
          Shared-taken d.is_free rs r h.0 f l ne,
          Chains-format b blockno w (taken k (taken j (taken i d))) rs r ne
              (
                unused d.is_free rs h.0 i l.0 f.0,
                unused d.is_free rs h.0 j l.1 f.1,
                unused d.is_free rs h.0 k l.2 f.2,
              )
              h.1,
        ),
      )
  | inr (d', e, same, kept) ↦ (
    (none, record d' { kernel = fall_asleep p free_chan d'.kernel }),
    rw (e, start_rw) refl,
    (
      Shared-same d.is_free d'.is_free rs same h.0,
      Chains-frame d.desc d'.desc rs (λ a used. kept a (in_use d.is_free rs h.0 a used).1) h.1,
    ),
  )
]

-- The end of virtio_disk_rw frees the three descriptors of its call and no others.
pub finish_rw-IsSound :
    (p : ℕ) (d : Disk) {r : InFlight} {rs rest : List InFlight} (k : Picked r rs rest)
    → IsSound d rs
    → (d' : Disk) × (finish_rw p r.i d ≡ done d') × IsSound d' rest
unfolding finish_rw free_chain
finish_rw-IsSound p d {r = r} {rs = rs} {rest = rest} k h =
    let own = own_lem d.is_free k h.0 in
    let c = (Chains-Picked d.desc k h.1).0 in
    let ij : (r.i == r.j) ≡ false = ground (arith, own.2) in
    let ik : (r.i == r.k) ≡ false = ground (arith, own.2) in
    let jk : (r.j == r.k) ≡ false = ground (arith, own.2) in
    let d0 : Disk = record d { info_b = update d.info_b r.i none } in
    let d1 = given_back (some p) r.i d0 in
    let d2 = given_back (some p) r.j d1 in
    let d3 = given_back (some p) r.k d2 in
    (
      d3,
      rw
          (
            free_desc-done (some p) r.i d0 own.0.0 own.1.0,
            c.0,
            c.1,
            free_desc-done (some p) r.j d1 own.0.1 (ground (arith, own.1, own.2)),
            ij,
            c.2,
            c.3,
            free_desc-done (some p) r.k d2 own.0.2 (ground (arith, own.1, own.2)),
            jk,
            ik,
            c.4,
          )
          refl,
      (
        Shared-given d.is_free k h.0,
        Chains-frame d.desc d3.desc rest
            (λ a used.
              let ia : (r.i == a) ≡ false = apart-used rest r.i a own.3.0 used in
              let ja : (r.j == a) ≡ false = apart-used rest r.j a own.3.1 used in
              let ka : (r.k == a) ≡ false = apart-used rest r.k a own.3.2 used in
              rw (ka, ja, ia) refl)
            (Chains-Picked d.desc k h.1).1,
      ),
    )
