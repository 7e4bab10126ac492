-- ===== src/Disk/Frame.antt =====
-- The chains of initial-xv6/src/kernel/virtio_disk.c: which of them a change of a descriptor reaches.
use cpu_scheduling_algos.Prelude.{
  ℕ, ◌+◌, ◌≤◌, ◌<◌, ltb, ◌≡◌, ◌≢◌, inl, inr, refl, Bool, false, List, [], ◌∷◌, arith, Bool-cases,
}
use cpu_scheduling_algos.Disk.{Desc, ndesc}
use cpu_scheduling_algos.Disk.System.{
  InFlight, Picked, here, there, uses_of, uses, Chain, Chains, Shared,
}

pub uses-Picked :
    {r : InFlight} {rs rest : List InFlight} (p : Picked r rs rest) (a : ℕ)
    → uses a rs ≡ uses_of a r + uses a rest
uses-Picked here a = refl
uses-Picked (there {q = q} p) a = omega (arith, uses-Picked p a)

pub Chains-Picked :
    {r : InFlight} {rs rest : List InFlight} (desc : ℕ → Desc) (p : Picked r rs rest)
    → Chains desc rs
    → Chain desc r × Chains desc rest
Chains-Picked desc here h = h
Chains-Picked desc (there p) h = let both = Chains-Picked desc p h.1 in (both.0, (h.0, both.1))

uses_of-own : (r : InFlight) → (0 < uses_of r.i r) × (0 < uses_of r.j r) × (0 < uses_of r.k r)
uses_of-own r = (ground arith, ground arith, ground arith)

pub Chain-frame :
    (desc desc' : ℕ → Desc) (r : InFlight)
    → (desc' r.i ≡ desc r.i)
    → (desc' r.j ≡ desc r.j)
    → (desc' r.k ≡ desc r.k)
    → Chain desc r
    → Chain desc' r
Chain-frame desc desc' r ei ej ek h = rw (ei, ej, ek) h

-- A change of other descriptors than those in use leaves the chains.
pub Chains-frame :
    (desc desc' : ℕ → Desc) (rs : List InFlight)
    → ((a : ℕ) → 0 < uses a rs → desc' a ≡ desc a)
    → Chains desc rs
    → Chains desc' rs
Chains-frame desc desc' [] same h = tt
Chains-frame desc desc' (r ∷ rs) same h =
    let own = uses_of-own r in
    (
      Chain-frame desc desc' r (same r.i (omega (arith, own.0))) (same r.j (omega (arith, own.1)))
          (same r.k (omega (arith, own.2))) h.0,
      Chains-frame desc desc' rs (λ a u. same a (omega (arith, u))) h.1,
    )

-- What is in use is a descriptor, and is not free; what is free is not in use.
pub in_use :
    (free : ℕ → Bool) (rs : List InFlight)
    → Shared free rs
    → (a : ℕ) → 0 < uses a rs
    → (a < ndesc) × (free a ≡ false)
in_use free rs h a u = elim (Bool-cases (ltb a ndesc)) [
  | inl e ↦ let lt : a < ndesc = ground arith in (lt, ground (arith, h.0 a lt))
  | inr e ↦ absurd (omega (arith, h.1 a (ground arith), u))
]

-- A descriptor of a call is in use once.
own_once :
    (free : ℕ → Bool) {r : InFlight} {rs rest : List InFlight} (p : Picked r rs rest) (a : ℕ)
    → Shared free rs
    → 0 < uses_of a r
    → (a < ndesc) × (free a ≡ false) × (uses_of a r + uses a rest ≡ 1)
own_once free {r = r} {rs = rs} {rest = rest} p a h u =
    let e : uses a rs ≡ uses_of a r + uses a rest = uses-Picked p a in
    let used = in_use free rs h a (omega (arith, e, u)) in
    (used.0, used.1, ground (arith, h.0 a used.0, used.1, e))

once-apart :
    (r : InFlight) → uses_of r.i r ≤ 1 → uses_of r.j r ≤ 1 → (r.i ≢ r.j) × (r.i ≢ r.k) × (r.j ≢ r.k)
once-apart r hi hj = (λ e. ground arith, λ e. ground arith, λ e. ground arith)

-- The three descriptors of a call are different descriptors in use, and no other call has them.
pub own_lem :
    (free : ℕ → Bool) {r : InFlight} {rs rest : List InFlight} (p : Picked r rs rest)
    → Shared free rs
    → ((r.i < ndesc) × (r.j < ndesc) × (r.k < ndesc))
      × ((free r.i ≡ false) × (free r.j ≡ false) × (free r.k ≡ false))
      × ((r.i ≢ r.j) × (r.i ≢ r.k) × (r.j ≢ r.k))
      × ((uses r.i rest ≡ 0) × (uses r.j rest ≡ 0) × (uses r.k rest ≡ 0))
own_lem free {r = r} p h =
    let own = uses_of-own r in
    let i = own_once free p r.i h own.0 in
    let j = own_once free p r.j h own.1 in
    let k = own_once free p r.k h own.2 in
    (
      (i.0, j.0, k.0),
      (i.1, j.1, k.1),
      once-apart r (omega (arith, i.2)) (omega (arith, j.2)),
      (omega (arith, i.2, own.0), omega (arith, j.2, own.1), omega (arith, k.2, own.2)),
    )
