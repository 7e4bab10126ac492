-- ===== src/Fs/Bitmap.antt =====
-- The free map of initial-xv6/src/kernel/fs.c: marking one block marks no other.
use cpu_scheduling_algos.Prelude.{
  ℕ, zero, suc, ◌+◌, ◌*◌, ◌/◌, ◌%◌, ◌≡◌, ◌≢◌, refl, ap, ◌∙◌, ◌==◌, Bool, true, false, inl, inr,
  arith, Bool-cases,
}
use cpu_scheduling_algos.Fs.{bit_at, set_bit, map_bit, mark}

bit_at-set_bit_same : (v : Bool) (i byte : ℕ) → bit_at i (set_bit v i byte) ≡ v
unfolding bit_at set_bit
bit_at-set_bit_same true zero byte = ground arith
bit_at-set_bit_same false zero byte = ground arith
bit_at-set_bit_same v (suc i) byte =
    let e : (set_bit v i (byte / 2) * 2 + byte % 2) / 2 ≡ set_bit v i (byte / 2) = omega arith in
    rw e (bit_at-set_bit_same v i (byte / 2))

bit_at-set_bit_other :
    (v : Bool) (i j byte : ℕ) → i ≢ j → bit_at j (set_bit v i byte) ≡ bit_at j byte
unfolding bit_at set_bit
bit_at-set_bit_other v zero zero byte ne = absurd (ne refl)
bit_at-set_bit_other v zero (suc j) byte ne = ap (bit_at j) (ground arith)
bit_at-set_bit_other v (suc i) zero byte ne =
    let e : (set_bit v i (byte / 2) * 2 + byte % 2) % 2 ≡ byte % 2 = omega arith in
    ap (λ x. x == 1) e
bit_at-set_bit_other v (suc i) (suc j) byte ne =
    let e : (set_bit v i (byte / 2) * 2 + byte % 2) / 2 ≡ set_bit v i (byte / 2) = omega arith in
    rw e (bit_at-set_bit_other v i j (byte / 2) (λ x. ne (ap suc x)))

pub map_bit-mark_same : (v : Bool) (bi : ℕ) (content : ℕ → ℕ) → map_bit bi (mark v bi content) ≡ v
map_bit-mark_same v bi content =
    let e : mark v bi content (bi / 8) ≡ set_bit v (bi % 8) (content (bi / 8)) = ground arith in
    ap (bit_at (bi % 8)) e ∙ bit_at-set_bit_same v (bi % 8) (content (bi / 8))

pub map_bit-mark_other :
    (v : Bool) (bi bj : ℕ) (content : ℕ → ℕ)
    → bi ≢ bj
    → map_bit bj (mark v bi content) ≡ map_bit bj content
map_bit-mark_other v bi bj content ne = elim (Bool-cases (bi / 8 == bj / 8)) [
  | inr f ↦ ap (bit_at (bj % 8)) (ground arith)
  | inl t ↦
      let e : mark v bi content (bj / 8) ≡ set_bit v (bi % 8) (content (bj / 8)) = ground arith in
      ap (bit_at (bj % 8)) e
      ∙ bit_at-set_bit_other v (bi % 8) (bj % 8) (content (bj / 8)) (λ x. ne (ground arith))
]
