-- ===== src/Str/Compare.antt =====
-- memcmp of initial-xv6/src/kernel/string.c: what its result says of two ranges.
use cpu_scheduling_algos.Prelude.{
  ℕ, zero, suc, ◌+◌, ◌<◌, ◌≡◌, ◌≢◌, refl, sym, ap, ◌∙◌, ◌⊎◌, inl, inr, arith, ◌==◌, ==_iff,
  Bool-cases,
}
use cpu_scheduling_algos.Prelude.Int.{pos, sub_ℕ}
use cpu_scheduling_algos.Str.{memcmp}

-- The first place at which the two ranges differ.
pub record Differs (v1 v2 n : ℕ) (m : ℕ → ℕ) (at : ℕ) : Type 0 where
  pub inside : at < n
  pub differ : m (v1 + at) ≢ m (v2 + at)
  pub before : (i : ℕ) → i < at → m (v1 + i) ≡ m (v2 + i)

abbrev pub SameBytes : ℕ → ℕ → ℕ → (ℕ → ℕ) → Type 0
SameBytes v1 v2 n m = (i : ℕ) → i < n → m (v1 + i) ≡ m (v2 + i)

same_cons :
    (v1 v2 n : ℕ) (m : ℕ → ℕ)
    → m v1 ≡ m v2
    → SameBytes (v1 + 1) (v2 + 1) n m
    → SameBytes v1 v2 (suc n) m
same_cons v1 v2 n m e h zero lt = ground arith
same_cons v1 v2 n m e h (suc i) lt = ground (arith, h i)

sub-ne : (a b : ℕ) → a ≢ b → sub_ℕ a b ≢ pos 0
sub-ne a b ne e = ground arith

same_before :
    (v1 v2 at : ℕ) (m : ℕ → ℕ)
    → m v1 ≡ m v2
    → ((i : ℕ) → i < at → m (v1 + 1 + i) ≡ m (v2 + 1 + i))
    → (i : ℕ) → i < suc at
    → m (v1 + i) ≡ m (v2 + i)
same_before v1 v2 at m e h zero lt = ground arith
same_before v1 v2 at m e h (suc i) lt = ground (arith, h i)

move_index : (v at : ℕ) (m : ℕ → ℕ) → m (v + 1 + at) ≡ m (v + suc at)
move_index v at m = ap m (omega arith)

-- memcmp returns 0 if the ranges hold the same bytes; otherwise it returns the difference of the
-- first two bytes that differ, which is not 0.
pub memcmp_lem :
    (v1 v2 n : ℕ) (m : ℕ → ℕ)
    → (SameBytes v1 v2 n m × (memcmp v1 v2 n m ≡ pos 0))
      ⊎ ((at : ℕ) × Differs v1 v2 n m at
          × (memcmp v1 v2 n m ≡ sub_ℕ (m (v1 + at)) (m (v2 + at)))
          × (memcmp v1 v2 n m ≢ pos 0))
unfolding memcmp
memcmp_lem v1 v2 zero m = inl (λ i lt. absurd (omega arith), refl)
memcmp_lem v1 v2 (suc n) m = elim (Bool-cases (m v1 == m v2)) [
  | inl same ↦ elim (memcmp_lem (v1 + 1) (v2 + 1) n m) [
    | inl (all, e) ↦ inl (same_cons v1 v2 n m ((==_iff (m v1) (m v2)).0 same) all, rw same e)
    | inr (at, d, e, ne) ↦ inr (
      suc at,
      record {
        inside = omega (arith, d.inside);
        differ = λ q. d.differ (move_index v1 at m ∙ q ∙ sym (move_index v2 at m));
        before = same_before v1 v2 at m ((==_iff (m v1) (m v2)).0 same) d.before;
      },
      rw (same, ← move_index v1 at m, ← move_index v2 at m) e,
      rw same ne,
    )
  ]
  | inr differ ↦ inr (
    0,
    record { inside = omega arith; differ = ground arith; before = λ i lt. absurd (omega arith) },
    ground arith,
    rw differ (sub-ne (m v1) (m v2) (ground arith)),
  )
]
