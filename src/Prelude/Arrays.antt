-- ===== src/Prelude/Arrays.antt =====
-- C arrays as functions of the index, and loops over the indices of a table.
use Prim.Native.Nat.{ℕ, zero, suc, ◌+◌, ◌≤◌, ◌<◌}
use mathlib.Core.Path.{◌≡◌, refl}
use mathlib.Core.Logic.{inl, inr}
use mathlib.Core.Bool.{Bool, true, false}
use mathlib.Core.List.{List, [], ◌∷◌}
use mathlib.Core.Option.{Option, none, some}
use native.Mathlib.Omega.{arith}
use cpu_scheduling_algos.Prelude.Tests.{◌==◌, if◌then◌else◌, Bool-cases}

-- `f[i] = v`
abbrev pub update {ℓ} : {A : Type ℓ} → (ℕ → A) → ℕ → A → ℕ → A
update f i v j = if i == j then v else f j

-- The elements `f[i], …, f[i + n - 1]`.
abbrev pub window {ℓ} : {A : Type ℓ} → (ℕ → A) → ℕ → ℕ → List A
window f i zero = []
window f i (suc n) = f i ∷ window f (i + 1) n

-- `for (j = i; j < i + n; j++) if (test j) return j;`
unfoldable pub find_from : (ℕ → Bool) → ℕ → ℕ → Option ℕ
find_from test zero i = none
find_from test (suc n) i = if test i then some i else find_from test n (i + 1)

-- `for (j = i; j < i + n; j++) body(j);`
unfoldable pub for_from {ℓ} : {S : Type ℓ} → (ℕ → S → S) → ℕ → ℕ → S → S
for_from body zero i s = s
for_from body (suc n) i s = for_from body n (i + 1) (body i s)

-- An index that the search returns passes the test, and no index before it does.
pub find_from-some :
    (test : ℕ → Bool) (n i j : ℕ)
    → find_from test n i ≡ some j
    → (test j ≡ true) × (i ≤ j) × (j < i + n)
unfolding find_from
find_from-some test zero i j h = ground arith
find_from-some test (suc n) i j h = ground (arith, find_from-some test n (i + 1) j)

pub find_from_least :
    (test : ℕ → Bool) (n i j k : ℕ) → find_from test n i ≡ some j → i ≤ k → k < j → test k ≡ false
unfolding find_from
find_from_least test zero i j k h lo hi = ground arith
find_from_least test (suc n) i j k h lo hi = elim (Bool-cases (test i)) [
  | inl t ↦ ground arith
  | inr f ↦ elim (Bool-cases (i == k)) [
    | inl e ↦ ground arith
    | inr ne ↦ ground (arith, find_from_least test n (i + 1) j k)
  ]
]

-- A search that fails has tried every index.
pub find_from-none :
    (test : ℕ → Bool) (n i k : ℕ) → find_from test n i ≡ none → i ≤ k → k < i + n → test k ≡ false
unfolding find_from
find_from-none test zero i k h lo hi = absurd (omega arith)
find_from-none test (suc n) i k h lo hi = elim (Bool-cases (i == k)) [
  | inl e ↦ ground arith
  | inr ne ↦ ground (arith, find_from-none test n (i + 1) k)
]

-- A search succeeds if some index in range passes.
pub find_from_total :
    (test : ℕ → Bool) (n i k : ℕ)
    → i ≤ k
    → k < i + n
    → test k ≡ true
    → (j : ℕ) × (find_from test n i ≡ some j)
unfolding find_from
find_from_total test zero i k lo hi h = absurd (omega arith)
find_from_total test (suc n) i k lo hi h = elim (Bool-cases (test i)) [
  | inl t ↦ (i, rw t)
  | inr f ↦ rw f (find_from_total test n (i + 1) k (ground arith) (omega arith) h)
]

-- The invariant rule of the counted loop.
pub for_from_inv {ℓ κ} :
    {S : Type ℓ} (P : ℕ → S → Type κ) (body : ℕ → S → S) (last : ℕ)
    → ((i : ℕ) (s : S) → i < last → P i s → P (i + 1) (body i s))
    → (n i : ℕ) (s : S) → i + n ≡ last
    → P i s
    → P last (for_from body n i s)
unfolding for_from
for_from_inv P body last keep zero i s e h = let e' : i ≡ last = omega arith in rw (← e') h
for_from_inv P body last keep (suc n) i s e h =
    for_from_inv P body last keep n (i + 1) (body i s) (omega arith) (keep i s (omega arith) h)

-- What a search returns, by the values of the test.
pub find_from_is :
    (test : ℕ → Bool) (n i j : ℕ)
    → i ≤ j
    → j < i + n
    → test j ≡ true
    → ((k : ℕ) → i ≤ k → k < j → test k ≡ false)
    → find_from test n i ≡ some j
unfolding find_from
find_from_is test zero i j lo hi t h = absurd (omega arith)
find_from_is test (suc n) i j lo hi t h = elim (Bool-cases (i == j)) [
  | inl e ↦ ground arith
  | inr ne ↦ ground (
    arith,
    h i,
    find_from_is test n (i + 1) j (ground arith) (omega arith) t
        (λ k lo' hi'. h k (omega arith) hi'),
  )
]

pub find_from_is_none :
    (test : ℕ → Bool) (n i : ℕ)
    → ((k : ℕ) → i ≤ k → k < i + n → test k ≡ false)
    → find_from test n i ≡ none
unfolding find_from
find_from_is_none test zero i h = refl
find_from_is_none test (suc n) i h =
    ground
      (arith, h i, find_from_is_none test n (i + 1) (λ k lo hi. h k (omega arith) (omega arith)))
