-- ===== src/Prelude/Windows.antt =====
-- The lists that windows of C arrays hold, searched and edited.
use Prim.Native.Nat.{ℕ, zero, suc, ◌+◌, ◌<◌}
use mathlib.Core.Path.{◌≡◌, refl, ap, ap₂}
use mathlib.Core.Logic.{inl, inr}
use mathlib.Core.Bool.{Bool, true, false, ◌||◌}
use mathlib.Core.List.{List, [], ◌∷◌, ◌++◌}
use mathlib.Core.Option.{none, some}
use native.Mathlib.Omega.{arith}
use cpu_scheduling_algos.Prelude.Tests.{ltb, if◌then◌else◌, Bool-cases}
use cpu_scheduling_algos.Prelude.Lists.{length}
use cpu_scheduling_algos.Prelude.Arrays.{window, find_from, find_from-some}

module _ {ℓ} {A : Type ℓ} where
  abbrev pub any : (A → Bool) → List A → Bool
  any test [] = false
  any test (x ∷ xs) = test x || any test xs

  -- The list without its first element that passes the test.
  abbrev pub erase_first : (A → Bool) → List A → List A
  erase_first test [] = []
  erase_first test (x ∷ xs) = if test x then xs else x ∷ erase_first test xs

  pub window_eq :
      (f g : ℕ → A) (n i j : ℕ)
      → ((k : ℕ) → k < n → f (i + k) ≡ g (j + k))
      → window f i n ≡ window g j n
  window_eq f g zero i j h = refl
  window_eq f g (suc n) i j h =
      ap₂ ◌∷◌ (ground (arith, h 0))
        (window_eq f g n (i + 1) (j + 1) (λ k lt. ground (arith, h (k + 1))))

  pub window_snoc : (f : ℕ → A) (n i : ℕ) → window f i (suc n) ≡ window f i n ++ f (i + n) ∷ []
  window_snoc f zero i = ground arith
  window_snoc f (suc n) i = ap (λ xs. f i ∷ xs) (ground (arith, window_snoc f n (i + 1)))

  -- The array with the element at `j` taken out and the later ones moved down.
  abbrev pub without : (ℕ → A) → ℕ → ℕ → A
  without f j k = if ltb k j then f k else f (k + 1)

  pub erase_first-window :
      (test : A → Bool) (f : ℕ → A) (n i j : ℕ)
      → find_from (λ k. test (f k)) (suc n) i ≡ some j
      → erase_first test (window f i (suc n)) ≡ window (without f j) i n
  unfolding find_from
  erase_first-window test f zero i j h = ground arith
  erase_first-window test f (suc n) i j h = elim (Bool-cases (test (f i))) [
    | inl t ↦ ground (arith, window_eq f (without f j) (suc n) (i + 1) i (λ k lt. ground arith))
    | inr e ↦ ground (
      arith,
      erase_first-window test f n (i + 1) j,
      find_from-some (λ k. test (f k)) (suc n) (i + 1) j,
    )
  ]

  pub any-window-none :
      (test : A → Bool) (f : ℕ → A) (n i : ℕ)
      → find_from (λ k. test (f k)) n i ≡ none
      → any test (window f i n) ≡ false
  unfolding find_from
  any-window-none test f zero i h = refl
  any-window-none test f (suc n) i h = ground (arith, any-window-none test f n (i + 1))

  pub any-window-some :
      (test : A → Bool) (f : ℕ → A) (n i j : ℕ)
      → find_from (λ k. test (f k)) n i ≡ some j
      → any test (window f i n) ≡ true
  unfolding find_from
  any-window-some test f zero i j h = ground arith
  any-window-some test f (suc n) i j h = ground (arith, any-window-some test f n (i + 1) j)

  pub erase_first-none :
      (test : A → Bool) (xs : List A) → any test xs ≡ false → erase_first test xs ≡ xs
  erase_first-none test [] h = refl
  erase_first-none test (x ∷ xs) h = ground (arith, erase_first-none test xs)

  pub length-window : (f : ℕ → A) (n i : ℕ) → length (window f i n) ≡ n
  length-window f zero i = refl
  length-window f (suc n) i = ap suc (length-window f n (i + 1))

  -- Where an element of a window stands in the array.
  pub window_entry :
      (f : ℕ → A) (n i : ℕ) (before : List A) (x : A) (after : List A)
      → window f i n ≡ before ++ x ∷ after
      → f (i + length before) ≡ x
  window_entry f zero i [] x after e = absurd (ground arith)
  window_entry f (suc n) i [] x after e = ground arith
  window_entry f zero i (b ∷ before) x after e = absurd (ground arith)
  window_entry f (suc n) i (b ∷ before) x after e =
      ground (arith, window_entry f n (i + 1) before x after)
