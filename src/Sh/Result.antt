-- ===== src/Sh/Result.antt =====
-- How a function of the parser of initial-xv6/src/user/sh.c ends: it returns, or it calls `panic`, which
-- ends the process. `out_of_fuel` is the model's own.
use cpu_scheduling_algos.Prelude.{◌≡◌, ◌⊎◌, inl, inr, refl, Bool, true, false, if◌then◌else◌}

pub data Parsed {ℓ} (A : Type ℓ) : Type ℓ where
  ok : A → Parsed A
  refused : Parsed A
  out_of_fuel : Parsed A

infixl 5 ◌>>=◌
abbrev pub ◌>>=◌ {ℓ κ} : {A : Type ℓ} {B : Type κ} → Parsed A → (A → Parsed B) → Parsed B
ok a >>= f = f a
refused >>= f = refused
out_of_fuel >>= f = out_of_fuel

-- There was fuel enough, and a value that is returned has the property.
unfoldable pub Within {ℓ} : {A : Type ℓ} → (A → Type 0) → Parsed A → Type 0
Within P (ok a) = P a
Within P refused = Unit
Within P out_of_fuel = ⊥

module _ {ℓ} {A : Type ℓ} where
  -- The two ways in which such a run ends.
  pub Within-ends :
      (P : A → Type 0) (r : Parsed A) → Within P r → ((a : A) × (r ≡ ok a) × P a) ⊎ (r ≡ refused)
  unfolding Within
  Within-ends P (ok a) h = inl (a, refl, h)
  Within-ends P refused h = inr refl
  Within-ends P out_of_fuel h = absurd h

  pub Within-bind {κ} :
      {B : Type κ} (P : A → Type 0) (Q : B → Type 0) (r : Parsed A) (f : A → Parsed B)
      → Within P r
      → ((a : A) → P a → Within Q (f a))
      → Within Q (r >>= f)
  unfolding Within
  Within-bind P Q (ok a) f h k = k a h
  Within-bind P Q refused f h k = tt
  Within-bind P Q out_of_fuel f h k = absurd h

  pub Within-if :
      (P : A → Type 0) (b : Bool) (x y : Parsed A)
      → (b ≡ true → Within P x)
      → (b ≡ false → Within P y)
      → Within P (if b then x else y)
  Within-if P true x y hx hy = hx refl
  Within-if P false x y hx hy = hy refl
