-- ===== src/Paging/Lookup.antt =====
-- walk and mappages of initial-xv6/src/kernel/vm.c: an address that has been mapped is found again.
use cpu_scheduling_algos.Prelude.{
  ℕ, ◌%◌, ◌^◌, ◌<◌, ◌≡◌, ◌≢◌, refl, sym, ap, subst, ◌∙◌, ◌⊎◌, inl, inr, Bool, true, false, Option,
  none, some, arith, Bool-cases, List, [], ◌∷◌, update,
}
use cpu_scheduling_algos.Kalloc.{Memory, fill_page, kalloc}
use cpu_scheduling_algos.Kalloc.Chain.{Avoids, IsFree, kalloc-Served, Chain-update}
use cpu_scheduling_algos.Paging.{pte_pa, make_pte, is_valid, is_user, px, set_word, descend}

-- What an entry says is what it was made of.
pub pte_pa-make_pte :
    (pa perm : ℕ) → pa % 4096 ≡ 0 → pa < 2 ^ 56 → perm < 1024 → pte_pa (make_pte pa perm) ≡ pa
pte_pa-make_pte pa perm aligned lt flags = omega arith

pub is_valid-make_pte : (pa perm : ℕ) → is_valid (make_pte pa perm) ≡ true
is_valid-make_pte pa perm = ground arith

pub is_user-make_pte : (pa perm : ℕ) → perm < 1024 → is_user (make_pte pa perm) ≡ is_user perm
is_user-make_pte pa perm lt = ground arith

-- Every page of the list is aligned and within the physical addresses of 56 bits.
abbrev pub AllProper : List ℕ → Type 0
AllProper [] = Unit
AllProper (x ∷ xs) = ((x % 4096 ≡ 0) × (x < 2 ^ 56)) × AllProper xs

-- What one round of walk has done, with free pages `xs` before and `xs'` after it.
pub record Descended (m : Memory) (level va t : ℕ) (xs : List ℕ) (t' : ℕ) (m' : Memory)
    (xs' : List ℕ) : Type 0 where
  pub free : IsFree m' xs'
  pub proper : AllProper xs'
  pub valid : is_valid (m'.words t (px level va)) ≡ true
  pub points : pte_pa (m'.words t (px level va)) ≡ t'
  pub frame : (p w : ℕ) → Avoids p xs → t ≢ p → m'.words p w ≡ m.words p w
  pub origin :
      ((m' ≡ m)
        × (xs' ≡ xs)
        × (is_valid (m.words t (px level va)) ≡ true)
        × (pte_pa (m.words t (px level va)) ≡ t'))
      ⊎ ((xs ≡ t' ∷ xs') × ((w : ℕ) → m'.words t' w ≡ 0))

pub descend_old :
    (alloc : Bool) (level va t : ℕ) (m : Memory)
    → is_valid (m.words t (px level va)) ≡ true
    → descend alloc level va t m ≡ (some (pte_pa (m.words t (px level va))), m)
unfolding descend
descend_old alloc level va t m v = rw v refl

descend-none :
    (level va t : ℕ) (m : Memory)
    → is_valid (m.words t (px level va)) ≡ false
    → (kalloc m).0 ≡ none
    → (descend true level va t m).0 ≡ none
unfolding descend
descend-none level va t m v e = rw (v, e) refl

descend_new :
    (level va t x : ℕ) (m : Memory)
    → is_valid (m.words t (px level va)) ≡ false
    → (kalloc m).0 ≡ some x
    → descend true level va t m
      ≡ (some x, set_word t (px level va) (make_pte x 0) (fill_page x 0 (kalloc m).1))
unfolding descend
descend_new level va t x m v e = rw (v, e) refl

new_table :
    (level va t x : ℕ) (xs : List ℕ) (m : Memory)
    → IsFree m (x ∷ xs)
    → AllProper (x ∷ xs)
    → Avoids t (x ∷ xs)
    → Descended m level va t
        (x ∷ xs)
        x
        (set_word t (px level va) (make_pte x 0) (fill_page x 0 (kalloc m).1))
        xs
new_table level va t x xs m free proper away =
    let s = kalloc-Served m (x ∷ xs) free in
    let m1 = (kalloc m).1 in
    record {
      free = (
        Chain-update (update m1.words x (λ _. 0)) t m1.freelist
            (update (update m1.words x (λ _. 0) t) (px level va) (make_pte x 0)) xs away.1
            (Chain-update m1.words x m1.freelist (λ _. 0) xs free.1.0 s.1.0),
        free.1.1,
      );
      proper = proper.1;
      valid = ground (arith, is_valid-make_pte x 0);
      points = ground (arith, pte_pa-make_pte x 0 proper.0.0 proper.0.1 (omega arith));
      frame = λ p w a ne. ground (arith, s.3 p w a.0);
      origin = inr (refl, λ w. ground (arith, away.0));
    }

old_table :
    (level va t : ℕ) (xs : List ℕ) (m : Memory)
    → is_valid (m.words t (px level va)) ≡ true
    → IsFree m xs
    → AllProper xs
    → Descended m level va t xs (pte_pa (m.words t (px level va))) m xs
old_table level va t xs m v free proper = record {
  free = free;
  proper = proper;
  valid = v;
  points = refl;
  frame = λ p w a ne. refl;
  origin = inl (refl, refl, v, refl);
}

-- A round that finds or makes a table.
pub descend_lem :
    (level va t t' : ℕ) (xs : List ℕ) (m m' : Memory)
    → IsFree m xs
    → AllProper xs
    → Avoids t xs
    → descend true level va t m ≡ (some t', m')
    → (xs' : List ℕ) × Descended m level va t xs t' m' xs'
descend_lem level va t t' xs m m' free proper away h =
    elim (Bool-cases (is_valid (m.words t (px level va)))) [
      | inl v ↦
          let e = sym (descend_old true level va t m v) ∙ h in
          (
            xs,
            subst (λ (r : ℕ × Memory). Descended m level va t xs r.0 r.1 xs) (pair e)
                (old_table level va t xs m v free proper),
          )
      | inr v ↦ made v xs free proper away
    ]
  where
    pair :
        {a b : ℕ} {x y : Memory}
        → ◌≡◌ {A = Option ℕ × Memory} (some a, x) (some b, y)
        → ◌≡◌ {A = ℕ × Memory} (a, x) (b, y)
    pair e = cc e

    made :
        is_valid (m.words t (px level va)) ≡ false
        → (ys : List ℕ) → IsFree m ys
        → AllProper ys
        → Avoids t ys
        → (xs' : List ℕ) × Descended m level va t ys t' m' xs'
    made v [] f p a =
        let e =
          descend-none level va t m v
            (ap (λ (r : Option ℕ × Memory). r.0) (kalloc-Served m [] f)) in
        cc (sym e ∙ ap (λ (r : Option ℕ × Memory). r.0) h)
    made v (x ∷ ys) f p a =
        let e = sym (descend_new level va t x m v (kalloc-Served m (x ∷ ys) f).0) ∙ h in
        (
          ys,
          subst (λ (r : ℕ × Memory). Descended m level va t (x ∷ ys) r.0 r.1 ys) (pair e)
              (new_table level va t x ys m f p a),
        )
