-- ===== src/Paging/Mapping.antt =====
-- A page whose address mappages has mapped is found again by walkaddr (initial-xv6/src/kernel/vm.c).
use cpu_scheduling_algos.Prelude.{
  ℕ, suc, ◌+◌, ◌-◌, ◌/◌, ◌%◌, ◌^◌, ◌<◌, ◌≡◌, ◌≢◌, refl, sym, ap, ap₂, subst, ◌∙◌, inl, inr, Bool,
  true, false, not, ◌&&◌, Option, none, some, Option-cases, arith, ◌==◌, leb, if◌then◌else◌,
  Bool-cases, List, done,
}
use cpu_scheduling_algos.Kalloc.{Memory, page_size}
use cpu_scheduling_algos.Kalloc.Chain.{Avoids, PagesDistinct, IsFree}
use cpu_scheduling_algos.Vm.{max_va}
use cpu_scheduling_algos.Paging.{
  pte_pa, make_pte, is_valid, is_user, px, set_word, descend, walk_low, walk, user_page, walkaddr,
  map_pages, mappages, round_down,
}
use cpu_scheduling_algos.Paging.Lookup.{
  pte_pa-make_pte, is_valid-make_pte, is_user-make_pte, AllProper, Descended, descend_old,
  descend_lem,
}

-- The page tables on the way to an address, as far as they are there, and the free pages `xs` are all
-- different pages.
pub record IsSeparate (m : Memory) (root va : ℕ) (xs : List ℕ) : Type 0 where
  pub free : IsFree m xs
  pub proper : AllProper xs
  pub root_used : Avoids root xs
  pub middle_used :
      is_valid (m.words root (px 2 va)) ≡ true
      → (root ≢ pte_pa (m.words root (px 2 va))) × Avoids (pte_pa (m.words root (px 2 va))) xs
  pub bottom_used :
      is_valid (m.words root (px 2 va)) ≡ true
      → is_valid (m.words (pte_pa (m.words root (px 2 va))) (px 1 va)) ≡ true
      → (root ≢ pte_pa (m.words (pte_pa (m.words root (px 2 va))) (px 1 va)))
        × (pte_pa (m.words root (px 2 va))
            ≢ pte_pa (m.words (pte_pa (m.words root (px 2 va))) (px 1 va)))

-- The way from the root to the entry `i` of table `t`.
pub record IsPath (m : Memory) (root va t1 t i : ℕ) : Type 0 where
  pub middle : is_valid (m.words root (px 2 va)) ≡ true
  pub middle_is : pte_pa (m.words root (px 2 va)) ≡ t1
  pub bottom : is_valid (m.words t1 (px 1 va)) ≡ true
  pub bottom_is : pte_pa (m.words t1 (px 1 va)) ≡ t
  pub index : px 0 va ≡ i
  pub root_apart : root ≢ t
  pub middle_apart : t1 ≢ t

-- The middle table is neither the root nor free.
middle_away :
    (m m1 : Memory) (root va t1 : ℕ) (xs xs' : List ℕ)
    → IsSeparate m root va xs
    → Descended m 2 va root xs t1 m1 xs'
    → (root ≢ t1) × Avoids t1 xs' × Avoids root xs'
middle_away m m1 root va t1 xs xs' s d = elim d.origin [
  | inl (same, left, v, is) ↦
      (rw (← is) (s.middle_used v).0, rw (left, ← is) (s.middle_used v).1, rw left s.root_used)
  | inr (taken, zeros) ↦
      let f = subst (λ ys. PagesDistinct ys) taken s.free.1 in
      let a = subst (λ ys. Avoids root ys) taken s.root_used in ((λ e. a.0 (sym e)), f.0, a.1)
]

bottom_away :
    (m m1 m2 : Memory) (root va t1 t : ℕ) (xs xs' xs2 : List ℕ)
    → IsSeparate m root va xs
    → (d1 : Descended m 2 va root xs t1 m1 xs') → Descended m1 1 va t1 xs' t m2 xs2
    → (root ≢ t) × (t1 ≢ t)
bottom_away m m1 m2 root va t1 t xs xs' xs2 s d1 d2 = elim d2.origin [
  | inr (taken, zeros) ↦
      let (ne, a1, a) = middle_away m m1 root va t1 xs xs' s d1 in
      let b = subst (λ ys. Avoids root ys) taken a in
      let b1 = subst (λ ys. Avoids t1 ys) taken a1 in ((λ e. b.0 (sym e)), (λ e. b1.0 (sym e)))
  | inl (same2, left2, v2, is2) ↦ elim d1.origin [
    | inr (taken, zeros) ↦ absurd (ground (arith, zeros (px 1 va)))
    | inl (same, left, v, is) ↦
        let v2' : is_valid (m.words t1 (px 1 va)) ≡ true = rw (← same) v2 in
        let is2' : pte_pa (m.words t1 (px 1 va)) ≡ t = rw (← same) is2 in
        let b = s.bottom_used v (rw is v2') in
        let below = sym is2' ∙ ap (λ x. pte_pa (m.words x (px 1 va))) (sym is) in
        (λ e. b.0 (e ∙ below), λ e. b.1 (is ∙ e ∙ below))
  ]
]

walk_low_first :
    (alloc : Bool) (root va : ℕ) (m : Memory)
    → (descend alloc 2 va root m).0 ≡ none
    → (walk_low alloc root va m).0 ≡ none
unfolding walk_low
walk_low_first alloc root va m e = rw (e, walk_low) refl

walk_low_second :
    (alloc : Bool) (root va t1 : ℕ) (m : Memory)
    → (descend alloc 2 va root m).0 ≡ some t1
    → (descend alloc 1 va t1 (descend alloc 2 va root m).1).0 ≡ none
    → (walk_low alloc root va m).0 ≡ none
unfolding walk_low
walk_low_second alloc root va t1 m e e2 = rw (e, walk_low) (rw e2 refl)

walk_low_found :
    (alloc : Bool) (root va t1 t0 : ℕ) (m : Memory)
    → (descend alloc 2 va root m).0 ≡ some t1
    → (descend alloc 1 va t1 (descend alloc 2 va root m).1).0 ≡ some t0
    → walk_low alloc root va m
      ≡ (some (t0, px 0 va), (descend alloc 1 va t1 (descend alloc 2 va root m).1).1)
unfolding walk_low
walk_low_found alloc root va t1 t0 m e e2 = rw (e, walk_low) (rw e2 refl)

IsPath-found :
    (m m1 m2 : Memory) (root va t1 t : ℕ) (xs xs' xs2 : List ℕ)
    → IsSeparate m root va xs
    → Descended m 2 va root xs t1 m1 xs'
    → Descended m1 1 va t1 xs' t m2 xs2
    → IsPath m2 root va t1 t (px 0 va)
IsPath-found m m1 m2 root va t1 t xs xs' xs2 s d1 d2 =
    let (ne, a1, a) = middle_away m m1 root va t1 xs xs' s d1 in
    let (ne2, ne3) = bottom_away m m1 m2 root va t1 t xs xs' xs2 s d1 d2 in
    let stays = d2.frame root (px 2 va) a (λ e. ne (sym e)) in
    record {
      middle = rw stays d1.valid;
      middle_is = rw stays d1.points;
      bottom = d2.valid;
      bottom_is = d2.points;
      index = refl;
      root_apart = ne2;
      middle_apart = ne3;
    }

-- If walk with alloc set finds an entry, there is a way to it.
pub walk_low-IsPath :
    (root va t i : ℕ) (xs : List ℕ) (m m2 : Memory)
    → IsSeparate m root va xs
    → walk_low true root va m ≡ (some (t, i), m2)
    → (t1 : ℕ) × IsPath m2 root va t1 t i
walk_low-IsPath root va t i xs m m2 s h = elim (Option-cases (descend true 2 va root m).0) [
  | inl e ↦ absurd (none_first e)
  | inr (t1, e) ↦ elim (Option-cases (descend true 1 va t1 (descend true 2 va root m).1).0) [
    | inl e2 ↦ absurd (none_second t1 e e2)
    | inr (t0, e2) ↦
        let m1 = (descend true 2 va root m).1 in
        let (xs', d1) = descend_lem 2 va root t1 xs m m1 s.free s.proper s.root_used (pair e) in
        let (ne, a1, a) = middle_away m m1 root va t1 xs xs' s d1 in
        let (xs2, d2) =
          descend_lem 1 va t1 t0 xs' m1 (descend true 1 va t1 m1).1 d1.free d1.proper a1
            (pair e2) in
        let p = IsPath-found m m1 (descend true 1 va t1 m1).1 root va t1 t0 xs xs' xs2 s d1 d2 in
        (
          t1,
          subst (λ (r : ℕ × ℕ × Memory). IsPath r.2 root va t1 r.0 r.1)
              (triple (sym (walk_low_found true root va t1 t0 m e e2) ∙ h)) p,
        )
  ]
]
  where
    pair : {r : Option ℕ × Memory} {x : ℕ} → r.0 ≡ some x → r ≡ (some x, r.1)
    pair {r} e = λ i. (e i, r.1)

    triple :
        {a b c d : ℕ} {x y : Memory}
        → ◌≡◌ {A = Option (ℕ × ℕ) × Memory} (some (a, b), x) (some (c, d), y)
        → ◌≡◌ {A = ℕ × ℕ × Memory} (a, b, x) (c, d, y)
    triple e = cc e

    result : (walk_low true root va m).0 ≡ some (t, i)
    result = ap (λ (r : Option (ℕ × ℕ) × Memory). r.0) h

    none_first : (descend true 2 va root m).0 ≡ none → ⊥
    none_first e = cc (sym (walk_low_first true root va m e) ∙ result)

    none_second :
        (t1 : ℕ)
        → (descend true 2 va root m).0 ≡ some t1
        → (descend true 1 va t1 (descend true 2 va root m).1).0 ≡ none
        → ⊥
    none_second t1 e e2 = cc (sym (walk_low_second true root va t1 m e e2) ∙ result)

-- A read-only walk along a way ends at its entry.
pub IsPath-walk_low :
    (m : Memory) (root va t1 t i : ℕ)
    → IsPath m root va t1 t i
    → walk_low false root va m ≡ (some (t, i), m)
IsPath-walk_low m root va t1 t i p =
    let d : descend false 2 va root m ≡ (some t1, m) =
      descend_old false 2 va root m p.middle ∙ ap (λ x. (some x, m)) p.middle_is in
    let d0 : descend false 1 va t1 m ≡ (some t, m) =
      descend_old false 1 va t1 m p.bottom ∙ ap (λ x. (some x, m)) p.bottom_is in
    let d2 = ap (λ (r : Option ℕ × Memory). descend false 1 va t1 r.1) d ∙ d0 in
    walk_low_found false root va t1 t m (ap (λ (r : Option ℕ × Memory). r.0) d)
      (ap (λ (r : Option ℕ × Memory). r.0) d2)
    ∙ ap (λ (r : Option ℕ × Memory). (some (t, px 0 va), r.1)) d2
    ∙ ap (λ j. (some (t, j), m)) p.index

-- An entry at the end of a way can be written without harm to the way.
IsPath-set_word :
    (m : Memory) (root va t1 t i w : ℕ)
    → IsPath m root va t1 t i
    → IsPath (set_word t i w m) root va t1 t i
IsPath-set_word m root va t1 t i w p = record {
  middle = ground (arith, p.middle, p.root_apart);
  middle_is = ground (arith, p.middle_is, p.root_apart);
  bottom = ground (arith, p.bottom, p.middle_apart);
  bottom_is = ground (arith, p.bottom_is, p.middle_apart);
  index = p.index;
  root_apart = p.root_apart;
  middle_apart = p.middle_apart;
}

-- The single round of mappages for one page that succeeds.
map_one :
    (fuel root va pa perm : ℕ) (m m' : Memory)
    → va < max_va
    → map_pages (suc fuel) root va va pa perm m ≡ done (true, m')
    → (t : ℕ) × (i : ℕ) × (m1 : Memory) × (walk_low true root va m ≡ (some (t, i), m1))
      × (m' ≡ set_word t i (make_pte pa perm) m1)
unfolding map_pages walk
map_one fuel root va pa perm m m' lt h = elim (Option-cases (walk_low true root va m).0) [
  | inl e ↦ absurd (ground arith)
  | inr ((t, i), e) ↦
      (t, i, (walk_low true root va m).1, (λ j. (e j, (walk_low true root va m).1)), ground arith)
]

mappages_one :
    (root va pa perm : ℕ) (m : Memory)
    → va % 4096 ≡ 0
    → va < max_va
    → mappages root va page_size pa perm m
      ≡ map_pages (suc (max_va / page_size)) root va va pa perm m
unfolding mappages
mappages_one root va pa perm m aligned lt =
    let first : round_down va ≡ va = omega arith in
    let last : round_down ((va + (page_size - 1)) % 2 ^ 64) ≡ va = omega arith in
    ap₂ (λ a b. map_pages (suc (max_va / page_size)) root a b pa perm m) first last

entry_user :
    (pa perm word : ℕ)
    → word ≡ make_pte pa perm
    → pa % 4096 ≡ 0
    → pa < 2 ^ 56
    → perm < 1024
    → 0 < pa
    → (if is_valid word && is_user word && not (pte_pa word == 0) then some (pte_pa word) else none)
      ≡ (if is_user perm then some pa else none)
entry_user pa perm word e aligned lt perm_lt some_pa =
    let nonzero : (pa == 0) ≡ false = ground arith in
    rw
      (
        e,
        is_valid-make_pte pa perm,
        is_user-make_pte pa perm perm_lt,
        pte_pa-make_pte pa perm aligned lt perm_lt,
      )
      (elim (Bool-cases (is_user perm)) [ inl u ↦ rw (u, nonzero) refl | inr u ↦ rw u refl ])

user_page_made :
    (t i pa perm : ℕ) (m : Memory)
    → pa % 4096 ≡ 0
    → pa < 2 ^ 56
    → perm < 1024
    → 0 < pa
    → user_page (set_word t i (make_pte pa perm) m) (some (t, i))
      ≡ (if is_user perm then some pa else none)
user_page_made t i pa perm m aligned lt perm_lt some_pa =
    entry_user pa perm ((set_word t i (make_pte pa perm) m).words t i) (ground arith) aligned lt
      perm_lt some_pa

walkaddr_is :
    (root va t i : ℕ) (m : Memory)
    → va < max_va
    → walk_low false root va m ≡ (some (t, i), m)
    → walkaddr root va m ≡ user_page m (some (t, i))
unfolding walkaddr
walkaddr_is root va t i m lt e = let low : leb max_va va ≡ false = ground arith in rw (low, e) refl

-- What mappages maps, walkaddr finds: if mapping one page at an aligned address below MAXVA succeeds,
-- then walkaddr gives its physical page if the permissions include PTE_U, and nothing otherwise. It
-- holds where the page tables on the way and the free pages are all different pages, and the physical page is
-- aligned, below 2^56 and not page 0.
pub walkaddr-mappages :
    (root va pa perm : ℕ) (xs : List ℕ) (m m' : Memory)
    → IsSeparate m root va xs
    → va % 4096 ≡ 0
    → va < max_va
    → pa % 4096 ≡ 0
    → pa < 2 ^ 56
    → perm < 1024
    → 0 < pa
    → mappages root va page_size pa perm m ≡ done (true, m')
    → walkaddr root va m' ≡ (if is_user perm then some pa else none)
walkaddr-mappages root va pa perm xs m m' s aligned lt pa_aligned pa_lt perm_lt some_pa h =
    let (t, i, m1, w, m_is) =
      map_one (max_va / page_size) root va pa perm m m' lt
        (sym (mappages_one root va pa perm m aligned lt) ∙ h) in
    let (t1, p) = walk_low-IsPath root va t i xs m m1 s w in
    let p' = IsPath-set_word m1 root va t1 t i (make_pte pa perm) p in
    rw m_is (
      walkaddr_is root va t i (set_word t i (make_pte pa perm) m1) lt
        (IsPath-walk_low (set_word t i (make_pte pa perm) m1) root va t1 t i p')
      ∙ user_page_made t i pa perm m1 pa_aligned pa_lt perm_lt some_pa)
