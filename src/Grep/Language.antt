-- ===== src/Grep/Language.antt =====
-- The matcher of initial-xv6/src/user/grep.c decides the language of the patterns.
use cpu_scheduling_algos.Prelude.{
  ℕ, ◌==◌, subst, Bool, true, false, ◌&&◌, List, [], ◌∷◌, ◌≡◌, ◌≢◌, ◌↔◌, refl, sym, ◌∙◌, ◌⊎◌, inl,
  inr, Bool-cases, arith,
}
use cpu_scheduling_algos.Grep.{
  star, caret, dollar, is_empty, fits, matchstar, match_one, matchhere, match_from, match,
}

-- `re[1] == '*'`
abbrev pub starred : List ℕ → Bool
starred [] = false
starred (c ∷ re) = c == star

-- A text that starts with a match of the pattern.
pub data Here : List ℕ → List ℕ → Type 0 where
  nothing : (text : List ℕ) → Here [] text
  stop : {c : ℕ} {re text : List ℕ} → Here re text → Here (c ∷ star ∷ re) text
  again :
      {c t : ℕ} {re text : List ℕ}
      → fits c t ≡ true
      → Here (c ∷ star ∷ re) text
      → Here (c ∷ star ∷ re) (t ∷ text)
  end : Here (dollar ∷ []) []
  one :
      {c t : ℕ} {re text : List ℕ}
      → starred re ≡ false
      → (c == dollar && is_empty re) ≡ false
      → fits c t ≡ true
      → Here re text
      → Here (c ∷ re) (t ∷ text)

-- A text that has a match of the pattern somewhere.
pub data Somewhere (re : List ℕ) : List ℕ → Type 0 where
  at : {text : List ℕ} → Here re text → Somewhere re text
  later : {t : ℕ} {text : List ℕ} → Somewhere re text → Somewhere re (t ∷ text)

-- The pattern after its `^`, if it has one.
abbrev pub Matches : List ℕ → List ℕ → Type 0
Matches [] text = Somewhere [] text
Matches (c ∷ re) text = ((c ≡ caret) × Here re text) ⊎ ((c ≢ caret) × Somewhere (c ∷ re) text)

matchstar→Here :
    (re : List ℕ) (c : ℕ) (text : List ℕ)
    → ((ts : List ℕ) → matchhere re ts ≡ true → Here re ts)
    → matchstar (matchhere re) c text ≡ true
    → Here (c ∷ star ∷ re) text
unfolding matchstar
matchstar→Here re c [] sound h = stop (sound [] h)
matchstar→Here re c (t ∷ ts) sound h = elim (Bool-cases (matchhere re (t ∷ ts))) [
  | inl e ↦ stop (sound (t ∷ ts) e)
  | inr e ↦ elim (Bool-cases (fits c t)) [
    | inl f ↦ again f (matchstar→Here re c ts sound (ground arith))
    | inr f ↦ absurd (ground arith)
  ]
]

match_one→Here :
    (here : List ℕ → Bool) (c : ℕ) (re text : List ℕ)
    → starred re ≡ false
    → (c == dollar && is_empty re) ≡ false
    → ((ts : List ℕ) → here ts ≡ true → Here re ts)
    → match_one here c text ≡ true
    → Here (c ∷ re) text
match_one→Here here c re [] plain no_end sound h = absurd (ground arith)
match_one→Here here c re (t ∷ ts) plain no_end sound h = elim (Bool-cases (fits c t)) [
  | inl f ↦ one plain no_end f (sound ts (ground arith))
  | inr f ↦ absurd (ground arith)
]

end→Here : (c : ℕ) (text : List ℕ) → c ≡ dollar → is_empty text ≡ true → Here (c ∷ []) text
end→Here c [] e h = subst (λ x. Here (x ∷ []) []) (sym e) end
end→Here c (t ∷ ts) e h = absurd (ground arith)

matchhere→Here : (re text : List ℕ) → matchhere re text ≡ true → Here re text
unfolding matchhere
matchhere→Here [] text h = nothing text
matchhere→Here (c ∷ []) text h = elim (Bool-cases (c == dollar)) [
  | inl e ↦ end→Here c text (ground arith) (ground arith)
  | inr f ↦
      match_one→Here (λ ts. true) c [] text refl (ground arith) (λ ts x. nothing ts) (ground arith)
]
matchhere→Here (c ∷ d ∷ re) text h = elim (Bool-cases (d == star)) [
  | inl e ↦
      let here : Here (c ∷ star ∷ re) text =
        matchstar→Here re c text (matchhere→Here re) (ground arith) in
      subst (λ x. Here (c ∷ x ∷ re) text) (ground arith) here
  | inr f ↦
      match_one→Here (matchhere (d ∷ re)) c (d ∷ re) text f (ground arith) (matchhere→Here (d ∷ re))
        (ground arith)
]

matchstar-here :
    (here : List ℕ → Bool) (c : ℕ) (text : List ℕ) → here text ≡ true → matchstar here c text ≡ true
unfolding matchstar
matchstar-here here c [] h = h
matchstar-here here c (t ∷ ts) h = ground arith

matchstar-cons :
    (here : List ℕ → Bool) (c t : ℕ) (text : List ℕ)
    → fits c t ≡ true
    → matchstar here c text ≡ true
    → matchstar here c (t ∷ text) ≡ true
unfolding matchstar
matchstar-cons here c t text f h = ground arith

match_one-true :
    (here : List ℕ → Bool) (c t : ℕ) (ts : List ℕ)
    → fits c t ≡ true
    → here ts ≡ true
    → match_one here c (t ∷ ts) ≡ true
match_one-true here c t ts f h = rw (f, h) refl

Here→matchhere_one :
    (c t : ℕ) (re text : List ℕ)
    → starred re ≡ false
    → (c == dollar && is_empty re) ≡ false
    → fits c t ≡ true
    → matchhere re text ≡ true
    → matchhere (c ∷ re) (t ∷ text) ≡ true
unfolding matchhere
Here→matchhere_one c t [] text plain no_end f h =
    let other : (c == dollar) ≡ false = ground arith in
    rw (other, matchhere) (match_one-true (λ ts. true) c t text f refl)
Here→matchhere_one c t (d ∷ re) text plain no_end f h =
    rw (plain, matchhere) (match_one-true (matchhere (d ∷ re)) c t text f h)

Here→matchhere : {re text : List ℕ} → Here re text → matchhere re text ≡ true
unfolding matchhere
Here→matchhere (nothing text) = refl
Here→matchhere (stop {c} {re} {text} r) = matchstar-here (matchhere re) c text (Here→matchhere r)
Here→matchhere (again {c} {t} {re} {text} f r) =
    matchstar-cons (matchhere re) c t text f (Here→matchhere r)
Here→matchhere end = refl
Here→matchhere (one {c} {t} {re} {text} plain no_end f r) =
    Here→matchhere_one c t re text plain no_end f (Here→matchhere r)

match_from→Somewhere : (re text : List ℕ) → match_from re text ≡ true → Somewhere re text
unfolding match_from
match_from→Somewhere re [] h = at (matchhere→Here re [] h)
match_from→Somewhere re (t ∷ ts) h = elim (Bool-cases (matchhere re (t ∷ ts))) [
  | inl e ↦ at (matchhere→Here re (t ∷ ts) e)
  | inr e ↦ later (match_from→Somewhere re ts (ground arith))
]

match_from-here : (re text : List ℕ) → matchhere re text ≡ true → match_from re text ≡ true
unfolding match_from
match_from-here re [] h = h
match_from-here re (t ∷ ts) h = ground arith

match_from-cons :
    (re : List ℕ) (t : ℕ) (text : List ℕ)
    → match_from re text ≡ true
    → match_from re (t ∷ text) ≡ true
unfolding match_from
match_from-cons re t text h = ground arith

Somewhere→match_from : (re : List ℕ) {text : List ℕ} → Somewhere re text → match_from re text ≡ true
Somewhere→match_from re (at {text} r) = match_from-here re text (Here→matchhere r)
Somewhere→match_from re (later {t} {text} r) = match_from-cons re t text (Somewhere→match_from re r)

-- match(re, text) returns 1 exactly if the pattern matches the text somewhere, or at its start for a
-- pattern that starts with `^`. `c*` matches any number of characters that fit `c`, `.` fits every
-- character, and a `$` at the end matches the text's end.
pub match_iff : (re text : List ℕ) → (match re text ≡ true) ↔ Matches re text
unfolding match
match_iff [] text = (match_from→Somewhere [] text, Somewhere→match_from [])
match_iff (c ∷ re) text = elim (Bool-cases (c == caret)) [
  | inl e ↦
      let is : match (c ∷ re) text ≡ matchhere re text = rw (e, match) refl in
      (
        λ h. inl (ground arith, matchhere→Here re text (sym is ∙ h)),
        λ m. elim m [ inl (x, r) ↦ is ∙ Here→matchhere r | inr (x, r) ↦ absurd (x (ground arith)) ],
      )
  | inr f ↦
      let is : match (c ∷ re) text ≡ match_from (c ∷ re) text = rw (f, match) refl in
      (
        λ h. inr (λ x. absurd (ground arith), match_from→Somewhere (c ∷ re) text (sym is ∙ h)),
        λ m. elim m [
          | inl (x, r) ↦ absurd (ground arith)
          | inr (x, r) ↦ is ∙ Somewhere→match_from (c ∷ re) r
        ],
      )
]
