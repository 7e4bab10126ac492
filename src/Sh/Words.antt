-- ===== src/Sh/Words.antt =====
-- The tokens of initial-xv6/src/user/sh.c: how much of the text they take, and what a word is.
use cpu_scheduling_algos.Prelude.{
  ℕ, ◌≤◌, ◌<◌, ◌==◌, ◌≡◌, ◌≢◌, ◌⊎◌, inl, inr, refl, Bool, true, false, not, ◌&&◌, ◌||◌, List, [],
  ◌∷◌, length, ap, subst, ◌∙◌, arith, Bool-cases, ==_iff,
}
use cpu_scheduling_algos.Sh.{
  is_space, is_symbol, skip_space, take_word, Token, arrow, token_at, gettoken, starts_in, peek,
  word_token,
}

-- A character that take_word takes.
abbrev pub is_plain : ℕ → Bool
is_plain c = not (is_space c || is_symbol c)

abbrev pub all_plain : List ℕ → Bool
all_plain [] = true
all_plain (c ∷ cs) = is_plain c && all_plain cs

-- A word: characters that are neither whitespace nor symbols, and at least one of them.
abbrev pub IsWord : List ℕ → Type 0
IsWord [] = ⊥
IsWord (c ∷ cs) = (c ≢ 0) × (all_plain (c ∷ cs) ≡ true)

pub length-skip_space : (ts : List ℕ) → length (skip_space ts) ≤ length ts
unfolding skip_space
length-skip_space [] = omega arith
length-skip_space (c ∷ cs) = elim (Bool-cases (is_space c)) [
  | inl e ↦ rw (e, skip_space) (omega (arith, length-skip_space cs))
  | inr e ↦ rw (e, skip_space) (omega arith)
]

-- What skip_space leaves starts with no whitespace.
pub skip_space-head :
    (ts : List ℕ)
    → (skip_space ts ≡ [])
      ⊎ ((c : ℕ) × (cs : List ℕ) × (skip_space ts ≡ c ∷ cs) × (is_space c ≡ false))
unfolding skip_space
skip_space-head [] = inl refl
skip_space-head (c ∷ cs) = elim (Bool-cases (is_space c)) [
  | inl e ↦ rw (e, skip_space) (skip_space-head cs)
  | inr e ↦ inr (c, cs, rw (e, skip_space) refl, e)
]

pub length-take_word : (ts : List ℕ) → length ((take_word ts).1) ≤ length ts
unfolding take_word
length-take_word [] = omega arith
length-take_word (c ∷ cs) = elim (Bool-cases (is_space c || is_symbol c)) [
  | inl e ↦ rw (e, take_word) (omega arith)
  | inr e ↦ rw (e, take_word) (omega (arith, length-take_word cs))
]

pub take_word-plain : (ts : List ℕ) → all_plain ((take_word ts).0) ≡ true
unfolding take_word
take_word-plain [] = refl
take_word-plain (c ∷ cs) = elim (Bool-cases (is_space c || is_symbol c)) [
  | inl e ↦ rw (e, take_word) refl
  | inr e ↦ rw (e, take_word) (rw e (take_word-plain cs))
]

pub length-arrow : (cs : List ℕ) → length (Token.rest (arrow cs)) ≤ length cs
unfolding arrow
length-arrow [] = omega arith
length-arrow (c ∷ cs) = elim (Bool-cases (c == b'>')) [
  | inl e ↦ rw (e, arrow) (omega arith)
  | inr e ↦ rw (e, arrow) (omega arith)
]

no_word-arrow : (cs : List ℕ) → ¬ ((Token.kind (arrow cs) == word_token) ≡ true)
unfolding arrow
no_word-arrow [] = λ h. ground arith
no_word-arrow (c ∷ cs) = elim (Bool-cases (c == b'>')) [
  | inl e ↦ rw (e, arrow) (λ h. ground arith)
  | inr e ↦ rw (e, arrow) (λ h. ground arith)
]

no_word-symbol : (c : ℕ) → is_symbol c ≡ true → ¬ ((c == word_token) ≡ true)
no_word-symbol c h k = ground arith

-- A token at a character that is neither whitespace nor a zero takes something; one of kind `a` is a word.
token_at-takes :
    (c : ℕ) (cs : List ℕ)
    → is_space c ≡ false
    → (c == 0) ≡ false
    → (length (Token.rest (token_at (c ∷ cs))) ≤ length cs)
      × ((Token.kind (token_at (c ∷ cs)) == word_token) ≡ true
          → IsWord (Token.word (token_at (c ∷ cs))))
unfolding token_at
token_at-takes c cs hs hz = elim (Bool-cases (is_symbol c)) [
  | inl sy ↦ elim (Bool-cases (c == b'>')) [
    | inl e ↦ rw (hz, sy, e) (length-arrow cs, λ k. absurd (no_word-arrow cs k))
    | inr e ↦ rw (hz, sy, e) (omega arith, λ k. absurd (no_word-symbol c sy k))
  ]
  | inr sy ↦ elim (Bool-cases (c == b'>')) [
    | inl e ↦ rw (hz, sy, e) (length-arrow cs, λ k. absurd (no_word-arrow cs k))
    | inr e ↦
        rw (hz, sy, e, hs)
          (length-take_word cs, λ k. (ground (arith), rw (sy, hs) (take_word-plain cs)))
  ]
]

gettoken-at :
    (ts : List ℕ) (c : ℕ) (cs : List ℕ)
    → skip_space ts ≡ c ∷ cs
    → is_space c ≡ false
    → (c == 0) ≡ false
    → (length (Token.rest (gettoken ts)) < length ts)
      × ((Token.kind (gettoken ts) == word_token) ≡ true → IsWord (Token.word (gettoken ts)))
unfolding gettoken
gettoken-at ts c cs e hs hz =
    let t = token_at-takes c cs hs hz in
    rw e (
      omega (
        arith,
        length-skip_space (Token.rest (token_at (c ∷ cs))),
        t.0,
        length-skip_space ts,
        ap length e,
      ),
      t.1,
    )

-- A character that peek looks for starts a token, which gettoken takes.
pub gettoken-shortens :
    (toks ts : List ℕ)
    → starts_in toks (0 ∷ []) ≡ false
    → peek toks ts ≡ true
    → length (Token.rest (gettoken ts)) < length ts
unfolding peek
gettoken-shortens toks ts hz h = elim (skip_space-head ts) [
  | inl e ↦ ground (arith, subst (λ us. starts_in toks us ≡ true) e h)
  | inr (c, cs, e, hs) ↦ elim (Bool-cases (c == 0)) [
    | inl z ↦
        ground (
          arith,
          subst (λ us. starts_in toks us ≡ true) (e ∙ ap (λ a. a ∷ cs) ((==_iff c 0).0 z)) h,
        )
    | inr z ↦ (gettoken-at ts c cs e hs z).0
  ]
]

-- A token of another kind than 0 takes something; one of kind `a` is a word.
pub gettoken-takes :
    (ts : List ℕ)
    → (Token.kind (gettoken ts) == 0) ≡ false
    → (length (Token.rest (gettoken ts)) < length ts)
      × ((Token.kind (gettoken ts) == word_token) ≡ true → IsWord (Token.word (gettoken ts)))
unfolding gettoken token_at
gettoken-takes ts h = elim (skip_space-head ts) [
  | inl e ↦ ground (arith, subst (λ us. (Token.kind (token_at us) == 0) ≡ false) e h)
  | inr (c, cs, e, hs) ↦ elim (Bool-cases (c == 0)) [
    | inl z ↦ ground (
      arith,
      subst (λ us. (Token.kind (token_at us) == 0) ≡ false)
          (e ∙ ap (λ a. a ∷ cs) ((==_iff c 0).0 z)) h,
    )
    | inr z ↦ gettoken-at ts c cs e hs z
  ]
]

length-token_at : (ts : List ℕ) → length (Token.rest (token_at ts)) ≤ length ts
unfolding token_at
length-token_at [] = omega arith
length-token_at (c ∷ cs) = elim (Bool-cases (c == 0)) [
  | inl z ↦ rw (z, token_at) (omega arith)
  | inr z ↦ elim (Bool-cases (is_symbol c)) [
    | inl y ↦ elim (Bool-cases (c == b'>')) [
      | inl e ↦ rw (z, y, e) (omega (arith, length-arrow cs))
      | inr e ↦ rw (z, y, e) (omega arith)
    ]
    | inr y ↦ elim (Bool-cases (c == b'>')) [
      | inl e ↦ rw (z, y, e) (omega (arith, length-arrow cs))
      | inr e ↦ elim (Bool-cases (is_space c)) [
        | inl s ↦ rw (z, y, e, s) (omega arith)
        | inr s ↦ rw (z, y, e, s) (omega (arith, length-take_word cs))
      ]
    ]
  ]
]

pub length-gettoken : (ts : List ℕ) → length (Token.rest (gettoken ts)) ≤ length ts
unfolding gettoken
length-gettoken ts = omega (
  arith,
  length-skip_space (Token.rest (token_at (skip_space ts))),
  length-token_at (skip_space ts),
  length-skip_space ts,
)
