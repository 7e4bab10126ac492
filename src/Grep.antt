-- ===== src/Grep.antt =====
-- initial-xv6/src/user/grep.c: the matcher. A pattern and a text are the lists of their characters before
-- the zero.
pub mod Language
use cpu_scheduling_algos.Prelude.{
  ℕ, zero, suc, ◌==◌, if◌then◌else◌, Bool, true, false, not, ◌&&◌, ◌||◌, List, [], ◌∷◌,
}

-- '*', '.', '^' and '$'
abbrev pub star : ℕ
star = 42

abbrev pub dot : ℕ
dot = 46

abbrev pub caret : ℕ
caret = 94

abbrev pub dollar : ℕ
dollar = 36

abbrev pub is_empty : List ℕ → Bool
is_empty [] = true
is_empty (c ∷ cs) = false

-- `re[0] == '.' || re[0] == *text`
abbrev pub fits : ℕ → ℕ → Bool
fits c t = c == dot || c == t

-- matchstar(c, re, text) with `here` for matchhere(re, ·).
unfoldable pub matchstar : (List ℕ → Bool) → ℕ → List ℕ → Bool
matchstar here c [] = here []
matchstar here c (t ∷ ts) =
    let rest = matchstar here c ts in if here (t ∷ ts) then true else fits c t && rest

-- The last test of matchhere, with `here` for matchhere(re + 1, ·).
abbrev pub match_one : (List ℕ → Bool) → ℕ → List ℕ → Bool
match_one here c [] = false
match_one here c (t ∷ ts) = fits c t && here ts

-- matchhere(re, text)
unfoldable pub matchhere : List ℕ → List ℕ → Bool
unfolding matchstar
matchhere [] text = true
matchhere (c ∷ []) text = if c == dollar then is_empty text else match_one (λ ts. true) c text
matchhere (c ∷ d ∷ re) text =
    if d == star then matchstar (matchhere re) c text else match_one (matchhere (d ∷ re)) c text

-- The loop of match.
unfoldable pub match_from : List ℕ → List ℕ → Bool
unfolding matchhere
match_from re [] = matchhere re []
match_from re (t ∷ ts) = let rest = match_from re ts in if matchhere re (t ∷ ts) then true else rest

-- match(re, text)
unfoldable pub match : List ℕ → List ℕ → Bool
unfolding match_from matchhere
match [] text = match_from [] text
match (c ∷ re) text = if c == caret then matchhere re text else match_from (c ∷ re) text
