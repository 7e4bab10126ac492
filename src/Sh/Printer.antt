-- ===== src/Sh/Printer.antt =====
-- A text for each command of initial-xv6/src/user/sh.c, and how the functions of its parser read the parts.
use mathlib.Core.List.{append_assoc}
use cpu_scheduling_algos.Prelude.{
  leb, ℕ, zero, suc, ◌+◌, ◌<◌, ◌==◌, ◌≡◌, refl, inl, inr, Bool, true, false, ◌&&◌, ◌||◌, Option,
  none, some, List, [], ◌∷◌, ◌++◌, length, arith, any, subst, sym, ==_iff, Bool-cases,
  if◌then◌else◌,
}
use cpu_scheduling_algos.Sh.Result.{ok}
use cpu_scheduling_algos.Sh.Words.{is_plain, all_plain, IsWord}
use cpu_scheduling_algos.Sh.Args.{IsWords}
use cpu_scheduling_algos.Sh.{
  Cmd, exec, redir, pipe, list, back, is_space, is_symbol, skip_space, take_word, token_at,
  gettoken, peek, redir_toks, end_toks, parse_redirs, parse_args, max_args, word_token,
}

-- The words, each with a blank behind it.
abbrev pub print_words : List (List ℕ) → List ℕ
print_words [] = []
print_words (w ∷ ws) = w ++ 32 ∷ print_words ws

-- `<`, `>` or `>>`
abbrev pub print_mode : ℕ → List ℕ
print_mode m = if m == 0 then b'<' ∷ [] else if m == 1537 then b'>' ∷ [] else b'>' ∷ b'>' ∷ []

-- A text of a command: each command inside another stands in parentheses.
abbrev pub print : Cmd → List ℕ
print (exec args) = print_words args
print (redir c f m d) = b'(' ∷ print c ++ (b')' ∷ print_mode m ++ (f ++ 32 ∷ []))
print (pipe l r) = b'(' ∷ print l ++ (b')' ∷ b'|' ∷ b'(' ∷ print r ++ b')' ∷ [])
print (list l r) = b'(' ∷ print l ++ (b')' ∷ b';' ∷ b'(' ∷ print r ++ b')' ∷ [])
print (back c) = b'(' ∷ print c ++ b')' ∷ b'&' ∷ []

-- What may stand behind a command: nothing, or a `)` and a text.
abbrev pub ending : Option (List ℕ) → List ℕ
ending none = []
ending (some u) = b')' ∷ u

take_word-append :
    (w more : List ℕ) → all_plain w ≡ true → take_word (w ++ 32 ∷ more) ≡ (w, 32 ∷ more)
unfolding take_word
take_word-append [] more h = refl
take_word-append (c ∷ w) more h = elim (Bool-cases (is_space c || is_symbol c)) [
  | inl e ↦ ground (arith, h)
  | inr e ↦ rw (e, take_word, take_word-append w more (ground (arith, h))) refl
]

pub plain-head :
    (c : ℕ) (b : Bool)
    → is_plain c && b ≡ true
    → (is_space c ≡ false) × (is_symbol c ≡ false) × (b ≡ true)
plain-head c b h = (ground (arith, h), ground (arith, h), ground (arith, h))

-- A word with a blank behind it is the next token.
pub gettoken-word :
    (w more : List ℕ)
    → IsWord w
    → gettoken (w ++ 32 ∷ more) ≡ record { kind = word_token; word = w; rest = skip_space more }
unfolding gettoken token_at skip_space
gettoken-word [] more h = absurd h
gettoken-word (c ∷ w) more h =
    let p = plain-head c (all_plain w) h.1 in
    let z : (c == 0) ≡ false = ground (arith, h.0) in
    let a : (c == b'>') ≡ false = ground (arith, p.1) in
    rw (p.0, z, p.1, a, take_word-append w more p.2, p.0) refl

abbrev all_symbols : List ℕ → Bool
all_symbols [] = true
all_symbols (t ∷ ts) = is_symbol t && all_symbols ts

any-symbols :
    (toks : List ℕ) (c : ℕ)
    → all_symbols toks ≡ true
    → is_symbol c ≡ false
    → any (λ t. t == c) toks ≡ false
any-symbols [] c h e = refl
any-symbols (t ∷ ts) c h e = elim (Bool-cases (t == c)) [
  | inl q ↦ ground (arith, h, e, subst (λ u. is_symbol u ≡ false) (sym ((==_iff t c).0 q)) e)
  | inr q ↦ rw q (any-symbols ts c (ground (arith, h)) e)
]

-- No word starts with a character that the parser peeks for.
pub peek-word :
    (toks w more : List ℕ) → all_symbols toks ≡ true → IsWord w → peek toks (w ++ more) ≡ false
unfolding peek skip_space
peek-word toks [] more s h = absurd h
peek-word toks (c ∷ w) more s h =
    let p = plain-head c (all_plain w) h.1 in rw (p.0, any-symbols toks c s p.1) refl

pub parse_redirs-none :
    (n : ℕ) (ts : List ℕ)
    → 0 < n
    → peek redir_toks ts ≡ false
    → parse_redirs n ts ≡ ok ([], skip_space ts)
unfolding parse_redirs
parse_redirs-none zero ts h e = absurd (omega (arith, h))
parse_redirs-none (suc n) ts h e = rw e refl

-- What a word and its blank leave starts with no whitespace.
pub skip_space-word : (w more : List ℕ) → IsWord w → skip_space (w ++ more) ≡ w ++ more
unfolding skip_space
skip_space-word [] more h = absurd h
skip_space-word (c ∷ w) more h = rw ((plain-head c (all_plain w) h.1).0, skip_space) refl

pub skip_space-words :
    (ws : List (List ℕ)) (o : Option (List ℕ))
    → IsWords ws
    → skip_space (print_words ws ++ ending o) ≡ print_words ws ++ ending o
unfolding skip_space
skip_space-words [] none h = refl
skip_space-words [] (some u) h = refl
skip_space-words (w ∷ ws) o h =
    rw (append_assoc w (32 ∷ print_words ws) (ending o))
      (skip_space-word w (32 ∷ print_words ws ++ ending o) h.0)

pub peek-words :
    (ws : List (List ℕ)) (o : Option (List ℕ))
    → IsWords ws
    → peek redir_toks (print_words ws ++ ending o) ≡ false
unfolding peek skip_space
peek-words [] none h = refl
peek-words [] (some u) h = refl
peek-words (w ∷ ws) o h =
    rw (append_assoc w (32 ∷ print_words ws) (ending o))
      (peek-word redir_toks w (32 ∷ print_words ws ++ ending o) refl h.0)

pub parse_redirs-words :
    (n : ℕ) (ws : List (List ℕ)) (o : Option (List ℕ))
    → 0 < n
    → IsWords ws
    → parse_redirs n (print_words ws ++ ending o) ≡ ok ([], print_words ws ++ ending o)
parse_redirs-words n ws o hn h =
    rw
      (
        parse_redirs-none n (print_words ws ++ ending o) hn (peek-words ws o h),
        skip_space-words ws o h,
      )
      refl

parse_args-end :
    (n argc : ℕ) (o : Option (List ℕ)) → parse_args (suc n) argc (ending o) ≡ ok ([], [], ending o)
unfolding parse_args peek gettoken token_at skip_space
parse_args-end n argc none = refl
parse_args-end n argc (some u) = refl

pub parse_args-words :
    (n argc : ℕ) (ws : List (List ℕ)) (o : Option (List ℕ))
    → length ws < n
    → argc + length ws < max_args
    → IsWords ws
    → parse_args n argc (print_words ws ++ ending o) ≡ ok (ws, [], ending o)
unfolding parse_args
parse_args-words zero argc ws o hn ha h = absurd (omega (arith, hn))
parse_args-words (suc n) argc [] o hn ha h = parse_args-end n argc o
parse_args-words (suc n) argc (w ∷ ws) o hn ha h =
    let more = print_words ws ++ ending o in
    let bound : leb max_args (argc + 1) ≡ false = ground (arith, ha) in
    rw
      (
        append_assoc w (32 ∷ print_words ws) (ending o),
        peek-word end_toks w (32 ∷ more) refl h.0,
        gettoken-word w more h.0,
        skip_space-words ws o h.1,
        bound,
        parse_redirs-words (length more + 1) ws o (omega arith) h.1,
        parse_args-words n (argc + 1) ws o (omega (arith, hn)) (omega (arith, ha)) h.1,
      )
      refl
