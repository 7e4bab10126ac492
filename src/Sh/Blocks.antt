-- ===== src/Sh/Blocks.antt =====
-- The parser of initial-xv6/src/user/sh.c on words, redirections and parentheses.
use mathlib.Core.List.{append_assoc}
use cpu_scheduling_algos.Prelude.{
  ℕ, zero, suc, ◌+◌, ◌*◌, ◌≤◌, ◌<◌, ◌==◌, ◌≡◌, refl, inl, inr, true, false, Option, none, some,
  List, [], ◌∷◌, ◌++◌, length, length-append, arith,
}
use cpu_scheduling_algos.Sh.Result.{ok, ◌>>=◌}
use cpu_scheduling_algos.Sh.Words.{all_plain, IsWord}
use cpu_scheduling_algos.Sh.Args.{IsWords, IsMode, IsCommand}
use cpu_scheduling_algos.Sh.Printer.{
  print, print_words, print_mode, ending, plain-head, gettoken-word, peek-word, parse_redirs-none,
  skip_space-word, skip_space-words, parse_redirs-words, parse_args-words,
}
use cpu_scheduling_algos.Sh.{
  Cmd, exec, redir, pipe, list, back, Token, skip_space, token_at, gettoken, arrow, peek, redir_of,
  redir_toks, wrap, parse_redirs, parse_simple, close_block, parse_backs, parse_line, parse_pipe,
  parse_exec,
}

-- The mode of a redirection and a word are read as that redirection.
redir_of-mode :
    (f more : List ℕ) (m d : ℕ)
    → IsWord f
    → IsMode m d
    → (peek redir_toks (print_mode m ++ (f ++ more)) ≡ true)
      × (Token.rest (gettoken (print_mode m ++ (f ++ more))) ≡ f ++ more)
      × (redir_of (Token.kind (gettoken (print_mode m ++ (f ++ more)))) f
          ≡ record { file = f; mode = m; fd = d })
unfolding peek gettoken token_at skip_space arrow
redir_of-mode [] more m d h hm = absurd h
redir_of-mode (c ∷ f) more m d h (inl (e, g)) =
    rw (e, g) (refl, skip_space-word (c ∷ f) more h, refl)
redir_of-mode (c ∷ f) more m d h (inr (inl (e, g))) =
    let p = plain-head c (all_plain f) h.1 in
    let a : (c == b'>') ≡ false = ground (arith, p.1) in
    rw (e, g, a) (refl, skip_space-word (c ∷ f) more h, refl)
redir_of-mode (c ∷ f) more m d h (inr (inr (e, g))) =
    rw (e, g) (refl, skip_space-word (c ∷ f) more h, refl)

peek-ending : (o : Option (List ℕ)) → peek redir_toks (ending o) ≡ false
unfolding peek skip_space
peek-ending none = refl
peek-ending (some u) = refl

pub skip_space-ending : (o : Option (List ℕ)) → skip_space (ending o) ≡ ending o
unfolding skip_space
skip_space-ending none = refl
skip_space-ending (some u) = refl

pub parse_redirs-mode :
    (n : ℕ) (f : List ℕ) (m d : ℕ) (o : Option (List ℕ))
    → 1 < n
    → IsWord f
    → IsMode m d
    → parse_redirs n (print_mode m ++ (f ++ 32 ∷ ending o))
      ≡ ok (record { file = f; mode = m; fd = d } ∷ [], ending o)
unfolding parse_redirs
parse_redirs-mode zero f m d o hn h hm = absurd (omega (arith, hn))
parse_redirs-mode (suc n) f m d o hn h hm =
    let r = redir_of-mode f (32 ∷ ending o) m d h hm in
    rw
      (
        r.0,
        r.1,
        gettoken-word f (ending o) h,
        skip_space-ending o,
        parse_redirs-none n (ending o) (omega (arith, hn)) (peek-ending o),
        skip_space-ending o,
        r.2,
      )
      refl

-- The text of a command starts with no whitespace.
skip_space-print :
    (c : Cmd) (o : Option (List ℕ))
    → IsCommand c
    → skip_space (print c ++ ending o) ≡ print c ++ ending o
unfolding skip_space
skip_space-print (exec args) o h = skip_space-words args o h.0
skip_space-print (redir c f m d) o h = refl
skip_space-print (pipe l r) o h = refl
skip_space-print (list l r) o h = refl
skip_space-print (back c) o h = refl

-- The line of a command, whatever stands behind its text.
abbrev pub Reads : Cmd → Type 0
Reads c =
    (f : ℕ) (o : Option (List ℕ))
    → 4 * length (print c ++ ending o) + 3 < f
    → parse_line f (print c ++ ending o) ≡ ok (c, ending o)

length-words : (ws : List (List ℕ)) → length ws ≤ length (print_words ws)
length-words [] = omega arith
length-words (w ∷ ws) = omega (arith, length-words ws, length-append w (32 ∷ print_words ws))

pub no_paren-words :
    (ws : List (List ℕ)) (o : Option (List ℕ))
    → IsWords ws
    → peek (b'(' ∷ []) (print_words ws ++ ending o) ≡ false
unfolding peek skip_space
no_paren-words [] none h = refl
no_paren-words [] (some u) h = refl
no_paren-words (w ∷ ws) o h =
    rw (append_assoc w (32 ∷ print_words ws) (ending o))
      (peek-word (b'(' ∷ []) w (32 ∷ print_words ws ++ ending o) refl h.0)

pub exec_simple :
    (args : List (List ℕ)) (o : Option (List ℕ))
    → IsCommand (exec args)
    → parse_simple (print_words args ++ ending o) ≡ ok (exec args, ending o)
unfolding parse_simple
exec_simple args o h =
    let ts = print_words args ++ ending o in
    rw
      (
        parse_redirs-words (length ts + 1) args o (omega arith) h.0,
        parse_args-words (length ts + 1) 0 args o
            (omega (arith, length-words args, length-append (print_words args) (ending o)))
            (omega (arith, h.1)) h.0,
      )
      refl

pub parse_backs-none :
    (n : ℕ) (c : Cmd) (o : Option (List ℕ)) → 0 < n → parse_backs n c (ending o) ≡ ok (c, ending o)
unfolding parse_backs peek skip_space
parse_backs-none zero c o h = absurd (omega (arith, h))
parse_backs-none (suc n) c none h = refl
parse_backs-none (suc n) c (some u) h = refl

pub peek-ending_of :
    (o : Option (List ℕ))
    → (peek (b';' ∷ []) (ending o) ≡ false) × (peek (b'|' ∷ []) (ending o) ≡ false)
unfolding peek skip_space
peek-ending_of none = (refl, refl)
peek-ending_of (some u) = (refl, refl)

pub line-pipe :
    (f : ℕ) (ts : List ℕ) (c : Cmd) (o : Option (List ℕ))
    → parse_pipe f ts ≡ ok (c, ending o)
    → parse_line (suc f) ts ≡ ok (c, ending o)
unfolding parse_line
line-pipe f ts c o h =
    rw
      (
        h,
        parse_backs-none (length (ending o) + 1) c o (omega arith),
        (peek-ending_of o).0,
        skip_space-ending o,
      )
      refl

pub pipe-exec :
    (f : ℕ) (ts : List ℕ) (c : Cmd) (o : Option (List ℕ))
    → parse_exec f ts ≡ ok (c, ending o)
    → parse_pipe (suc f) ts ≡ ok (c, ending o)
unfolding parse_line
pipe-exec f ts c o h = rw (h, (peek-ending_of o).1, skip_space-ending o) refl

-- A parenthesis takes one character.
open_paren :
    (ts : List ℕ)
    → (peek (b'(' ∷ []) (b'(' ∷ ts) ≡ true) × (Token.rest (gettoken (b'(' ∷ ts)) ≡ skip_space ts)
unfolding peek gettoken token_at skip_space
open_paren ts = (refl, refl)

close_paren :
    (ts : List ℕ)
    → (peek (b')' ∷ []) (b')' ∷ ts) ≡ true) × (Token.rest (gettoken (b')' ∷ ts)) ≡ skip_space ts)
unfolding peek gettoken token_at skip_space
close_paren ts = (refl, refl)

-- A command in parentheses, with the redirections behind it.
pub block_lem :
    (f : ℕ) (c : Cmd) (rest : List ℕ)
    → IsCommand c
    → Reads c
    → 4 * length (print c) + 4 * length rest + 9 < f
    → parse_exec f (b'(' ∷ print c ++ b')' ∷ rest) ≡ (
        parse_redirs (length (skip_space rest) + 1) (skip_space rest)
        >>= (λ (rs, t). ok (wrap rs c, t)))
unfolding parse_line close_block
block_lem zero c rest hc ih hf = absurd (omega (arith, hf))
block_lem (suc zero) c rest hc ih hf = absurd (omega (arith, hf))
block_lem (suc (suc f)) c rest hc ih hf =
    let more = print c ++ b')' ∷ rest in
    rw
      (
        (open_paren more).0,
        (open_paren more).1,
        skip_space-print c (some rest) hc,
        ih f (some rest) (omega (arith, hf, length-append (print c) (b')' ∷ rest))),
        (close_paren rest).0,
        (close_paren rest).1,
      )
      refl

-- A command in parentheses with no redirection behind it.
pub block_alone :
    (f : ℕ) (c : Cmd) (rest : List ℕ)
    → IsCommand c
    → Reads c
    → 4 * length (print c) + 4 * length rest + 9 < f
    → skip_space rest ≡ rest
    → peek redir_toks rest ≡ false
    → parse_exec f (b'(' ∷ print c ++ b')' ∷ rest) ≡ ok (c, rest)
block_alone f c rest hc ih hf hs hp =
    rw
      (
        block_lem f c rest hc ih hf,
        hs,
        parse_redirs-none (length rest + 1) rest (omega arith) hp,
        hs,
      )
      refl

pub paren_pipe :
    (f : ℕ) (c : Cmd) (o : Option (List ℕ))
    → IsCommand c
    → Reads c
    → 4 * length (print c) + 4 * length (ending o) + 10 < f
    → parse_pipe f (b'(' ∷ print c ++ b')' ∷ ending o) ≡ ok (c, ending o)
paren_pipe zero c o hc ih hf = absurd (omega (arith, hf))
paren_pipe (suc f) c o hc ih hf =
    pipe-exec f (b'(' ∷ print c ++ b')' ∷ ending o) c o
      (block_alone f c (ending o) hc ih (omega (arith, hf)) (skip_space-ending o) (peek-ending o))
