-- ===== src/Sh/Single.antt =====
-- The parser of initial-xv6/src/user/sh.c on the texts of words and of a redirection.
use mathlib.Core.List.{append_assoc}
use cpu_scheduling_algos.Prelude.{
  ℕ, zero, suc, ◌+◌, ◌*◌, ◌<◌, ◌==◌, ◌≡◌, refl, ap, inl, inr, true, false, Option, List, [], ◌∷◌,
  ◌++◌, length, length-append, arith, Bool-cases,
}
use cpu_scheduling_algos.Sh.Result.{ok}
use cpu_scheduling_algos.Sh.Args.{IsMode, IsCommand}
use cpu_scheduling_algos.Sh.Printer.{print, print_words, print_mode, ending, skip_space-words}
use cpu_scheduling_algos.Sh.{
  Cmd, exec, redir, Token, skip_space, token_at, gettoken, peek, redir_toks, parse_line, parse_exec,
}
use cpu_scheduling_algos.Sh.Blocks.{
  parse_redirs-mode, Reads, no_paren-words, exec_simple, line-pipe, pipe-exec, block_lem,
}

exec_words :
    (g : ℕ) (args : List (List ℕ)) (o : Option (List ℕ))
    → 0 < g
    → IsCommand (exec args)
    → parse_exec g (print_words args ++ ending o) ≡ ok (exec args, ending o)
unfolding parse_line
exec_words zero args o hg h = absurd (omega (arith, hg))
exec_words (suc g) args o hg h =
    rw (no_paren-words args o h.0, skip_space-words args o h.0, exec_simple args o h) refl

skip_space-mode :
    (m d : ℕ) (ts : List ℕ) → IsMode m d → skip_space (print_mode m ++ ts) ≡ print_mode m ++ ts
unfolding skip_space
skip_space-mode m d ts (inl (e, g)) = rw e refl
skip_space-mode m d ts (inr (inl (e, g))) = rw e refl
skip_space-mode m d ts (inr (inr (e, g))) = rw e refl

length-mode : (m : ℕ) (ts : List ℕ) → length ts < length (print_mode m ++ ts)
length-mode m ts = elim (Bool-cases (m == 0)) [
  | inl e ↦ rw e (omega arith)
  | inr e ↦ elim (Bool-cases (m == 1537)) [
    | inl g ↦ rw (e, g) (omega arith)
    | inr g ↦ rw (e, g) (omega arith)
  ]
]

pub symbol_semicolon :
    (ts : List ℕ)
    → (skip_space (b';' ∷ b'(' ∷ ts) ≡ b';' ∷ b'(' ∷ ts)
      × (peek redir_toks (b';' ∷ b'(' ∷ ts) ≡ false)
      × (peek (b'|' ∷ []) (b';' ∷ b'(' ∷ ts) ≡ false)
      × (peek (b'&' ∷ []) (b';' ∷ b'(' ∷ ts) ≡ false)
      × (peek (b';' ∷ []) (b';' ∷ b'(' ∷ ts) ≡ true)
      × (Token.rest (gettoken (b';' ∷ b'(' ∷ ts)) ≡ b'(' ∷ ts)
unfolding peek gettoken token_at skip_space
symbol_semicolon ts = (refl, refl, refl, refl, refl, refl)

pub symbol_bar :
    (ts : List ℕ)
    → (skip_space (b'|' ∷ b'(' ∷ ts) ≡ b'|' ∷ b'(' ∷ ts)
      × (peek redir_toks (b'|' ∷ b'(' ∷ ts) ≡ false)
      × (peek (b'|' ∷ []) (b'|' ∷ b'(' ∷ ts) ≡ true)
      × (Token.rest (gettoken (b'|' ∷ b'(' ∷ ts)) ≡ b'(' ∷ ts)
unfolding peek gettoken token_at skip_space
symbol_bar ts = (refl, refl, refl, refl)

-- Two calls deep there is fuel for a command in parentheses.
pub Reads-from :
    (c : Cmd)
    → ((g : ℕ) (o : Option (List ℕ))
        → 4 * length (print c ++ ending o) + 1 < g
        → parse_line (suc (suc g)) (print c ++ ending o) ≡ ok (c, ending o))
    → Reads c
Reads-from c h zero o hf = absurd (omega (arith, hf))
Reads-from c h (suc zero) o hf = absurd (omega (arith, hf))
Reads-from c h (suc (suc g)) o hf = h g o (omega (arith, hf))

pub Reads-exec : (args : List (List ℕ)) → IsCommand (exec args) → Reads (exec args)
unfolding parse_line
Reads-exec args h = Reads-from (exec args) (λ g o hg.
    line-pipe (suc g) (print_words args ++ ending o) (exec args) o (
      pipe-exec g (print_words args ++ ending o) (exec args) o
        (exec_words g args o (omega (arith, hg)) h)))

pub Reads-redir :
    (c : Cmd) (f : List ℕ) (m d : ℕ) → IsCommand (redir c f m d) → Reads c → Reads (redir c f m d)
Reads-redir c f m d h ih = Reads-from (redir c f m d) (λ g o hg.
    let rest = print_mode m ++ (f ++ 32 ∷ ending o) in
    let same : print (redir c f m d) ++ ending o ≡ b'(' ∷ print c ++ (b')' ∷ rest) =
      rw
        (
          append_assoc (print c) (b')' ∷ print_mode m ++ (f ++ 32 ∷ [])) (ending o),
          append_assoc (print_mode m) (f ++ 32 ∷ []) (ending o),
          append_assoc f (32 ∷ []) (ending o),
        )
        refl in
    rw same (
      line-pipe (suc g) (b'(' ∷ print c ++ (b')' ∷ rest)) (redir c f m d) o (
        pipe-exec g (b'(' ∷ print c ++ (b')' ∷ rest)) (redir c f m d) o (
          rw
            (
              block_lem g c rest h.0 ih
                  (omega (arith, hg, ap length same, length-append (print c) (b')' ∷ rest))),
              skip_space-mode m d (f ++ 32 ∷ ending o) h.2,
              parse_redirs-mode (length rest + 1) f m d o
                  (omega (arith, length-mode m (f ++ 32 ∷ ending o))) h.1 h.2,
            )
            refl))))
