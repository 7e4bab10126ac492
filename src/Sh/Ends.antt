-- ===== src/Sh/Ends.antt =====
-- The parser of initial-xv6/src/user/sh.c: every function of it ends, and what it returns is a command.
use cpu_scheduling_algos.Prelude.{
  ℕ, zero, suc, ◌+◌, ◌*◌, ◌≤◌, ◌<◌, ◌≡◌, ◌⊎◌, refl, not, List, [], ◌∷◌, ◌++◌, length, arith,
}
use cpu_scheduling_algos.Sh.Result.{
  Parsed, ok, refused, out_of_fuel, Within, Within-ends, Within-bind, Within-if,
}
use cpu_scheduling_algos.Sh.Words.{length-skip_space, gettoken-shortens, length-gettoken}
use cpu_scheduling_algos.Sh.{
  Cmd, exec, back, skip_space, gettoken, peek, parse_redirs, parse_args, parse_simple, close_block,
  parse_backs, parse_line, parse_pipe, parse_exec, parse_block, whole, parsecmd,
}
use cpu_scheduling_algos.Sh.Args.{
  IsCommand, not-false, IsRedirs-append, IsCommand-wrap, Left, parse_redirs-Within,
  parse_args-Within,
}

-- A command, and at most `n` characters behind it.
abbrev Command : ℕ → Cmd × List ℕ → Type 0
Command n = Left n IsCommand

whole-Within : (c : Cmd) (ts : List ℕ) → IsCommand c → Within IsCommand (whole (c, ts))
unfolding Within
whole-Within c [] h = h
whole-Within c (t ∷ ts) h = tt

-- A bound on what is left may be raised.
Within-shorter :
    {m n : ℕ} (r : Parsed (Cmd × List ℕ)) → m ≤ n → Within (Command m) r → Within (Command n) r
unfolding Within
Within-shorter (ok a) h w = (omega (arith, h, w.0), w.1)
Within-shorter refused h w = tt
Within-shorter out_of_fuel h w = w

parse_simple-Within : (ts : List ℕ) → Within (Command (length ts)) (parse_simple ts)
unfolding parse_simple Within
parse_simple-Within ts =
    Within-bind _ _ (parse_redirs (length ts + 1) ts) _
      (parse_redirs-Within (length ts + 1) ts (omega arith))
      (λ (rs, t) (l, p).
        Within-bind _ _ (parse_args (length t + 1) 0 t) _
          (parse_args-Within (length t + 1) 0 t (omega arith) (omega arith))
          (λ (args, rs', t') (l', q). (
            omega (arith, l, l'),
            IsCommand-wrap (rs ++ rs') (exec args) (IsRedirs-append rs rs' p q.2)
                (q.0, omega (arith, q.1)),
          )))

close_block-Within :
    (c : Cmd) (ts : List ℕ) → IsCommand c → Within (Command (length ts)) (close_block c ts)
unfolding close_block Within
close_block-Within c ts h =
    let t = (gettoken ts).rest in
    Within-if _ (not (peek (b')' ∷ []) ts)) _ _ (λ e. tt)
      (λ e.
        Within-bind _ _ (parse_redirs (length t + 1) t) _
          (parse_redirs-Within (length t + 1) t (omega arith))
          (λ (rs, t') (l, p). (omega (arith, l, length-gettoken ts), IsCommand-wrap rs c p h)))

parse_backs-Within :
    (n : ℕ) (c : Cmd) (ts : List ℕ)
    → length ts < n
    → IsCommand c
    → Within (Command (length ts)) (parse_backs n c ts)
unfolding parse_backs Within
parse_backs-Within zero c ts h hc = absurd (omega (arith, h))
parse_backs-Within (suc n) c ts h hc =
    Within-if _ (peek (b'&' ∷ []) ts) _ _
      (λ e.
        let first = gettoken-shortens (b'&' ∷ []) ts refl e in
        Within-shorter (parse_backs n (back c) (gettoken ts).rest) (omega (arith, first))
          (parse_backs-Within n (back c) (gettoken ts).rest (omega (arith, h, first)) hc))
      (λ e. (length-skip_space ts, hc))

-- Fuel enough for each of the four functions: a call that takes no character goes to a function with less.
mutual
  unfolding parse_line Within

  line-Within :
      (f : ℕ) (ts : List ℕ) → 4 * length ts + 3 < f → Within (Command (length ts)) (parse_line f ts)
  line-Within zero ts h = absurd (omega (arith, h))
  line-Within (suc f) ts h =
      Within-bind _ _ (parse_pipe f ts) _ (pipe-Within f ts (omega (arith, h))) (λ (c, t) (l, p).
        Within-bind _ _ (parse_backs (length t + 1) c t) _
          (parse_backs-Within (length t + 1) c t (omega arith) p)
          (λ (c', t') (l', p').
            Within-if _ (peek (b';' ∷ []) t') _ _
              (λ e.
                let first = gettoken-shortens (b';' ∷ []) t' refl e in
                Within-bind _ _ (parse_line f (gettoken t').rest) _
                  (line-Within f (gettoken t').rest (omega (arith, h, l, l', first)))
                  (λ (r, u) (m, q). (omega (arith, l, l', first, m), (p', q))))
              (λ e. (omega (arith, l, l', length-skip_space t'), p'))))

  pipe-Within :
      (f : ℕ) (ts : List ℕ) → 4 * length ts + 2 < f → Within (Command (length ts)) (parse_pipe f ts)
  pipe-Within zero ts h = absurd (omega (arith, h))
  pipe-Within (suc f) ts h =
      Within-bind _ _ (parse_exec f ts) _ (exec-Within f ts (omega (arith, h))) (λ (c, t) (l, p).
        Within-if _ (peek (b'|' ∷ []) t) _ _
          (λ e.
            let first = gettoken-shortens (b'|' ∷ []) t refl e in
            Within-bind _ _ (parse_pipe f (gettoken t).rest) _
              (pipe-Within f (gettoken t).rest (omega (arith, h, l, first)))
              (λ (r, u) (m, q). (omega (arith, l, first, m), (p, q))))
          (λ e. (omega (arith, l, length-skip_space t), p)))

  exec-Within :
      (f : ℕ) (ts : List ℕ) → 4 * length ts + 1 < f → Within (Command (length ts)) (parse_exec f ts)
  exec-Within zero ts h = absurd (omega (arith, h))
  exec-Within (suc f) ts h =
      Within-if _ (peek (b'(' ∷ []) ts) _ _ (λ e. block-Within f ts (omega (arith, h)))
        (λ e.
          Within-shorter (parse_simple (skip_space ts)) (length-skip_space ts)
            (parse_simple-Within (skip_space ts)))

  block-Within :
      (f : ℕ) (ts : List ℕ) → 4 * length ts < f → Within (Command (length ts)) (parse_block f ts)
  block-Within zero ts h = absurd (omega (arith, h))
  block-Within (suc f) ts h =
      Within-if _ (not (peek (b'(' ∷ []) ts)) _ _ (λ e. tt)
        (λ e.
          let first = gettoken-shortens (b'(' ∷ []) ts refl (not-false _ e) in
          Within-bind _ _ (parse_line f (gettoken ts).rest) _
            (line-Within f (gettoken ts).rest (omega (arith, h, first)))
            (λ (c, t) (l, p).
              Within-shorter (close_block c t) (omega (arith, l, first))
                (close_block-Within c t p)))

-- On every text, parsecmd ends: it returns a command, whose execs have at most nine words each, whose words and
-- file names are not empty, start with no zero and have neither whitespace nor symbols in them, and whose
-- redirections have the modes and descriptors of `<`, `>` and `>>`, or it refuses the text.
pub parsecmd-ends :
    (s : List ℕ) → ((c : Cmd) × (parsecmd s ≡ ok c) × IsCommand c) ⊎ (parsecmd s ≡ refused)
unfolding parsecmd Within
parsecmd-ends s = Within-ends IsCommand (parsecmd s) (
    Within-bind _ _ (parse_line (4 * length s + 4) s) _
      (line-Within (4 * length s + 4) s (omega arith))
      (λ (c, t) (l, p). whole-Within c (skip_space t) p))
