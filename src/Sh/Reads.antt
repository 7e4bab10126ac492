-- ===== src/Sh/Reads.antt =====
-- The parser of initial-xv6/src/user/sh.c on the text of a whole command.
use mathlib.Core.List.{append-nil, append_assoc}
use cpu_scheduling_algos.Prelude.{
  ℕ, zero, suc, ◌+◌, ◌*◌, ◌<◌, ◌≡◌, refl, subst, ap, true, false, Option, none, List, [], ◌∷◌, ◌++◌,
  length, length-append, arith,
}
use cpu_scheduling_algos.Sh.Result.{ok}
use cpu_scheduling_algos.Sh.Args.{IsCommand}
use cpu_scheduling_algos.Sh.Printer.{print, ending}
use cpu_scheduling_algos.Sh.{
  Cmd, exec, redir, pipe, list, back, Token, skip_space, token_at, gettoken, peek, redir_toks,
  parse_backs, parse_line, parse_pipe, parse_exec, parsecmd,
}
use cpu_scheduling_algos.Sh.Blocks.{
  skip_space-ending, Reads, parse_backs-none, peek-ending_of, line-pipe, block_alone, paren_pipe,
}
use cpu_scheduling_algos.Sh.Single.{
  symbol_semicolon, symbol_bar, Reads-from, Reads-exec, Reads-redir,
}

-- The text of two commands in parentheses with a symbol between them.
print-two :
    (l r : Cmd) (t : ℕ) (o : Option (List ℕ))
    → (b'(' ∷ print l ++ (b')' ∷ t ∷ b'(' ∷ print r ++ b')' ∷ [])) ++ ending o
      ≡ b'(' ∷ print l ++ (b')' ∷ t ∷ b'(' ∷ (print r ++ b')' ∷ ending o))
print-two l r t o =
    rw
      (
        append_assoc (print l) (b')' ∷ t ∷ b'(' ∷ print r ++ b')' ∷ []) (ending o),
        append_assoc (print r) (b')' ∷ []) (ending o),
      )
      refl

length-two :
    (l r : Cmd) (t : ℕ) (o : Option (List ℕ))
    → length ((b'(' ∷ print l ++ (b')' ∷ t ∷ b'(' ∷ print r ++ b')' ∷ [])) ++ ending o)
      ≡ length (print l) + length (print r) + length (ending o) + 5
length-two l r t o = omega (
  arith,
  ap length (print-two l r t o),
  length-append (print l) (b')' ∷ t ∷ b'(' ∷ (print r ++ b')' ∷ ending o)),
  length-append (print r) (b')' ∷ ending o),
)

Reads-pipe : (l r : Cmd) → IsCommand (pipe l r) → Reads l → Reads r → Reads (pipe l r)
unfolding parse_line
Reads-pipe l r h ihl ihr = Reads-from (pipe l r) (λ g o hg.
    let more = print r ++ b')' ∷ ending o in
    let right = length-append (print r) (b')' ∷ ending o) in
    let size = length-two l r b'|' o in
    let bar = symbol_bar more in
    rw (print-two l r b'|' o) (
      line-pipe (suc g) (b'(' ∷ print l ++ (b')' ∷ b'|' ∷ b'(' ∷ more)) (pipe l r) o (
        rw
          (
            block_alone g l (b'|' ∷ b'(' ∷ more) h.0 ihl (omega (arith, hg, right, size)) bar.0
                bar.1,
            bar.2,
            bar.3,
            paren_pipe g r o h.1 ihr (omega (arith, hg, size)),
          )
          refl)))

pipe-stop :
    (f : ℕ) (ts : List ℕ) (c : Cmd) (rest : List ℕ)
    → parse_exec f ts ≡ ok (c, rest)
    → peek (b'|' ∷ []) rest ≡ false
    → skip_space rest ≡ rest
    → parse_pipe (suc f) ts ≡ ok (c, rest)
unfolding parse_line
pipe-stop f ts c rest h p e = rw (h, p, e) refl

parse_backs-stop :
    (n : ℕ) (c : Cmd) (ts : List ℕ)
    → 0 < n
    → peek (b'&' ∷ []) ts ≡ false
    → parse_backs n c ts ≡ ok (c, skip_space ts)
unfolding parse_backs
parse_backs-stop zero c ts h e = absurd (omega (arith, h))
parse_backs-stop (suc n) c ts h e = rw e refl

line-list :
    (f : ℕ) (ts u : List ℕ) (l r : Cmd) (rest : List ℕ)
    → parse_pipe f ts ≡ ok (l, b';' ∷ b'(' ∷ u)
    → parse_line f (b'(' ∷ u) ≡ ok (r, rest)
    → parse_line (suc f) ts ≡ ok (list l r, rest)
unfolding parse_line
line-list f ts u l r rest h k =
    let semi = symbol_semicolon u in
    rw
      (
        h,
        parse_backs-stop (length (b';' ∷ b'(' ∷ u) + 1) l (b';' ∷ b'(' ∷ u) (omega arith) semi.3,
        semi.0,
        semi.4,
        semi.5,
        k,
      )
      refl

Reads-list : (l r : Cmd) → IsCommand (list l r) → Reads l → Reads r → Reads (list l r)
Reads-list l r h ihl ihr = Reads-from (list l r) (λ g o hg.
    let more = print r ++ b')' ∷ ending o in
    let text = b'(' ∷ print l ++ (b')' ∷ b';' ∷ b'(' ∷ more) in
    let right = length-append (print r) (b')' ∷ ending o) in
    let size = length-two l r b';' o in
    let semi = symbol_semicolon more in
    rw (print-two l r b';' o) (
      line-list (suc g) text more l r (ending o)
        (pipe-stop g text l (b';' ∷ b'(' ∷ more)
          (block_alone g l (b';' ∷ b'(' ∷ more) h.0 ihl (omega (arith, hg, right, size)) semi.0
            semi.1)
          semi.2 semi.0)
        (line-pipe g (b'(' ∷ more) r o (paren_pipe g r o h.1 ihr (omega (arith, hg, size))))))

symbol_amp :
    (ts : List ℕ)
    → (skip_space (b'&' ∷ ts) ≡ b'&' ∷ ts)
      × (peek redir_toks (b'&' ∷ ts) ≡ false)
      × (peek (b'|' ∷ []) (b'&' ∷ ts) ≡ false)
      × (peek (b'&' ∷ []) (b'&' ∷ ts) ≡ true)
      × (Token.rest (gettoken (b'&' ∷ ts)) ≡ skip_space ts)
unfolding peek gettoken token_at skip_space
symbol_amp ts = (refl, refl, refl, refl, refl)

parse_backs-one :
    (n : ℕ) (c : Cmd) (o : Option (List ℕ))
    → 1 < n
    → parse_backs n c (b'&' ∷ ending o) ≡ ok (back c, ending o)
unfolding parse_backs
parse_backs-one zero c o h = absurd (omega (arith, h))
parse_backs-one (suc n) c o h =
    let amp = symbol_amp (ending o) in
    rw (amp.3, amp.4, skip_space-ending o) (parse_backs-none n (back c) o (omega (arith, h)))

line-back :
    (f : ℕ) (ts : List ℕ) (c : Cmd) (o : Option (List ℕ))
    → parse_pipe f ts ≡ ok (c, b'&' ∷ ending o)
    → parse_line (suc f) ts ≡ ok (back c, ending o)
unfolding parse_line
line-back f ts c o h =
    rw
      (
        h,
        parse_backs-one (length (b'&' ∷ ending o) + 1) c o (omega arith),
        (peek-ending_of o).0,
        skip_space-ending o,
      )
      refl

Reads-back : (c : Cmd) → IsCommand c → Reads c → Reads (back c)
Reads-back c h ih = Reads-from (back c) (λ g o hg.
    let rest = b'&' ∷ ending o in
    let text = b'(' ∷ print c ++ b')' ∷ rest in
    let amp = symbol_amp (ending o) in
    let same = append_assoc (print c) (b')' ∷ b'&' ∷ []) (ending o) in
    rw same (
      line-back (suc g) text c o (
        pipe-stop g text c rest
          (block_alone g c rest h ih
            (omega (arith, hg, ap length same, length-append (print c) (b')' ∷ rest))) amp.0 amp.1)
          amp.2 amp.0)))

Reads-all : (c : Cmd) → IsCommand c → Reads c
Reads-all (exec args) h = Reads-exec args h
Reads-all (redir c f m d) h = Reads-redir c f m d h (Reads-all c h.0)
Reads-all (pipe l r) h = Reads-pipe l r h (Reads-all l h.0) (Reads-all r h.1)
Reads-all (list l r) h = Reads-list l r h (Reads-all l h.0) (Reads-all r h.1)
Reads-all (back c) h = Reads-back c h (Reads-all c h)

-- parsecmd gives back a command from the text that `print` writes for it, if the command has at most nine words to
-- an exec, words and file names of one character or more that are neither whitespace nor symbols and start with
-- no zero, and the modes and descriptors of `<`, `>` and `>>` for its redirections.
pub parsecmd-print : (c : Cmd) → IsCommand c → parsecmd (print c) ≡ ok c
unfolding parsecmd skip_space
parsecmd-print c h =
    let text = print c in
    let fuel = 4 * length text + 4 in
    let line : parse_line fuel text ≡ ok (c, []) =
      subst (λ ts. parse_line fuel ts ≡ ok (c, [])) (append-nil text)
        (Reads-all c h fuel none (omega (arith, ap length (append-nil text)))) in
    rw line refl
