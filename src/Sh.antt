-- ===== src/Sh.antt =====
-- initial-xv6/src/user/sh.c: the parser of the shell. A text is the list of the characters from `*ps` to `es`,
-- and a word of a command is the list of its characters, which nulterminate() cuts at its end.
pub mod Result
pub mod Words
pub mod Args
pub mod Ends
pub mod Printer
pub mod Blocks
pub mod Single
pub mod Reads
use cpu_scheduling_algos.Prelude.{
  ℕ, zero, suc, ◌+◌, ◌*◌, ◌==◌, leb, if◌then◌else◌, Bool, true, false, not, ◌&&◌, ◌||◌, List, [],
  ◌∷◌, ◌++◌, any, length,
}
use cpu_scheduling_algos.Sh.Result.{Parsed, ok, refused, out_of_fuel, ◌>>=◌}

-- `struct cmd` and its kinds; a redirection has its file, its mode for open() and its descriptor.
pub data Cmd : Type 0 where
  exec : List (List ℕ) → Cmd
  redir : Cmd → List ℕ → ℕ → ℕ → Cmd
  pipe : Cmd → Cmd → Cmd
  list : Cmd → Cmd → Cmd
  back : Cmd → Cmd

-- What parseredirs puts around a command.
pub record Redir : Type 0 where
  pub file : List ℕ
  pub mode : ℕ
  pub fd : ℕ

-- MAXARGS
abbrev pub max_args : ℕ
max_args = 10

-- `ret` of gettoken for a word.
abbrev pub word_token : ℕ
word_token = b'a'

-- `strchr(whitespace, c)` and `strchr(symbols, c)`
abbrev pub is_space : ℕ → Bool
is_space c = c == 32 || c == 9 || c == 13 || c == 10 || c == 11

abbrev pub is_symbol : ℕ → Bool
is_symbol c =
    c == b'<' || c == b'|' || c == b'>' || c == b'&' || c == b';' || c == b'(' || c == b')'

-- `while(s < es && strchr(whitespace, *s)) s++;`
unfoldable pub skip_space : List ℕ → List ℕ
skip_space [] = []
skip_space (c ∷ cs) = if is_space c then skip_space cs else c ∷ cs

-- `while(s < es && !strchr(whitespace, *s) && !strchr(symbols, *s)) s++;`: what it passes, and the rest.
unfoldable pub take_word : List ℕ → List ℕ × List ℕ
take_word [] = ([], [])
take_word (c ∷ cs) =
    let (w, rest) = take_word cs in
    if is_space c || is_symbol c then ([], c ∷ cs) else (c ∷ w, rest)

-- The result of gettoken, and its `*q` to `*eq`.
pub record Token : Type 0 where
  pub kind : ℕ
  pub word : List ℕ
  pub rest : List ℕ

-- The token that starts at `>`.
unfoldable pub arrow : List ℕ → Token
arrow [] = record { kind = b'>'; word = b'>' ∷ []; rest = [] }
arrow (c ∷ cs) =
    if c == b'>'
    then record { kind = b'+'; word = b'>' ∷ c ∷ []; rest = cs }
    else record { kind = b'>'; word = b'>' ∷ []; rest = c ∷ cs }

-- The switch of gettoken.
unfoldable pub token_at : List ℕ → Token
unfolding arrow take_word
token_at [] = record { kind = 0; word = []; rest = [] }
token_at (c ∷ cs) =
    let (w, rest) = take_word (c ∷ cs) in
    if c == 0
    then record { kind = 0; word = []; rest = c ∷ cs }
    else if c == b'>'
    then arrow cs
    else if is_symbol c
    then record { kind = c; word = c ∷ []; rest = cs }
    else record { kind = word_token; word = w; rest = rest }

-- gettoken(ps, es, q, eq)
unfoldable pub gettoken : List ℕ → Token
unfolding token_at skip_space
gettoken ts = let t = token_at (skip_space ts) in record t { rest = skip_space t.rest }

-- `*s && strchr(toks, *s)`: no zero is in `toks`.
abbrev pub starts_in : List ℕ → List ℕ → Bool
starts_in toks [] = false
starts_in toks (c ∷ cs) = any (λ t. t == c) toks

-- peek(ps, es, toks), whose `*ps` is `skip_space ts` then.
unfoldable pub peek : List ℕ → List ℕ → Bool
unfolding skip_space
peek toks ts = starts_in toks (skip_space ts)

-- The redirection for the token `<`, `>` or `+`.
abbrev pub redir_of : ℕ → List ℕ → Redir
redir_of tok file =
    if tok == b'<'
    then record { file = file; mode = 0; fd = 0 }
    else if tok == b'>'
    then record { file = file; mode = 1537; fd = 1 }
    else record { file = file; mode = 513; fd = 1 }

-- The commands around `c`, the first one innermost.
abbrev pub wrap : List Redir → Cmd → Cmd
wrap [] c = c
wrap (r ∷ rs) c = wrap rs (redir c r.file r.mode r.fd)

-- The sets of characters that the functions below peek for.
abbrev pub redir_toks : List ℕ
redir_toks = b'<' ∷ b'>' ∷ []

abbrev pub end_toks : List ℕ
end_toks = b'|' ∷ b')' ∷ b'&' ∷ b';' ∷ []

-- parseredirs(cmd, ps, es): what it puts around the command, and the text left. A round takes two tokens.
unfoldable pub parse_redirs : ℕ → List ℕ → Parsed (List Redir × List ℕ)
parse_redirs zero ts = out_of_fuel
parse_redirs (suc n) ts =
    let tok = gettoken ts in
    let name = gettoken tok.rest in
    let more =
      if not (name.kind == word_token)
      then refused
      else parse_redirs n name.rest >>= λ (rs, t). ok (redir_of tok.kind name.word ∷ rs, t) in
    if not (peek redir_toks ts) then ok ([], skip_space ts) else more

-- The loop of parseexec with `argc` words before it: the words and the redirections to come.
unfoldable pub parse_args : ℕ → ℕ → List ℕ → Parsed (List (List ℕ) × List Redir × List ℕ)
parse_args zero argc ts = out_of_fuel
parse_args (suc n) argc ts =
    let tok = gettoken ts in
    let more = parse_redirs (length tok.rest + 1) tok.rest >>= (λ (rs, t).
      parse_args n (argc + 1) t >>= (λ (args, rs', t'). ok (tok.word ∷ args, rs ++ rs', t'))) in
    if peek end_toks ts
    then ok ([], [], skip_space ts)
    else if tok.kind == 0
    then ok ([], [], tok.rest)
    else if not (tok.kind == word_token) || leb max_args (argc + 1)
    then refused
    else more

-- parseexec without a `(`: the redirections stand around the command, whose words come in later.
unfoldable pub parse_simple : List ℕ → Parsed (Cmd × List ℕ)
unfolding parse_redirs parse_args
parse_simple ts = parse_redirs (length ts + 1) ts >>= (λ (rs, t).
    parse_args (length t + 1) 0 t >>= (λ (args, rs', t'). ok (wrap (rs ++ rs') (exec args), t')))

-- The rest of parseblock behind its parseline.
unfoldable pub close_block : Cmd → List ℕ → Parsed (Cmd × List ℕ)
unfolding parse_redirs
close_block c ts =
    let t = (gettoken ts).rest in
    if not (peek (b')' ∷ []) ts)
    then refused
    else parse_redirs (length t + 1) t >>= (λ (rs, t'). ok (wrap rs c, t'))

-- `while(peek(ps, es, "&")){ … }` of parseline.
unfoldable pub parse_backs : ℕ → Cmd → List ℕ → Parsed (Cmd × List ℕ)
parse_backs zero c ts = out_of_fuel
parse_backs (suc n) c ts =
    let more = parse_backs n (back c) (gettoken ts).rest in
    if peek (b'&' ∷ []) ts then more else ok (c, skip_space ts)

-- parseline, parsepipe, parseexec and parseblock.
unfoldable mutual
  unfolding parse_simple close_block parse_backs

  pub parse_line : ℕ → List ℕ → Parsed (Cmd × List ℕ)
  parse_line zero ts = out_of_fuel
  parse_line (suc f) ts = parse_pipe f ts >>= (λ (c, t).
      parse_backs (length t + 1) c t >>= (λ (c', t').
        let more = parse_line f (gettoken t').rest >>= (λ (r, u). ok (list c' r, u)) in
        if peek (b';' ∷ []) t' then more else ok (c', skip_space t')))

  pub parse_pipe : ℕ → List ℕ → Parsed (Cmd × List ℕ)
  parse_pipe zero ts = out_of_fuel
  parse_pipe (suc f) ts = parse_exec f ts >>= (λ (c, t).
      let more = parse_pipe f (gettoken t).rest >>= (λ (r, u). ok (pipe c r, u)) in
      if peek (b'|' ∷ []) t then more else ok (c, skip_space t))

  pub parse_exec : ℕ → List ℕ → Parsed (Cmd × List ℕ)
  parse_exec zero ts = out_of_fuel
  parse_exec (suc f) ts =
      let block = parse_block f ts in
      if peek (b'(' ∷ []) ts then block else parse_simple (skip_space ts)

  pub parse_block : ℕ → List ℕ → Parsed (Cmd × List ℕ)
  parse_block zero ts = out_of_fuel
  parse_block (suc f) ts =
      let more = parse_line f (gettoken ts).rest >>= (λ (c, t). close_block c t) in
      if not (peek (b'(' ∷ []) ts) then refused else more

-- `if(s != es)` and what follows.
abbrev pub whole : Cmd × List ℕ → Parsed Cmd
whole (c, []) = ok c
whole (c, t ∷ ts) = refused

-- parsecmd(s)
unfoldable pub parsecmd : List ℕ → Parsed Cmd
unfolding parse_line skip_space
parsecmd s = parse_line (4 * length s + 4) s >>= (λ (c, t). whole (c, skip_space t))
