-- ===== src/Sh/Args.antt =====
-- The parser of initial-xv6/src/user/sh.c: what a command is, and the loops of parseredirs and parseexec.
use cpu_scheduling_algos.Prelude.{
  ℕ, zero, suc, ◌+◌, ◌≤◌, ◌<◌, ◌==◌, ◌≡◌, ◌⊎◌, inl, inr, refl, Bool, true, false, not, ◌||◌, List,
  [], ◌∷◌, ◌++◌, length, leb, arith, Bool-cases,
}
use cpu_scheduling_algos.Sh.Result.{ok, Within, Within-bind, Within-if}
use cpu_scheduling_algos.Sh.Words.{
  IsWord, length-skip_space, gettoken-shortens, gettoken-takes, length-gettoken,
}
use cpu_scheduling_algos.Sh.{
  Cmd, exec, redir, pipe, list, back, Redir, gettoken, peek, redir_of, wrap, redir_toks, end_toks,
  parse_redirs, parse_args, max_args, word_token,
}

abbrev pub IsWords : List (List ℕ) → Type 0
IsWords [] = Unit
IsWords (w ∷ ws) = IsWord w × IsWords ws

-- The modes and descriptors of the three redirections.
abbrev pub IsMode : ℕ → ℕ → Type 0
IsMode m d = ((m ≡ 0) × (d ≡ 0)) ⊎ (((m ≡ 1537) × (d ≡ 1)) ⊎ ((m ≡ 513) × (d ≡ 1)))

-- A command: its words and files are words, an exec has a place for the zero behind its arguments, and the
-- redirections are those of `<`, `>` and `>>`.
abbrev pub IsCommand : Cmd → Type 0
IsCommand (exec args) = IsWords args × (length args < max_args)
IsCommand (redir c f m d) = IsCommand c × IsWord f × IsMode m d
IsCommand (pipe l r) = IsCommand l × IsCommand r
IsCommand (list l r) = IsCommand l × IsCommand r
IsCommand (back c) = IsCommand c

abbrev IsRedirs : List Redir → Type 0
IsRedirs [] = Unit
IsRedirs (r ∷ rs) = (IsWord r.file × IsMode r.mode r.fd) × IsRedirs rs

pub not-false : (b : Bool) → not b ≡ false → b ≡ true
not-false true h = refl
not-false false h = ground arith

IsMode-redir_of :
    (tok : ℕ) (w : List ℕ) → IsMode (Redir.mode (redir_of tok w)) (Redir.fd (redir_of tok w))
IsMode-redir_of tok w = elim (Bool-cases (tok == b'<')) [
  | inl e ↦ rw e (inl (refl, refl))
  | inr e ↦ elim (Bool-cases (tok == b'>')) [
    | inl g ↦ rw (e, g) (inr (inl (refl, refl)))
    | inr g ↦ rw (e, g) (inr (inr (refl, refl)))
  ]
]

IsWord-redir_of : (tok : ℕ) (w : List ℕ) → IsWord w → IsWord (Redir.file (redir_of tok w))
IsWord-redir_of tok w h = elim (Bool-cases (tok == b'<')) [
  | inl e ↦ rw e h
  | inr e ↦ elim (Bool-cases (tok == b'>')) [ inl g ↦ rw (e, g) h | inr g ↦ rw (e, g) h ]
]

pub IsRedirs-append : (rs rs' : List Redir) → IsRedirs rs → IsRedirs rs' → IsRedirs (rs ++ rs')
IsRedirs-append [] rs' h h' = h'
IsRedirs-append (r ∷ rs) rs' h h' = (h.0, IsRedirs-append rs rs' h.1 h')

pub IsCommand-wrap : (rs : List Redir) (c : Cmd) → IsRedirs rs → IsCommand c → IsCommand (wrap rs c)
IsCommand-wrap [] c h hc = hc
IsCommand-wrap (r ∷ rs) c h hc =
    IsCommand-wrap rs (redir c r.file r.mode r.fd) h.1 (hc, h.0.0, h.0.1)

-- What is left of a text of `n` characters behind a thing with the property.
abbrev pub Left {ℓ} : {A : Type ℓ} → ℕ → (A → Type 0) → A × List ℕ → Type 0
Left n P (a, t) = (length t ≤ n) × P a

pub parse_redirs-Within :
    (n : ℕ) (ts : List ℕ) → length ts < n → Within (Left (length ts) IsRedirs) (parse_redirs n ts)
unfolding parse_redirs Within
parse_redirs-Within zero ts h = absurd (omega (arith, h))
parse_redirs-Within (suc n) ts h =
    let tok = gettoken ts in
    let name = gettoken tok.rest in
    Within-if _ (not (peek redir_toks ts)) _ _ (λ e. (length-skip_space ts, tt))
      (λ e.
        let first = gettoken-shortens redir_toks ts refl (not-false _ e) in
        Within-if _ (not (name.kind == word_token)) _ _ (λ g. tt)
          (λ g.
            let k = not-false _ g in
            let w = gettoken-takes tok.rest (ground arith) in
            Within-bind _ _ (parse_redirs n name.rest)
              (λ (rs, t). ok (redir_of tok.kind name.word ∷ rs, t))
              (parse_redirs-Within n name.rest (omega (arith, h, first, w.0)))
              (λ (rs, t) (l, p). (
                omega (arith, l, first, w.0),
                (
                  (IsWord-redir_of tok.kind name.word (w.1 k), IsMode-redir_of tok.kind name.word),
                  p,
                ),
              ))))

abbrev Args : ℕ → List (List ℕ) × List Redir → Type 0
Args argc (args, rs) = IsWords args × (argc + length args < max_args) × IsRedirs rs

pub parse_args-Within :
    (n argc : ℕ) (ts : List ℕ)
    → length ts < n
    → argc < max_args
    → Within (λ (args, rs, t). Left (length ts) (Args argc) ((args, rs), t)) (parse_args n argc ts)
unfolding parse_args Within
parse_args-Within zero argc ts h a = absurd (omega (arith, h))
parse_args-Within (suc n) argc ts h a =
    let tok = gettoken ts in
    Within-if _ (peek end_toks ts) _ _ (λ e. (length-skip_space ts, (tt, omega (arith, a), tt)))
      (λ e.
        Within-if _ (tok.kind == 0) _ _ (λ z. (length-gettoken ts, (tt, omega (arith, a), tt)))
          (λ z.
            let taken = gettoken-takes ts z in
            Within-if _ (not (tok.kind == word_token) || leb max_args (argc + 1)) _ _ (λ g. tt)
              (λ g.
                Within-bind _ _ (parse_redirs (length tok.rest + 1) tok.rest) _
                  (parse_redirs-Within (length tok.rest + 1) tok.rest (omega arith))
                  (λ (rs, t) (l, p).
                    Within-bind _ _ (parse_args n (argc + 1) t) _
                      (parse_args-Within n (argc + 1) t (omega (arith, h, l, taken.0))
                        (ground arith))
                      (λ (args, rs', t') (l', q). (
                        omega (arith, l, l', taken.0),
                        (
                          (taken.1 (ground arith), q.0),
                          omega (arith, q.1),
                          IsRedirs-append rs rs' p q.2,
                        ),
                      ))))))
