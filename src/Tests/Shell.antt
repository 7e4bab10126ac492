-- ===== src/Tests/Shell.antt =====
-- The shell's parser at concrete texts.
use cpu_scheduling_algos.Prelude.{ℕ, ◌≡◌, ◌⊎◌, refl, inl, inr, List, [], ◌∷◌, arith}
use cpu_scheduling_algos.Sh.{Cmd, exec, redir, pipe, list, back, peek, gettoken, parsecmd}
use cpu_scheduling_algos.Sh.Result.{ok, refused}
use cpu_scheduling_algos.Sh.Args.{IsCommand}
use cpu_scheduling_algos.Sh.Ends.{parsecmd-ends}
use cpu_scheduling_algos.Sh.Printer.{print}
use cpu_scheduling_algos.Sh.Reads.{parsecmd-print}

-- `ls -l | wc >x ; s &`
abbrev jobs : Cmd
jobs =
    list
      (pipe (exec ((b'l' ∷ b's' ∷ []) ∷ (b'-' ∷ b'l' ∷ []) ∷ []))
        (redir (exec ((b'w' ∷ b'c' ∷ []) ∷ [])) (b'x' ∷ []) 1537 1))
      (back (exec ((b's' ∷ []) ∷ [])))

jobs-IsCommand : IsCommand jobs
jobs-IsCommand = (
  (
    (((λ e. ground arith, refl), ((λ e. ground arith, refl), tt)), omega arith),
    (
      (((λ e. ground arith, refl), tt), omega arith),
      (λ e. ground arith, refl),
      inr (inl (refl, refl)),
    ),
  ),
  (((λ e. ground arith, refl), tt), omega arith),
)

parsecmd-print_example : parsecmd (print jobs) ≡ ok jobs
parsecmd-print_example = parsecmd-print jobs jobs-IsCommand

-- `a <b`
abbrev reads_b : List ℕ
reads_b = b'a' ∷ 32 ∷ b'<' ∷ b'b' ∷ []

parsecmd-ends_example :
    ((c : Cmd) × (parsecmd reads_b ≡ ok c) × IsCommand c) ⊎ (parsecmd reads_b ≡ refused)
parsecmd-ends_example = parsecmd-ends reads_b

parse_reads_b : parsecmd reads_b ≡ ok (redir (exec ((b'a' ∷ []) ∷ [])) (b'b' ∷ []) 0 0)
unfolding parsecmd peek gettoken
parse_reads_b = refl

-- `)` is refused.
parse_stray : parsecmd (b')' ∷ []) ≡ refused
unfolding parsecmd peek
parse_stray = refl
