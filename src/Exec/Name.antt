-- ===== src/Exec/Name.antt =====
-- The name that exec() of initial-xv6/src/kernel/exec.c gives to a process.
use cpu_scheduling_algos.Prelude.{
  ℕ, ◌≡◌, ◌⊎◌, ◌∙◌, inl, inr, refl, sym, ap, ap₂, ◌==◌, ==_iff, false, Bool-cases, List, [], ◌∷◌,
  ◌++◌,
}
use cpu_scheduling_algos.Paging.Copy.{take}
use cpu_scheduling_algos.Fs.Paths.{slash}
use cpu_scheduling_algos.Exec.Image.{last_part}

-- There is no slash among the characters.
abbrev pub NoSlash : List ℕ → Type 0
NoSlash [] = Unit
NoSlash (c ∷ cs) = ((c == slash) ≡ false) × NoSlash cs

-- The text is empty or ends in a slash.
abbrev pub IsPrefix : List ℕ → Type 0
IsPrefix s = (s ≡ []) ⊎ ((t : List ℕ) × (s ≡ t ++ slash ∷ []))

-- The text `t` is what stands in `path` behind its last slash, all of it if there is none.
abbrev pub IsLast : List ℕ → List ℕ → Type 0
IsLast path t = (s : List ℕ) × (path ≡ s ++ t) × IsPrefix s × NoSlash t

-- The name is that part of the path, cut to 15 characters.
abbrev pub IsNameOf : List ℕ → List ℕ → Type 0
IsNameOf path name = (t : List ℕ) × IsLast path t × (name ≡ take 15 t)

append_assoc : (xs ys zs : List ℕ) → (xs ++ ys) ++ zs ≡ xs ++ (ys ++ zs)
append_assoc [] ys zs = refl
append_assoc (x ∷ xs) ys zs = ap (λ l. x ∷ l) (append_assoc xs ys zs)

append_nil : (xs : List ℕ) → xs ++ [] ≡ xs
append_nil [] = refl
append_nil (x ∷ xs) = ap (λ l. x ∷ l) (append_nil xs)

NoSlash-snoc : (u : List ℕ) (c : ℕ) → NoSlash u → (c == slash) ≡ false → NoSlash (u ++ c ∷ [])
NoSlash-snoc [] c n h = (h, tt)
NoSlash-snoc (x ∷ u) c n h = (n.0, NoSlash-snoc u c n.1 h)

IsPrefix-extend : (u s : List ℕ) (c : ℕ) → c ≡ slash → IsPrefix s → IsPrefix (u ++ c ∷ s)
IsPrefix-extend u s c e (inl empty) = inr (u, ap₂ (λ x l. u ++ x ∷ l) e empty)
IsPrefix-extend u s c e (inr (t, ends)) =
    inr (u ++ c ∷ t, ap (λ l. u ++ c ∷ l) ends ∙ sym (append_assoc u (c ∷ t) (slash ∷ [])))

-- With `u` read since the last slash and `cs` still to read.
last_part-IsLast :
    (last u cs : List ℕ) → last ≡ u ++ cs → NoSlash u → IsLast last (last_part last cs)
unfolding last_part
last_part-IsLast last u [] e n =
    let whole : u ≡ last = sym (e ∙ append_nil u) in ([], refl, inl refl, rw whole at n)
last_part-IsLast last u (c ∷ cs) e n = elim (Bool-cases (c == slash)) [
  | inl t ↦
      let (s, split, ends, plain) = last_part-IsLast cs [] cs refl tt in
      let c_is : c ≡ slash = (==_iff c slash).0 t in
      rw t (
        u ++ c ∷ s,
        e ∙ ap (λ l. u ++ c ∷ l) split ∙ sym (append_assoc u (c ∷ s) (last_part cs cs)),
        IsPrefix-extend u s c c_is ends,
        plain,
      )
  | inr f ↦ rw f (
      last_part-IsLast last (u ++ c ∷ []) cs (e ∙ sym (append_assoc u (c ∷ []) cs))
        (NoSlash-snoc u c n f))
]

pub last_part-IsNameOf : (path : List ℕ) → IsNameOf path (take 15 (last_part path path))
last_part-IsNameOf path = (last_part path path, last_part-IsLast path [] path refl tt, refl)
