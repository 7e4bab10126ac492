-- ===== src/Fs/Elements.antt =====
-- skipelem() of initial-xv6/src/kernel/fs.c against the split of a path at its slashes.
use cpu_scheduling_algos.Prelude.{
  ℕ, ◌≤◌, ◌<◌, ◌≡◌, refl, ap, ◌∙◌, sym, ◌==◌, if◌then◌else◌, false, inl, inr, ◌⊎◌, arith,
  Bool-cases, none, some, List, [], ◌∷◌, map, length,
}
use cpu_scheduling_algos.Paging.Copy.{take}
use cpu_scheduling_algos.Fs.Directories.{dirsiz}
use cpu_scheduling_algos.Fs.Paths.{slash, skip_slashes, until_slash, skipelem, is_absolute}

-- The parts of a path between its slashes, the empty ones included.
abbrev pub prepend : ℕ → List (List ℕ) → List (List ℕ)
prepend c [] = (c ∷ []) ∷ []
prepend c (w ∷ ws) = (c ∷ w) ∷ ws

abbrev pub split : List ℕ → List (List ℕ)
split [] = [] ∷ []
split (c ∷ cs) = if c == slash then [] ∷ split cs else prepend c (split cs)

abbrev pub nonempty : List (List ℕ) → List (List ℕ)
nonempty [] = []
nonempty ([] ∷ ws) = nonempty ws
nonempty ((c ∷ w) ∷ ws) = (c ∷ w) ∷ nonempty ws

-- The elements of a path, each cut to DIRSIZ characters.
abbrev pub elements : List ℕ → List (List ℕ)
elements path = map (take dirsiz) (nonempty (split path))

abbrev after_slash : List ℕ → List (List ℕ)
after_slash [] = []
after_slash (c ∷ cs) = split cs

split-until_slash : (cs : List ℕ) → split cs ≡ (until_slash cs).0 ∷ after_slash ((until_slash cs).1)
split-until_slash [] = refl
split-until_slash (c ∷ cs) = elim (Bool-cases (c == slash)) [
  | inl t ↦ rw t refl
  | inr f ↦ rw (f, split-until_slash cs) refl
]

nonempty-after_slash :
    (cs : List ℕ)
    → nonempty (after_slash ((until_slash cs).1)) ≡ nonempty (split ((until_slash cs).1))
nonempty-after_slash [] = refl
nonempty-after_slash (c ∷ cs) = elim (Bool-cases (c == slash)) [
  | inl t ↦ rw (t, t) refl
  | inr f ↦ rw f (nonempty-after_slash cs)
]

nonempty-skip_slashes : (cs : List ℕ) → nonempty (split (skip_slashes cs)) ≡ nonempty (split cs)
nonempty-skip_slashes [] = refl
nonempty-skip_slashes (c ∷ cs) = elim (Bool-cases (c == slash)) [
  | inl t ↦ rw t (nonempty-skip_slashes cs)
  | inr f ↦ rw (f, f) refl
]

skip_slashes_start : (cs : List ℕ) → is_absolute (skip_slashes cs) ≡ false
skip_slashes_start [] = refl
skip_slashes_start (c ∷ cs) = elim (Bool-cases (c == slash)) [
  | inl t ↦ rw t (skip_slashes_start cs)
  | inr f ↦ rw f f
]

length-skip_slashes : (cs : List ℕ) → length (skip_slashes cs) ≤ length cs
length-skip_slashes [] = omega arith
length-skip_slashes (c ∷ cs) = elim (Bool-cases (c == slash)) [
  | inl t ↦ rw t (ground (arith, length-skip_slashes cs))
  | inr f ↦ rw f (omega arith)
]

length-until_slash : (cs : List ℕ) → length ((until_slash cs).1) ≤ length cs
length-until_slash [] = omega arith
length-until_slash (c ∷ cs) = elim (Bool-cases (c == slash)) [
  | inl t ↦ rw t (omega arith)
  | inr f ↦ rw f (ground (arith, length-until_slash cs))
]

until_slash-cons :
    (c : ℕ) (cs : List ℕ)
    → (c == slash) ≡ false
    → until_slash (c ∷ cs) ≡ (c ∷ (until_slash cs).0, (until_slash cs).1)
until_slash-cons c cs f = rw f refl

elements-cons :
    (c : ℕ) (cs : List ℕ)
    → (c == slash) ≡ false
    → elements (c ∷ cs)
      ≡ take dirsiz (c ∷ (until_slash cs).0) ∷ elements (skip_slashes (until_slash cs).1)
elements-cons c cs f =
    let whole : split (c ∷ cs) ≡ (c ∷ (until_slash cs).0) ∷ after_slash (until_slash cs).1 =
      split-until_slash (c ∷ cs) ∙ ap (λ p. p.0 ∷ after_slash p.1) (until_slash-cons c cs f) in
    ap (λ ws. map (take dirsiz) (nonempty ws)) whole
    ∙ ap (λ ws. take dirsiz (c ∷ (until_slash cs).0) ∷ map (take dirsiz) ws)
        (nonempty-after_slash cs ∙ sym (nonempty-skip_slashes (until_slash cs).1))

List-cases : (xs : List ℕ) → (xs ≡ []) ⊎ ((c : ℕ) × (cs : List ℕ) × (xs ≡ c ∷ cs))
List-cases [] = inl refl
List-cases (c ∷ cs) = inr (c, cs, refl)

elements-skip_slashes : (path : List ℕ) → elements path ≡ elements (skip_slashes path)
elements-skip_slashes path = ap (map (take dirsiz)) (sym (nonempty-skip_slashes path))

shorter :
    (path : List ℕ) (c : ℕ) (cs : List ℕ)
    → skip_slashes path ≡ c ∷ cs
    → length (skip_slashes (until_slash cs).1) < length path
shorter path c cs e = ground (
  arith,
  ap length e,
  length-skip_slashes path,
  length-skip_slashes (until_slash cs).1,
  length-until_slash cs,
)

-- skipelem(path, name) returns 0 if the path has no element. Otherwise it stores the first element of the
-- path, cut to DIRSIZ characters, and returns a shorter path that has the other elements and does not
-- start with a slash.
pub skipelem_lem :
    (path : List ℕ)
    → ((skipelem path ≡ none) × (elements path ≡ []))
      ⊎ ((rest : List ℕ) × (element : List ℕ) × (skipelem path ≡ some (rest, element))
          × (elements path ≡ element ∷ elements rest)
          × (length rest < length path)
          × (is_absolute rest ≡ false))
unfolding skipelem
skipelem_lem path = elim (List-cases (skip_slashes path)) [
  | inl e ↦ inl (rw (e, skipelem) refl, elements-skip_slashes path ∙ ap elements e)
  | inr (c, cs, e) ↦
      let start : (c == slash) ≡ false = sym (ap is_absolute e) ∙ skip_slashes_start path in
      let rest = (until_slash cs).1 in
      let run : skipelem path ≡ some (skip_slashes rest, take dirsiz (c ∷ (until_slash cs).0)) =
        rw (e, skipelem)
          (ap (λ p. some (skip_slashes p.1, take dirsiz p.0))
            (ap until_slash e ∙ until_slash-cons c cs start)) in
      inr (
        skip_slashes rest,
        take dirsiz (c ∷ (until_slash cs).0),
        run,
        elements-skip_slashes path ∙ ap elements e ∙ elements-cons c cs start,
        shorter path c cs e,
        skip_slashes_start rest,
      )
]
