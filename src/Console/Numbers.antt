-- ===== src/Console/Numbers.antt =====
-- The numbers that initial-xv6/src/kernel/printf.c prints.
use cpu_scheduling_algos.Prelude.{
  ℕ, zero, suc, ◌+◌, ◌*◌, ◌/◌, ◌^◌, ◌≤◌, ◌<◌, ◌≡◌, refl, ap, ◌∙◌, inl, inr, ◌==◌, if◌then◌else◌,
  Bool, true, false, Bool-cases, arith, List, [], ◌∷◌, ◌++◌, length, length-append,
}
use native.Mathlib.Nat.{div-add-mod, div-lt_iff_lt-mul, mul-le-mul_left, mul-zero, pow-suc}
use cpu_scheduling_algos.Prelude.Int.{ℤ}
use cpu_scheduling_algos.Console.{
  digits_from, reverse_onto, chars_of, magnitude, has_minus, int_buf, printint,
}

-- The number that digits stand for, the lowest first.
abbrev pub value_of : ℕ → List ℕ → ℕ
value_of base [] = 0
value_of base (d ∷ ds) = d + base * value_of base ds

quotient_below : (b base x m : ℕ) → 0 < b → b ≤ base → x < b ^ suc m → x / base < b ^ m
quotient_below b base x m pos_b le lt =
    let wide : b ^ m * b ≤ b ^ m * base = mul-le-mul_left (b ^ m) le in
    let e = pow-suc b m in (div-lt_iff_lt-mul (omega arith)).1 (omega arith)

fuel_left : (n q : ℕ) → q < 2 ^ n → 0 < q → 0 < n
fuel_left zero q lt p = absurd (omega arith)
fuel_left (suc n) q lt p = omega arith

-- The digits of a number below `2 ^ n` in a base of 2 or more.
value_of-digits_from :
    (n base x : ℕ) → 2 ≤ base → x < 2 ^ n → 0 < n → value_of base (digits_from n base x) ≡ x
unfolding digits_from
value_of-digits_from zero base x two lt pos_n = absurd (omega arith)
value_of-digits_from (suc n) base x two lt pos_n =
    let split = div-add-mod x base in
    let q_lt = quotient_below 2 base x n (omega arith) two lt in
    elim (Bool-cases (x / base == 0)) [
      | inl t ↦
          let z : x / base ≡ 0 = ground arith in
          let small : base * (x / base) ≡ 0 = ap (λ q. base * q) z ∙ mul-zero base in
          rw t (omega arith)
      | inr f ↦
          let more : 0 < n = fuel_left n (x / base) q_lt (ground arith) in
          rw f (rw (value_of-digits_from n base (x / base) two q_lt more) (omega arith))
    ]

digit_left : (m q : ℕ) → q < 10 ^ m → 0 < q → 0 < m
digit_left zero q lt p = absurd (omega arith)
digit_left (suc m) q lt p = omega arith

-- A number below `10 ^ m` has at most `m` digits in a base of 10 or more.
length-digits_from :
    (n m base x : ℕ) → 10 ≤ base → x < 10 ^ m → 0 < m → length (digits_from n base x) ≤ m
unfolding digits_from
length-digits_from zero m base x ten lt some_m = omega arith
length-digits_from (suc n) zero base x ten lt some_m = absurd (omega arith)
length-digits_from (suc n) (suc m) base x ten lt some_m = elim (Bool-cases (x / base == 0)) [
  | inl t ↦ rw t (omega arith)
  | inr f ↦
      let q_lt = quotient_below 10 base x m (omega arith) ten lt in
      let more : 0 < m = digit_left m (x / base) q_lt (ground arith) in
      let shorter = length-digits_from n m base (x / base) ten q_lt more in rw f (omega arith)
]

length-chars_of : (ds : List ℕ) → length (chars_of ds) ≡ length ds
length-chars_of [] = refl
length-chars_of (d ∷ ds) = ap suc (length-chars_of ds)

abbrev pub minus_of : Bool → List ℕ
minus_of b = if b then 45 ∷ [] else []

length-minus_of : (b : Bool) → length (minus_of b) ≤ 1
length-minus_of true = omega arith
length-minus_of false = omega arith

-- In a base from 10 to 16, printint prints a `-` for a negative number if `sign` is set, and then the digits
-- of the number's absolute value, or of its 32 bits if `sign` is not set, the highest digit first; `buf` has
-- room for them.
pub printint_lem :
    (xx : ℤ) (base : ℕ) (sign : Bool)
    → 10 ≤ base
    → base ≤ 16
    → magnitude xx sign < 2 ^ 32
    → (ds : List ℕ) × (printint xx base sign
        ≡ reverse_onto (chars_of ds ++ minus_of (has_minus xx sign)) [])
      × (value_of base ds ≡ magnitude xx sign)
      × (length (int_buf xx base sign) ≤ 16)
unfolding printint int_buf
printint_lem xx base sign lo hi lt =
    let ds = digits_from 32 base (magnitude xx sign) in
    let len = length-digits_from 32 10 base (magnitude xx sign) lo (omega arith) (omega arith) in
    let joined = length-append (chars_of ds) (minus_of (has_minus xx sign)) in
    let same = length-chars_of ds in
    let one = length-minus_of (has_minus xx sign) in
    (
      ds,
      refl,
      value_of-digits_from 32 base (magnitude xx sign) (omega arith) lt (omega arith),
      omega arith,
    )
