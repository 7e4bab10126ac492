-- ===== src/Prelude/Int.antt =====
-- C's `int` where the program meets negative values: the integers over the native numbers.
use Prim.Native.Nat.{ℕ, suc, ◌+◌, ◌-◌, ◌%◌, ◌^◌, ◌≤◌, ◌<◌}
use mathlib.Core.Path.{◌≡◌}
use mathlib.Core.Bool.{Bool, true}
use native.Mathlib.Omega.{arith}
use cpu_scheduling_algos.Prelude.Tests.{leb, ltb, ◌==◌, if◌then◌else◌}

-- `negsuc n` is -(n + 1).
pub data ℤ : Type 0 where
  pos : ℕ → ℤ
  negsuc : ℕ → ℤ

abbrev pub pos_part : ℤ → ℕ
pos_part (pos n) = n
pos_part (negsuc n) = 0

abbrev pub neg_part : ℤ → ℕ
neg_part (pos n) = 0
neg_part (negsuc n) = suc n

abbrev pub sub_ℕ : ℕ → ℕ → ℤ
sub_ℕ a b = if leb b a then pos (a - b) else negsuc (b - a - 1)

infixl 65 ◌+ℤ◌
unfoldable pub ◌+ℤ◌ : ℤ → ℤ → ℤ
a +ℤ b = sub_ℕ (pos_part a + pos_part b) (neg_part a + neg_part b)

infix 50 ◌≤ℤ◌ ◌<ℤ◌
abbrev pub ◌≤ℤ◌ : ℤ → ℤ → Type 0
a ≤ℤ b = pos_part a + neg_part b ≤ pos_part b + neg_part a

abbrev pub ◌<ℤ◌ : ℤ → ℤ → Type 0
a <ℤ b = pos_part a + neg_part b < pos_part b + neg_part a

abbrev pub int_leb : ℤ → ℤ → Bool
int_leb a b = leb (pos_part a + neg_part b) (pos_part b + neg_part a)

abbrev pub int_eqb : ℤ → ℤ → Bool
int_eqb a b = pos_part a + neg_part b == pos_part b + neg_part a

pub +ℤ_parts :
    (a b : ℤ)
    → pos_part (a +ℤ b) + neg_part a + neg_part b ≡ neg_part (a +ℤ b) + pos_part a + pos_part b
unfolding ◌+ℤ◌
+ℤ_parts a b = ground arith

pub int_eqb→eq : (a b : ℤ) → int_eqb a b ≡ true → a ≡ b
int_eqb→eq (pos a) (pos b) h = ground arith
int_eqb→eq (pos a) (negsuc b) h = ground arith
int_eqb→eq (negsuc a) (pos b) h = ground arith
int_eqb→eq (negsuc a) (negsuc b) h = ground arith

pub neg_part_of_pos : (z : ℤ) → 0 < pos_part z → neg_part z ≡ 0
neg_part_of_pos (pos n) h = ground arith
neg_part_of_pos (negsuc n) h = absurd (omega arith)

-- The 32 bits of an int, as an unsigned number, and the int that a result wraps around to.
abbrev pub word_of : ℤ → ℕ
word_of (pos n) = n % 2 ^ 32
word_of (negsuc n) = 2 ^ 32 - 1 - n % 2 ^ 32

unfoldable pub wrap_int : ℤ → ℤ
wrap_int z = if ltb (word_of z) (2 ^ 31) then pos (word_of z) else negsuc (2 ^ 32 - 1 - word_of z)

pub wrap_int_small : (z : ℤ) → pos 0 ≤ℤ z → z <ℤ pos (2 ^ 31) → wrap_int z ≡ z
unfolding wrap_int
wrap_int_small (pos n) lo hi = ground arith
wrap_int_small (negsuc n) lo hi = absurd (omega arith)
