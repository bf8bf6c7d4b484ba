-- ===== src/Prelude/Int.antt =====
-- Signed integers over the native numbers, under the library's names, and the two's complement
-- reduction of C++'s `int` and `std::int64_t`. Sums and orders go through the two parts of an
-- integer, which are numbers that `omega` reads.
use Prim.Native.Nat.{ℕ, suc, ◌+◌, ◌-◌, ◌%◌, ◌^◌, ◌≤◌, ◌<◌, compare, Ordering}
use mathlib.Core.Path.{◌≡◌, refl}
use mathlib.Core.Bool.{Bool, true, false}
use native.Mathlib.Omega.{arith}

-- `negsuc n` is -(n + 1).
pub data ℤ : Type 0 where
  pos : ℕ → ℤ
  negsuc : ℕ → ℤ

abbrev pub pos_part : ℤ → ℕ
pos_part (pos n) = n
pos_part (negsuc n) = 0

abbrev pub neg_part : ℤ → ℕ
neg_part (pos n) = 0
neg_part (negsuc n) = suc n

-- a - b, as an integer.
abbrev pub sub_ℕ : ℕ → ℕ → ℤ
sub_ℕ a b = elim (compare b a) [ Ordering.gt ↦ negsuc (b - a - 1) | _ ↦ pos (a - b) ]

infixl 65 ◌+ℤ◌
infix 50 ◌≤ℤ◌ ◌<ℤ◌
unfoldable pub ◌+ℤ◌ : ℤ → ℤ → ℤ
a +ℤ b = sub_ℕ (pos_part a + pos_part b) (neg_part a + neg_part b)

abbrev pub ◌≤ℤ◌ : ℤ → ℤ → Type 0
a ≤ℤ b = pos_part a + neg_part b ≤ pos_part b + neg_part a

abbrev pub ◌<ℤ◌ : ℤ → ℤ → Type 0
a <ℤ b = pos_part a + neg_part b < pos_part b + neg_part a

abbrev pub ltb_ℤ : ℤ → ℤ → Bool
ltb_ℤ a b = elim (compare (pos_part a + neg_part b) (pos_part b + neg_part a)) [
  | Ordering.lt ↦ true
  | _ ↦ false
]

pub +ℤ_parts :
    (a b : ℤ)
    → pos_part (a +ℤ b) + neg_part a + neg_part b ≡ neg_part (a +ℤ b) + pos_part a + pos_part b
unfolding ◌+ℤ◌
+ℤ_parts a b = ground arith

pub eq_of_parts : (a b : ℤ) → pos_part a + neg_part b ≡ pos_part b + neg_part a → a ≡ b
eq_of_parts a b h = ground arith

pub ruleset int_laws = (arith, +ℤ_parts, eq_of_parts)

-- The residue below `m` of an integer, and the integer of a two's complement pattern.
abbrev pub residue : ℕ → ℤ → ℕ
residue m a = (pos_part a + (m - neg_part a % m)) % m

abbrev pub of_pattern : ℕ → ℕ → ℤ
of_pattern half p = elim (compare p half) [ Ordering.lt ↦ pos p | _ ↦ negsuc (half + half - p - 1) ]

-- `static_cast<int>` of a wider integer. The sum of two `int`s that leaves the range is undefined
-- in C++; the model gives it the value that two's complement hardware gives.
unfoldable pub wrap_int : ℤ → ℤ
wrap_int a = of_pattern (2 ^ 31) (residue (2 ^ 32) a)

abbrev pub InInt : ℤ → Type 0
InInt a = (negsuc (2 ^ 31 - 1) ≤ℤ a) × (a <ℤ pos (2 ^ 31))

pub wrap_int_id : (a : ℤ) → InInt a → wrap_int a ≡ a
unfolding wrap_int
wrap_int_id (pos n) h = ground arith
wrap_int_id (negsuc n) h = ground arith

pub wrap_int-InInt : (a : ℤ) → InInt (wrap_int a)
unfolding wrap_int
wrap_int-InInt a = ground arith

-- `a += b` on `int`
unfoldable pub add_int : ℤ → ℤ → ℤ
add_int a b = wrap_int (a +ℤ b)

pub add_int_exact : (a b : ℤ) → InInt (a +ℤ b) → add_int a b ≡ a +ℤ b
unfolding add_int
add_int_exact a b h = wrap_int_id (a +ℤ b) h

wraps : add_int (pos 2147483647) (pos 1) ≡ negsuc 2147483647
unfolding add_int wrap_int ◌+ℤ◌
wraps = refl
