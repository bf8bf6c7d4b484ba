-- ===== src/Double.antt =====
-- C++'s `double`. A finite double is a whole number of units of 2^-1074, so a sign and a number of
-- units hold it exactly; infinities and NaN are constructors of their own.
pub mod Rounding
use forgeant.Prelude.{ℕ, zero, suc, ◌+◌, ◌*◌, ◌/◌, ◌%◌, ◌^◌, Bool, true, false, ltb, leb, eqb, ◌&&◌}
use forgeant.Prelude.{if◌then◌else◌, ◌≡◌, refl}
use forgeant.Prelude.Int.{ℤ, pos, negsuc}

pub data Double : Type 0 where
  -- true for a negative sign; the magnitude counts units of 2^-1074
  finite : Bool → ℕ → Double
  infinite : Bool → Double
  nan : Double

-- 1.0 in units; shut, since no proof needs its digits
unfoldable pub one : ℕ
one = 2 ^ 1074

abbrev pub is_finite : Double → Bool
is_finite (finite s u) = true
is_finite _ = false

-- `d == std::floor(d)`; it holds of the infinities too, and not of NaN
unfoldable pub is_whole : Double → Bool
is_whole (finite s u) = eqb (u % one) 0
is_whole (infinite s) = true
is_whole nan = false

-- `d >= -n` and `d <= n` for a whole number `n`
unfoldable pub at_least_neg : ℕ → Double → Bool
at_least_neg n (finite true u) = leb u (n * one)
at_least_neg n (finite false u) = true
at_least_neg n (infinite true) = false
at_least_neg n (infinite false) = true
at_least_neg n nan = false

unfoldable pub at_most : ℕ → Double → Bool
at_most n (finite true u) = true
at_most n (finite false u) = leb u (n * one)
at_most n (infinite true) = true
at_most n (infinite false) = false
at_most n nan = false

abbrev pub signed : Bool → ℕ → ℤ
signed false n = pos n
signed true zero = pos zero
signed true (suc n) = negsuc n

-- The integer that a double truncates to, whatever its size.
unfoldable pub truncate : Double → ℤ
truncate (finite s u) = signed s (u / one)
truncate (infinite s) = pos 0
truncate nan = pos 0

-- The nearest number with at most 53 significant bits, ties to even. `fuel` bounds the halvings: an
-- `std::int64_t` has at most 64 bits, so 11 of them leave 53.
abbrev nearest : ℕ → ℕ → ℕ
nearest n scale =
    let q = n / scale in
    let r = n % scale in
    let up = if ltb scale (r + r) then true else eqb (r + r) scale && eqb (q % 2) 1 in
    (if up then q + 1 else q) * scale

round_from : ℕ → ℕ → ℕ → ℕ
round_from zero n scale = nearest n scale
round_from (suc fuel) n scale =
    let rest = round_from fuel n (scale * 2) in
    if ltb (n / scale) (2 ^ 53) then nearest n scale else rest

unfoldable pub round_53 : ℕ → ℕ
unfolding round_from
round_53 n = round_from 11 n 1

-- `static_cast<double>` of an integer
unfoldable pub of_integer : ℤ → Double
of_integer (pos n) = finite false (round_53 n * one)
of_integer (negsuc n) = finite true (round_53 (suc n) * one)

round_below : round_53 9007199254740991 ≡ 9007199254740991
unfolding round_53
round_below = refl

round_ties : round_53 9007199254740993 ≡ 9007199254740992
unfolding round_53
round_ties = refl

round_max : round_53 9223372036854775807 ≡ 9223372036854775808
unfolding round_53
round_max = refl
