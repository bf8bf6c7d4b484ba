-- ===== src/Json/Text/Numbers.antt =====
-- The numbers of `from_generic`: when a `double` becomes an integer, and which one.
use native.Mathlib.Nat.{
  mod-add-div', div-le_of_le-mul, mul-mod_left, mul-le-mul_right, mul-div_left,
}
use native.Mathlib.Nat.{mul_comm}
use mathlib.Core.Path.{subst}
use forgeant.Prelude.{
  ℕ, zero, suc, ◌*◌, ◌-◌, if◌then◌else◌, ◌/◌, ◌%◌, ◌^◌, ◌≤◌, ◌<◌, ◌↔◌, ◌≡◌, refl, sym, ◌∙◌, Bool,
  true, false, ◌&&◌, eqb, leb, arith,
}
use forgeant.Prelude.Int.{ℤ, pos, negsuc, pos_part, neg_part}
use forgeant.Double.{
  Double, finite, infinite, nan, one, is_whole, at_least_neg, at_most, truncate, round_53, signed,
}
use forgeant.Json.{integer, number}
use forgeant.Json.Text.{from_double}

-- The double is the integer: so many times 1.0, with its sign.
abbrev pub IsExactly : Double → ℤ → Type 0
IsExactly (finite true u) n = (pos_part n ≡ 0) × (u ≡ neg_part n * one)
IsExactly (finite false u) n = (neg_part n ≡ 0) × (u ≡ pos_part n * one)
IsExactly (infinite _) n = ⊥
IsExactly nan n = ⊥

abbrev pub InRange : ℤ → Type 0
InRange n = (neg_part n ≤ 2 ^ 63) × (pos_part n ≤ 2 ^ 63)

exact : (u : ℕ) → eqb (u % one) 0 ≡ true → u ≡ u / one * one
exact u h = sym (mod-add-div' u one) ∙ ground (arith)

below : (u n : ℕ) → leb u (n * one) ≡ true → u / one ≤ n
below u n h = div-le_of_le-mul one (rw (mul_comm one n) (ground arith))

integer_injective : (m n : ℤ) → integer m ≡ integer n → m ≡ n
integer_injective m n h = cc

-- The four tests of `from_double`, where the sign settles one of the bounds.
passed :
    (whole low high : Bool) (t n : ℤ) (d : Double)
    → (if whole && true && low && high then integer t else number d) ≡ integer n
    → (whole ≡ true) × (low ≡ true) × (high ≡ true) × (t ≡ n)
passed true true true t n d h = (refl, refl, refl, integer_injective t n h)
passed true true false t n d h = cc
passed true false high t n d h = cc
passed false low high t n d h = cc

negative :
    (u k : ℕ)
    → u ≡ k * one
    → k ≤ 2 ^ 63
    → IsExactly (finite true u) (signed true k) × InRange (signed true k)
negative u zero e h = ((refl, e), (omega arith, omega arith))
negative u (suc k) e h = ((refl, e), (h, omega arith))

round_bound : round_53 (2 ^ 63 - 1) ≡ 2 ^ 63
unfolding round_53
round_bound = refl

from_double-IsExactly : (d : Double) (n : ℤ) → from_double d ≡ integer n → IsExactly d n × InRange n
unfolding from_double is_whole at_least_neg at_most truncate
from_double-IsExactly (finite true u) n h =
    let t =
      passed (eqb (u % one) 0) (leb u (2 ^ 63 * one)) true (signed true (u / one)) n (finite true u)
        h in
    subst (λ m. IsExactly (finite true u) m × InRange m) t.3
      (negative u (u / one) (exact u t.0) (below u (2 ^ 63) t.1))
from_double-IsExactly (finite false u) n h =
    let t =
      passed (eqb (u % one) 0) true (leb u (round_53 (2 ^ 63 - 1) * one)) (pos (u / one)) n
        (finite false u) h in
    subst (λ m. IsExactly (finite false u) m × InRange m) t.3
      ((refl, exact u t.0), (omega arith, subst (λ b. u / one ≤ b) round_bound (below u _ t.2)))
from_double-IsExactly (infinite true) n h = cc
from_double-IsExactly (infinite false) n h = cc
from_double-IsExactly nan n h = cc

one_positive : 0 < one
unfolding one
one_positive = omega arith

whole_multiple : (k : ℕ) → eqb ((k * one) % one) 0 ≡ true
whole_multiple k = rw (mul-mod_left k one)

leb_of_le : (a b : ℕ) → a ≤ b → leb a b ≡ true
leb_of_le a b h = ground arith

within : (k n : ℕ) → k ≤ n → leb (k * one) (n * one) ≡ true
within k n h = leb_of_le (k * one) (n * one) (mul-le-mul_right one h)

from_double_exactly : (d : Double) (n : ℤ) → IsExactly d n → InRange n → from_double d ≡ integer n
unfolding from_double is_whole at_least_neg at_most truncate
from_double_exactly (finite true u) (pos k) e r =
    rw (e.1, e.0, whole_multiple 0, within 0 (2 ^ 63) (omega arith), mul-div_left 0 one_positive)
from_double_exactly (finite true u) (negsuc k) e r =
    rw (e.1, whole_multiple (suc k), within (suc k) (2 ^ 63) r.0, mul-div_left (suc k) one_positive)
from_double_exactly (finite false u) (pos k) e r =
    rw (e.1, whole_multiple k, round_bound, within k (2 ^ 63) r.1, mul-div_left k one_positive)
from_double_exactly (finite false u) (negsuc k) e r = absurd (omega (arith, e.0))
from_double_exactly (infinite s) n e r = absurd e
from_double_exactly nan n e r = absurd e

-- A number becomes an integer exactly if it is one, infinities and NaN excluded, and lies between
-- -2^63 and 2^63, both ends included: the upper end, which no `std::int64_t` holds, is let through.
-- The integer is then the number itself.
pub from_double_iff :
    (d : Double) (n : ℤ) → (from_double d ≡ integer n) ↔ (IsExactly d n × InRange n)
from_double_iff d n = (from_double-IsExactly d n, λ h. from_double_exactly d n h.0 h.1)
