-- ===== src/Double/Rounding.antt =====
-- Numbers of less than 54 bits are doubles.
use forgeant.Prelude.{ℕ, suc, ◌<◌, ◌^◌, ◌/◌, ◌≡◌, true, ltb, arith}
use forgeant.Double.{nearest, round_from, round_53}

nearest_one : (k : ℕ) → nearest k 1 ≡ k
nearest_one k = ground arith

small : (k : ℕ) → k < 2 ^ 53 → ltb (k / 1) (2 ^ 53) ≡ true
small k h = ground arith

round_from_one : (fuel k : ℕ) → k < 2 ^ 53 → round_from (suc fuel) k 1 ≡ k
unfolding round_from
round_from_one fuel k h = rw (small k h, nearest_one k)

pub round_small : (k : ℕ) → k < 2 ^ 53 → round_53 k ≡ k
unfolding round_53
round_small k h = round_from_one 10 k h
