-- ===== src/Json/Equality.antt =====
-- include/forgeant/json/json.hpp: `operator==`, which compares the variants, so the doubles in them by
-- the rules of IEEE 754.
pub mod Laws
pub mod Decides
use forgeant.Prelude.{String, Bool, true, false, ◌&&◌, ◌||◌, ◌==◌, eqb, if◌then◌else◌}
use forgeant.Prelude.Int.{ℤ, pos, negsuc}
use forgeant.Double.{Double, finite, infinite, nan}
use forgeant.Json.{
  Json, null, boolean, integer, number, string, array, object, Items, nil, cons, Members, end,
  member,
}

abbrev pub same_boolean : Bool → Bool → Bool
same_boolean true b = b
same_boolean false true = false
same_boolean false false = true

abbrev pub same_integer : ℤ → ℤ → Bool
same_integer (pos m) (pos n) = eqb m n
same_integer (negsuc m) (negsuc n) = eqb m n
same_integer (pos _) (negsuc _) = false
same_integer (negsuc _) (pos _) = false

-- The two zeros are equal, and NaN is equal to nothing.
abbrev pub same_double : Double → Double → Bool
same_double (finite s u) (finite t v) = eqb u v && (same_boolean s t || eqb u 0)
same_double (infinite s) (infinite t) = same_boolean s t
same_double _ _ = false

unfoldable mutual
  pub equals : Json → Json → Bool
  equals null null = true
  equals (boolean b) (boolean c) = same_boolean b c
  equals (integer m) (integer n) = same_integer m n
  equals (number d) (number e) = same_double d e
  equals (string s) (string t) = s == t
  equals (array xs) (array ys) = equal_items xs ys
  equals (object ms) (object ns) = equal_members ms ns
  equals _ _ = false

  pub equal_items : Items → Items → Bool
  equal_items nil nil = true
  equal_items (cons x xs) (cons y ys) = equals x y && equal_items xs ys
  equal_items _ _ = false

  pub equal_members : Members → Members → Bool
  equal_members end end = true
  equal_members (member k v ms) (member j w ns) = (k == j) && (equals v w && equal_members ms ns)
  equal_members _ _ = false
