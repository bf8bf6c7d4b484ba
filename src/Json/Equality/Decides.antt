-- ===== src/Json/Equality/Decides.antt =====
-- `operator==` decides equality where each value has one form.
use mathlib.Core.Path.{subst}
use forgeant.Prelude.{zero, suc, ◌≡◌, ◌↔◌, refl, ap, Bool, true, false, ◌&&◌, ◌==◌, eq_iff, arith}
use forgeant.Prelude.Int.{ℤ}
use forgeant.Double.{Double, finite, infinite, nan}
use forgeant.Json.{
  Json, null, boolean, integer, number, string, array, object, Items, nil, cons, Members, end,
  member,
}
use forgeant.Json.Equality.{
  same_boolean, same_integer, same_double, equals, equal_items, equal_members,
}
use forgeant.Json.Equality.Laws.{
  IsOrdered, AllDoubles, ItemDoubles, MemberDoubles, both, equals_self_iff,
}

-- Neither NaN, which is equal to nothing, nor the negative zero, which is equal to the other zero.
abbrev pub IsSingular : Double → Type 0
IsSingular (finite true zero) = ⊥
IsSingular (finite true (suc u)) = Unit
IsSingular (finite false u) = Unit
IsSingular (infinite _) = Unit
IsSingular nan = ⊥

IsSingular-IsOrdered : (d : Double) → IsSingular d → IsOrdered d
IsSingular-IsOrdered (finite s u) h = tt
IsSingular-IsOrdered (infinite s) h = tt
IsSingular-IsOrdered nan h = h

mutual
  ordered : (j : Json) → AllDoubles IsSingular j → AllDoubles IsOrdered j
  ordered (number d) h = IsSingular-IsOrdered d h
  ordered (array xs) h = ordered_items xs h
  ordered (object ms) h = ordered_members ms h
  ordered _ h = tt

  ordered_items : (xs : Items) → ItemDoubles IsSingular xs → ItemDoubles IsOrdered xs
  ordered_items nil h = tt
  ordered_items (cons x xs) h = (ordered x h.0, ordered_items xs h.1)

  ordered_members : (ms : Members) → MemberDoubles IsSingular ms → MemberDoubles IsOrdered ms
  ordered_members end h = tt
  ordered_members (member k v ms) h = (ordered v h.0, ordered_members ms h.1)

same_boolean_sound : (b c : Bool) → same_boolean b c ≡ true → b ≡ c
same_boolean_sound true c e = cc
same_boolean_sound false c e = ground arith

same_integer_sound : (m n : ℤ) → same_integer m n ≡ true → m ≡ n
same_integer_sound m n e = ground arith

same_double_sound : (d e : Double) → IsSingular d → IsSingular e → same_double d e ≡ true → d ≡ e
same_double_sound d e hd he h = ground arith

mutual
  unfolding equals

  equals_sound :
      (a b : Json) → AllDoubles IsSingular a → AllDoubles IsSingular b → equals a b ≡ true → a ≡ b
  equals_sound null null ha hb e = refl
  equals_sound (boolean b) (boolean c) ha hb e = ap boolean (same_boolean_sound b c e)
  equals_sound (integer m) (integer n) ha hb e = ap integer (same_integer_sound m n e)
  equals_sound (number c) (number d) ha hb e = ap number (same_double_sound c d ha hb e)
  equals_sound (string s) (string t) ha hb e = ap string ((eq_iff s t).0 e)
  equals_sound (array xs) (array ys) ha hb e = ap array (items_sound xs ys ha hb e)
  equals_sound (object ms) (object ns) ha hb e = ap object (members_sound ms ns ha hb e)
  equals_sound a b ha hb e = cc

  items_sound :
      (xs ys : Items)
      → ItemDoubles IsSingular xs
      → ItemDoubles IsSingular ys
      → equal_items xs ys ≡ true
      → xs ≡ ys
  items_sound nil nil hx hy e = refl
  items_sound (cons x xs) (cons y ys) hx hy e =
      let split = both (equals x y) (equal_items xs ys) e in
      let same = equals_sound x y hx.0 hy.0 split.0 in
      let rest = items_sound xs ys hx.1 hy.1 split.1 in cc
  items_sound xs ys hx hy e = cc

  members_sound :
      (ms ns : Members)
      → MemberDoubles IsSingular ms
      → MemberDoubles IsSingular ns
      → equal_members ms ns ≡ true
      → ms ≡ ns
  members_sound end end hm hn e = refl
  members_sound (member k v ms) (member j w ns) hm hn e =
      let split = both (k == j) (equals v w && equal_members ms ns) e in
      let values = both (equals v w) (equal_members ms ns) split.1 in
      let key = (eq_iff k j).0 split.0 in
      let same = equals_sound v w hm.0 hn.0 values.0 in
      let rest = members_sound ms ns hm.1 hn.1 values.1 in cc
  members_sound ms ns hm hn e = cc

-- Where no number is NaN or the negative zero, two values are equal under `operator==` exactly if they
-- are the same: a number that is held as an integer is never equal to one that is held as a double.
pub equals_iff :
    (a b : Json) → AllDoubles IsSingular a → AllDoubles IsSingular b → (equals a b ≡ true) ↔ (a ≡ b)
equals_iff a b ha hb = (
  equals_sound a b ha hb,
  λ same. subst (λ x. equals a x ≡ true) same ((equals_self_iff a).1 (ordered a ha)),
)
