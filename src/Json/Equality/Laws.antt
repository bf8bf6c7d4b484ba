-- ===== src/Json/Equality/Laws.antt =====
-- When a `Json` is equal to itself.
use text.Mathlib.TextPositions.{eq_refl}
use forgeant.Prelude.{ℕ, ◌≡◌, ◌==◌, ◌↔◌, refl, Bool, true, false, ◌&&◌, eqb, arith}
use forgeant.Prelude.Int.{ℤ, pos, negsuc}
use forgeant.Double.{Double, finite, infinite, nan}
use forgeant.Json.{
  Json, null, boolean, integer, number, string, array, object, Items, nil, cons, Members, end,
  member,
}
use forgeant.Json.Equality.{
  same_boolean, same_integer, same_double, equals, equal_items, equal_members,
}

abbrev pub IsOrdered : Double → Type 0
IsOrdered (finite _ _) = Unit
IsOrdered (infinite _) = Unit
IsOrdered nan = ⊥

-- Each number in it that is a double has the property.
abbrev mutual
  pub AllDoubles : (Double → Type 0) → Json → Type 0
  AllDoubles P null = Unit
  AllDoubles P (boolean b) = Unit
  AllDoubles P (integer n) = Unit
  AllDoubles P (number d) = P d
  AllDoubles P (string s) = Unit
  AllDoubles P (array xs) = ItemDoubles P xs
  AllDoubles P (object ms) = MemberDoubles P ms

  pub ItemDoubles : (Double → Type 0) → Items → Type 0
  ItemDoubles P nil = Unit
  ItemDoubles P (cons x xs) = AllDoubles P x × ItemDoubles P xs

  pub MemberDoubles : (Double → Type 0) → Members → Type 0
  MemberDoubles P end = Unit
  MemberDoubles P (member k v ms) = AllDoubles P v × MemberDoubles P ms

same_boolean_refl : (b : Bool) → same_boolean b b ≡ true
same_boolean_refl true = refl
same_boolean_refl false = refl

eqb_refl : (n : ℕ) → eqb n n ≡ true
eqb_refl n = ground arith

same_integer_refl : (n : ℤ) → same_integer n n ≡ true
same_integer_refl (pos n) = eqb_refl n
same_integer_refl (negsuc n) = eqb_refl n

same_double_iff : (d : Double) → (same_double d d ≡ true) ↔ IsOrdered d
same_double_iff (finite s u) = (λ e. tt, λ h. rw (eqb_refl u, same_boolean_refl s) refl)
same_double_iff (infinite s) = (λ e. tt, λ h. same_boolean_refl s)
same_double_iff nan = (λ e. cc, λ h. absurd h)

pub both : (a b : Bool) → a && b ≡ true → (a ≡ true) × (b ≡ true)
both true b e = (refl, e)
both false b e = cc

together : (a b : Bool) → a ≡ true → b ≡ true → a && b ≡ true
together a b e f = rw (e, f) refl

mutual
  unfolding equals

  -- A `Json` is equal to itself exactly if no number in it is NaN.
  pub equals_self_iff : (j : Json) → (equals j j ≡ true) ↔ AllDoubles IsOrdered j
  equals_self_iff null = (λ e. tt, λ h. refl)
  equals_self_iff (boolean b) = (λ e. tt, λ h. same_boolean_refl b)
  equals_self_iff (integer n) = (λ e. tt, λ h. same_integer_refl n)
  equals_self_iff (number d) = same_double_iff d
  equals_self_iff (string s) = (λ e. tt, λ h. eq_refl s)
  equals_self_iff (array xs) = equal_items_iff xs
  equals_self_iff (object ms) = equal_members_iff ms

  equal_items_iff : (xs : Items) → (equal_items xs xs ≡ true) ↔ ItemDoubles IsOrdered xs
  equal_items_iff nil = (λ e. tt, λ h. refl)
  equal_items_iff (cons x xs) = (
    λ e.
        let split = both (equals x x) (equal_items xs xs) e in
        ((equals_self_iff x).0 split.0, (equal_items_iff xs).0 split.1),
    λ h. together _ _ ((equals_self_iff x).1 h.0) ((equal_items_iff xs).1 h.1),
  )

  equal_members_iff : (ms : Members) → (equal_members ms ms ≡ true) ↔ MemberDoubles IsOrdered ms
  equal_members_iff end = (λ e. tt, λ h. refl)
  equal_members_iff (member k v ms) = (
    λ e.
        let rest = both (k == k) (equals v v && equal_members ms ms) e in
        let split = both (equals v v) (equal_members ms ms) rest.1 in
        ((equals_self_iff v).0 split.0, (equal_members_iff ms).0 split.1),
    λ h.
        together _ _ (eq_refl k)
          (together _ _ ((equals_self_iff v).1 h.0) ((equal_members_iff ms).1 h.1)),
  )
