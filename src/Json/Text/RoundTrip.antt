-- ===== src/Json/Text/RoundTrip.antt =====
-- `from_generic` of the value that a `Json` is written as.
use Prim.Native.Nat.{Ordering}
use Prim.Native.String.{compare}
use forgeant.Prelude.{
  ◌*◌, ◌<◌, ◌^◌, String, ◌≡◌, refl, sym, ◌∙◌, ap, Bool, true, false, if◌then◌else◌, arith,
}
use forgeant.Prelude.Int.{ℤ, pos, negsuc, pos_part, neg_part}
use forgeant.Double
use forgeant.Double.{Double, is_finite, of_integer, truncate}
use forgeant.Double.Rounding.{round_small}
use forgeant.Outcome.{ok}
use forgeant.Platform.{Platform, ReadResult}
use forgeant.Json.{
  Json, null, boolean, integer, number, string, array, object, Items, nil, cons, Members, end,
  member, emplace,
}
use forgeant.Json.Ascending.{Behind, Ascending, Before, snoc, emplace-Before}
use forgeant.Json.Text.{
  from_double, from_generic, from_generic_items, from_generic_members, parse, dump,
}
use forgeant.Json.Text.Numbers.{IsExactly, InRange, from_double_iff}
use forgeant.Json.Text.Sorted.{IsSorted, AllSorted, MembersSorted}
use forgeant.Json.Text.Grammar.{Spells}
use forgeant.Json.Text.Writing.{generic_of, generic_items, generic_members, IsFinite, dump-Spells}

-- The numbers that survive: integers of less than 54 bits, and finite doubles that are no integer in
-- the range of `from_double`.
abbrev pub SurvivesInteger : ℤ → Type 0
SurvivesInteger n = (pos_part n < 2 ^ 53) × (neg_part n < 2 ^ 53)

abbrev pub SurvivesDouble : Double → Type 0
SurvivesDouble d = (n : ℤ) → IsExactly d n → InRange n → ⊥

abbrev mutual
  pub Survives : Json → Type 0
  Survives null = Unit
  Survives (boolean b) = Unit
  Survives (integer n) = SurvivesInteger n
  Survives (number d) = SurvivesDouble d
  Survives (string s) = Unit
  Survives (array xs) = AllSurvive xs
  Survives (object ms) = MembersSurvive ms

  pub AllSurvive : Items → Type 0
  AllSurvive nil = Unit
  AllSurvive (cons x xs) = Survives x × AllSurvive xs

  pub MembersSurvive : Members → Type 0
  MembersSurvive end = Unit
  MembersSurvive (member k v ms) = Survives v × MembersSurvive ms

from_double-of_integer : (n : ℤ) → SurvivesInteger n → from_double (of_integer n) ≡ integer n
unfolding of_integer
from_double-of_integer (pos k) h =
    (from_double_iff (of_integer (pos k)) (pos k)).1
      ((refl, ap (λ m. m * Double.one) (round_small k h.0)), (omega arith, omega arith))
from_double-of_integer (negsuc k) h =
    (from_double_iff (of_integer (negsuc k)) (negsuc k)).1
      ((refl, ap (λ m. m * Double.one) (round_small _ h.1)), (omega arith, omega arith))

-- A double that is no integer stays what it is, whichever test it fails.
either :
    (b : Bool) (n : ℤ) (d : Double)
    → ((if b then integer n else number d) ≡ integer n → ⊥)
    → (if b then integer n else number d) ≡ number d
either true n d h = absurd (h refl)
either false n d h = refl

from_double-number : (d : Double) → SurvivesDouble d → from_double d ≡ number d
unfolding from_double
from_double-number d h = either _ (truncate d) d (λ e. survives (truncate d) e)
  where
    survives : (n : ℤ) → from_double d ≡ integer n → ⊥
    survives n e = let exact = (from_double_iff d n).0 e in h n exact.0 exact.1

-- Every key of `ms` is behind all of `obj`.
abbrev AllBefore : Members → Members → Type 0
AllBefore obj end = Unit
AllBefore obj (member k v ms) = Before k obj × AllBefore obj ms

abbrev append : Members → Members → Members
append obj end = obj
append obj (member k v ms) = append (snoc obj k v) ms

Before-snoc :
    (j k : String) (v : Json) (obj : Members)
    → Before j obj
    → compare k j ≡ Ordering.lt
    → Before j (snoc obj k v)
Before-snoc j k v end h lt = (lt, tt)
Before-snoc j k v (member i w ms) h lt = (h.0, Before-snoc j k v ms h.1 lt)

AllBefore-snoc :
    (k : String) (v : Json) (ms obj : Members)
    → Behind k ms
    → AllBefore obj ms
    → AllBefore (snoc obj k v) ms
AllBefore-snoc k v end obj b h = tt
AllBefore-snoc k v (member j w ms) obj b h =
    (Before-snoc j k v obj h.0 b.0, AllBefore-snoc k v ms obj b.1 h.1)

AllBefore-end : (ms : Members) → AllBefore end ms
AllBefore-end end = tt
AllBefore-end (member k v ms) = (tt, AllBefore-end ms)

join : Members → Members → Members
join end ms = ms
join (member k v rest) ms = member k v (join rest ms)

join-snoc :
    (obj : Members) (k : String) (v : Json) (ms : Members)
    → join (snoc obj k v) ms ≡ join obj (member k v ms)
unfolding join
join-snoc end k v ms = refl
join-snoc (member j w obj) k v ms = ap (member j w) (join-snoc obj k v ms)

join-end : (obj : Members) → join obj end ≡ obj
unfolding join
join-end end = refl
join-end (member k v obj) = ap (member k v) (join-end obj)

append-join : (obj ms : Members) → append obj ms ≡ join obj ms
append-join obj end = sym (join-end obj)
append-join obj (member k v ms) = append-join (snoc obj k v) ms ∙ join-snoc obj k v ms

join_end_left : (ms : Members) → join end ms ≡ ms
unfolding join
join_end_left ms = refl

mutual
  unfolding from_generic

  from_generic-generic_of : (j : Json) → IsSorted j → Survives j → from_generic (generic_of j) ≡ j
  from_generic-generic_of null o h = refl
  from_generic-generic_of (boolean b) o h = refl
  from_generic-generic_of (integer n) o h = from_double-of_integer n h
  from_generic-generic_of (number d) o h = from_double-number d h
  from_generic-generic_of (string s) o h = refl
  from_generic-generic_of (array xs) o h = ap array (from_generic_items-generic_items xs o h)
  from_generic-generic_of (object ms) o h = ap object (
      from_generic_members-generic_members ms end o.0 o.1 h (AllBefore-end ms)
      ∙ append-join end ms
      ∙ join_end_left ms)

  from_generic_items-generic_items :
      (xs : Items) → AllSorted xs → AllSurvive xs → from_generic_items (generic_items xs) ≡ xs
  from_generic_items-generic_items nil o h = refl
  from_generic_items-generic_items (cons x xs) o h =
      ap (λ y. cons y (from_generic_items (generic_items xs))) (from_generic-generic_of x o.0 h.0)
      ∙ ap (cons x) (from_generic_items-generic_items xs o.1 h.1)

  from_generic_members-generic_members :
      (ms obj : Members)
      → Ascending ms
      → MembersSorted ms
      → MembersSurvive ms
      → AllBefore obj ms
      → from_generic_members (generic_members ms) obj ≡ append obj ms
  from_generic_members-generic_members end obj up o h b = refl
  from_generic_members-generic_members (member k v ms) obj up o h b =
      ap (λ w. from_generic_members (generic_members ms) (emplace k w obj))
        (from_generic-generic_of v o.0 h.0)
      ∙ ap (from_generic_members (generic_members ms)) (emplace-Before k v obj b.0)
      ∙ from_generic_members-generic_members ms (snoc obj k v) up.1 o.1 h.1
          (AllBefore-snoc k v ms obj up.0 b.1)

-- Where `std::to_chars` writes a numeral for each finite double, and the reader reads every text of the
-- RFC 8259 grammar that stands for the value of a `Json` as that value, `parse` gives the `Json` back
-- from what `dump` writes, if its objects have ascending keys and its numbers are integers of less than
-- 54 bits or finite doubles that are no integer in range.
pub parse-dump :
    (p : Platform) (Numeral : Double → String → Type 0)
    → ((d : Double) → is_finite d ≡ true → Numeral d (p.double_chars d))
    → (j : Json) → IsSorted j
    → Survives j
    → IsFinite j
    → ((t : String)
        → Spells Numeral (generic_of j) t
        → p.read_json t ≡ ReadResult.value (generic_of j))
    → parse p (dump p j) ≡ ok j
unfolding parse
parse-dump p Numeral chars j o h finite reads =
    rw (reads (dump p j) (dump-Spells p Numeral chars j finite))
      (ap ok (from_generic-generic_of j o h))
