-- ===== src/Json/Text/Sorted.antt =====
-- What a parsed `Json` is like: every object in it, at any depth, has its keys strictly ascending.
use mathlib.Core.Path.{subst}
use forgeant.Prelude.Int.{ℤ}
use forgeant.Prelude.{Bool, is_some, String, ◌≡◌, true, false, Bool-cases, inl, inr, if◌then◌else◌}
use forgeant.Double.{Double}
use forgeant.Outcome.{ok}
use forgeant.Platform.{Platform, Generic, GenericItems, GenericMembers, ReadResult}
use forgeant.Json.{
  Json, null, boolean, integer, number, string, array, object, Items, nil, cons, Members, end,
  member, insert, find, emplace,
}
use forgeant.Json.Ascending.{Ascending, emplace-Ascending, place, here, ahead, behind}
use forgeant.Json.Text.{
  from_double, from_generic, from_generic_items, from_generic_members, of_read, parse,
}

abbrev mutual
  pub IsSorted : Json → Type 0
  IsSorted null = Unit
  IsSorted (boolean b) = Unit
  IsSorted (integer n) = Unit
  IsSorted (number d) = Unit
  IsSorted (string s) = Unit
  IsSorted (array xs) = AllSorted xs
  IsSorted (object ms) = Ascending ms × MembersSorted ms

  pub AllSorted : Items → Type 0
  AllSorted nil = Unit
  AllSorted (cons x xs) = IsSorted x × AllSorted xs

  pub MembersSorted : Members → Type 0
  MembersSorted end = Unit
  MembersSorted (member k v ms) = IsSorted v × MembersSorted ms

insert-MembersSorted :
    (k : String) (v : Json) (ms : Members)
    → IsSorted v
    → MembersSorted ms
    → MembersSorted (insert k v ms)
unfolding insert
insert-MembersSorted k v end s h = (s, tt)
insert-MembersSorted k v (member j w ms) s h = elim (place k j) [
  | here eq _ ↦ rw eq (s, h.1)
  | ahead eq b _ ↦ rw (eq, b) (s, h)
  | behind eq b _ ↦ rw (eq, b) (h.0, insert-MembersSorted k v ms s h.1)
]

emplace-MembersSorted :
    (k : String) (v : Json) (ms : Members)
    → IsSorted v
    → MembersSorted ms
    → MembersSorted (emplace k v ms)
unfolding emplace
emplace-MembersSorted k v ms s h = elim (Bool-cases (is_some (find k ms))) [
  | inl e ↦ rw e h
  | inr e ↦ rw e (insert-MembersSorted k v ms s h)
]

either-IsSorted : (b : Bool) (n : ℤ) (d : Double) → IsSorted (if b then integer n else number d)
either-IsSorted true n d = tt
either-IsSorted false n d = tt

from_double-IsSorted : (d : Double) → IsSorted (from_double d)
unfolding from_double
from_double-IsSorted d = either-IsSorted _ _ d

mutual
  unfolding from_generic

  pub from_generic-IsSorted : (g : Generic) → IsSorted (from_generic g)
  from_generic-IsSorted Generic.null = tt
  from_generic-IsSorted (Generic.boolean b) = tt
  from_generic-IsSorted (Generic.number d) = from_double-IsSorted d
  from_generic-IsSorted (Generic.string s) = tt
  from_generic-IsSorted (Generic.array xs) = from_generic_items-AllSorted xs
  from_generic-IsSorted (Generic.object ms) = from_generic_members-Sorted ms end tt tt

  from_generic_items-AllSorted : (xs : GenericItems) → AllSorted (from_generic_items xs)
  from_generic_items-AllSorted GenericItems.nil = tt
  from_generic_items-AllSorted (GenericItems.cons x xs) =
      (from_generic-IsSorted x, from_generic_items-AllSorted xs)

  from_generic_members-Sorted :
      (ms : GenericMembers) (obj : Members)
      → Ascending obj
      → MembersSorted obj
      → Ascending (from_generic_members ms obj) × MembersSorted (from_generic_members ms obj)
  from_generic_members-Sorted GenericMembers.end obj up all = (up, all)
  from_generic_members-Sorted (GenericMembers.member k x ms) obj up all =
      from_generic_members-Sorted ms (emplace k (from_generic x) obj)
        (emplace-Ascending k (from_generic x) obj up)
        (emplace-MembersSorted k (from_generic x) obj (from_generic-IsSorted x) all)

-- Whatever the reader gives, every object of a parsed `Json`, at any depth, has its keys strictly
-- ascending, so that each stands once.
pub parse-IsSorted : (p : Platform) (text : String) (j : Json) → parse p text ≡ ok j → IsSorted j
unfolding parse
parse-IsSorted p text j e = go (p.read_json text) e
  where
    ok_injective : (i j : Json) → ok i ≡ ok j → i ≡ j
    ok_injective i j d = cc

    go : (r : ReadResult) → of_read r ≡ ok j → IsSorted j
    go (ReadResult.value g) d =
        subst IsSorted (ok_injective (from_generic g) j d) (from_generic-IsSorted g)
    go (ReadResult.error x) d = cc
