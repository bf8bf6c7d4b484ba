-- ===== src/Json/Text/Reading.antt =====
-- `parse` against a relation between what the reader gives and the `Json` that it is turned into.
use mathlib.Core.Path.{subst}
use forgeant.Prelude.{
  String, ◌<>◌, ◌≡◌, refl, sym, Bool, true, false, Option, none, some, is_some, ◌==◌, if◌then◌else◌,
}
use forgeant.Prelude.Int.{ℤ}
use forgeant.Double.{Double, truncate}
use forgeant.Outcome.{Outcome, ok, throw, runtime_error}
use forgeant.Platform.{Platform, Generic, GenericItems, GenericMembers, ReadResult}
use forgeant.Json.{Json, Items, nil, cons, Members, end, find, emplace}
use forgeant.Json.Ascending.{Ascending}
use forgeant.Json.Lookup.{find-emplace}
use forgeant.Json.Text.{from_double, from_generic, from_generic_items, from_generic_members}
use forgeant.Json.Text.Numbers.{IsExactly, InRange, from_double_iff}
use forgeant.Json.Text.Sorted.{from_generic-IsSorted}

-- The first member with this name in the order of the text.
abbrev pub first_member : String → GenericMembers → Option Generic
first_member k GenericMembers.end = none
first_member k (GenericMembers.member j g ms) = if j == k then some g else first_member k ms

-- What a value of the reader is turned into.
mutual
  pub data Reads : Generic → Json → Type 0 where
    null : Reads Generic.null Json.null
    boolean : {b : Bool} → Reads (Generic.boolean b) (Json.boolean b)
    integer :
        {d : Double} {n : ℤ} → IsExactly d n → InRange n → Reads (Generic.number d) (Json.integer n)
    number :
        {d : Double}
        → ((n : ℤ) → IsExactly d n → InRange n → ⊥)
        → Reads (Generic.number d) (Json.number d)
    string : {s : String} → Reads (Generic.string s) (Json.string s)
    array :
        {gs : GenericItems} {xs : Items}
        → ReadsItems gs xs
        → Reads (Generic.array gs) (Json.array xs)
    object :
        {gs : GenericMembers} {ms : Members}
        → Ascending ms
        → ((k : String) → ReadsMember (first_member k gs) (find k ms))
        → Reads (Generic.object gs) (Json.object ms)

  pub data ReadsItems : GenericItems → Items → Type 0 where
    no_item : ReadsItems GenericItems.nil nil
    item :
        {g : Generic} {gs : GenericItems} {x : Json} {xs : Items}
        → Reads g x
        → ReadsItems gs xs
        → ReadsItems (GenericItems.cons g gs) (cons x xs)

  pub data ReadsMember : Option Generic → Option Json → Type 0 where
    missing : ReadsMember none none
    found : {g : Generic} {v : Json} → Reads g v → ReadsMember (some g) (some v)

pub data ParseEnds : ReadResult → Outcome Json → Type 0 where
  taken : {g : Generic} {j : Json} → Reads g j → ParseEnds (ReadResult.value g) (ok j)
  refused :
      {x : String} → ParseEnds (ReadResult.error x) (throw (runtime_error ("Json::parse: " <> x)))

-- A key keeps the value that it has in `obj`, and else takes the first member with its name.
abbrev ReadsBehind : Option Json → Option Generic → Option Json → Type 0
ReadsBehind (some v) o r = r ≡ some v
ReadsBehind none o r = ReadsMember o r

behind :
    (o r : Option Json) (b : Bool) (g : Generic) (v : Json) (rest : Option Generic)
    → Reads g v
    → ReadsBehind (if is_some o then o else if b then some v else none) rest r
    → ReadsBehind o (if b then some g else rest) r
behind (some w) r b g v rest reads h = h
behind none r true g v rest reads h = subst (ReadsMember (some g)) (sym h) (found reads)
behind none r false g v rest reads h = h

-- Where the test fails, the double is no integer in range.
either :
    (b : Bool) (n : ℤ) (d : Double)
    → ((m : ℤ)
        → ((if b then Json.integer n else Json.number d) ≡ Json.integer m)
        → IsExactly d m × InRange m)
    → ((m : ℤ)
        → IsExactly d m
        → InRange m
        → (if b then Json.integer n else Json.number d) ≡ Json.integer m)
    → Reads (Generic.number d) (if b then Json.integer n else Json.number d)
either true n d to from = let e = to n refl in integer e.0 e.1
either false n d to from =
    number (λ m e r. (let h = from m e r in let c : Json.number d ≡ Json.integer m = h in cc))

from_double-Reads : (d : Double) → Reads (Generic.number d) (from_double d)
unfolding from_double
from_double-Reads d =
    either _ (truncate d) d (λ m h. (from_double_iff d m).0 h)
      (λ m e r. (from_double_iff d m).1 (e, r))

no_more : (o : Option Json) → ReadsBehind o none o
no_more (some v) = refl
no_more none = missing

mutual
  unfolding from_generic

  from_generic-Reads : (g : Generic) → Reads g (from_generic g)
  from_generic-Reads Generic.null = null
  from_generic-Reads (Generic.boolean b) = boolean
  from_generic-Reads (Generic.number d) = from_double-Reads d
  from_generic-Reads (Generic.string s) = string
  from_generic-Reads (Generic.array gs) = array (from_generic_items-Reads gs)
  from_generic-Reads (Generic.object gs) =
      object (from_generic-IsSorted (Generic.object gs)).0
        (λ k. from_generic_members-Reads gs end k)

  from_generic_items-Reads : (gs : GenericItems) → ReadsItems gs (from_generic_items gs)
  from_generic_items-Reads GenericItems.nil = no_item
  from_generic_items-Reads (GenericItems.cons g gs) =
      item (from_generic-Reads g) (from_generic_items-Reads gs)

  from_generic_members-Reads :
      (gs : GenericMembers) (obj : Members) (k : String)
      → ReadsBehind (find k obj) (first_member k gs) (find k (from_generic_members gs obj))
  from_generic_members-Reads GenericMembers.end obj k = no_more (find k obj)
  from_generic_members-Reads (GenericMembers.member j g gs) obj k =
      behind (find k obj) _ (j == k) g (from_generic g) (first_member k gs) (from_generic-Reads g) (
        subst
          (λ o.
            ReadsBehind o (first_member k gs)
              (find k (from_generic_members gs (emplace j (from_generic g) obj))))
          (find-emplace j k (from_generic g) obj)
          (from_generic_members-Reads gs (emplace j (from_generic g) obj) k))
