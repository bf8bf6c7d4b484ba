-- ===== src/Json/Update.antt =====
-- include/forgeant/json/json.hpp: the operations that write to a `Json`, as actions on it.
pub mod Laws
pub mod Preserves
use forgeant.Prelude.{ℕ, zero, suc, String, Option, none, some, value_or, List, [], ◌∷◌}
use forgeant.Outcome.{Outcome, ok, throw, bad_variant_access}
use forgeant.Action.{Action, pure, ◌>>◌}
use forgeant.Json.{
  Json, null, array, object, Items, nil, cons, append_item, Members, end, find, insert,
}

-- `j = v`
abbrev pub set : Json → Action Json Unit
set v j = (ok tt, v)

abbrev place : String → Members → Outcome (Unit {0}) × Json → Outcome (Unit {0}) × Json
place key ms (r, v) = (r, object (insert key v ms))

-- What `act` does to `j[key]`: a null `j` becomes an object, a missing key gets a null value.
unfoldable pub on_key : String → Action Json Unit → Action Json Unit
unfolding find insert
on_key key act null = place key end (act null)
on_key key act (object ms) = place key ms (act (value_or (find key ms) null))
on_key key act j = (throw bad_variant_access, j)

-- `j[key] = v`
abbrev pub assign : String → Json → Action Json Unit
assign key v = on_key key (set v)

-- `j.push_back(v)`
unfoldable pub push_back : Json → Action Json Unit
unfolding append_item
push_back v null = (ok tt, array (append_item nil v))
push_back v (array xs) = (ok tt, array (append_item xs v))
push_back v j = (throw bad_variant_access, j)

-- `for (const auto& x : xs) { body(x); }`
unfoldable pub for_each : {A S : Type 0} → List A → (A → Action S Unit) → Action S Unit
for_each [] body = pure tt
for_each (x ∷ xs) body = do body x; for_each xs body

-- What `act` does to `x`, in front of the elements behind it.
abbrev put_first : Items → Outcome (Unit {0}) × Json → Outcome (Unit {0}) × Items
put_first xs (r, x) = (r, cons x xs)

abbrev put_behind : Json → Option (Outcome (Unit {0}) × Items) → Option (Outcome (Unit {0}) × Items)
put_behind x none = none
put_behind x (some (r, xs)) = some (r, cons x xs)

on_nth : ℕ → Action Json Unit → Items → Option (Outcome (Unit {0}) × Items)
on_nth n act nil = none
on_nth zero act (cons x xs) = some (put_first xs (act x))
on_nth (suc n) act (cons x xs) = put_behind x (on_nth n act xs)

abbrev put_items : Option (Outcome (Unit {0}) × Items) → Option (Outcome (Unit {0}) × Json)
put_items none = none
put_items (some (r, xs)) = some (r, array xs)

-- What `act` does to `j[n]`; `none` where there is no such element, which is undefined in C++.
unfoldable pub on_index : ℕ → Action Json Unit → Json → Option (Outcome (Unit {0}) × Json)
unfolding on_nth
on_index n act (array xs) = put_items (on_nth n act xs)
on_index n act j = some (throw bad_variant_access, j)

-- `j[n]` of a `const Json`, in the same way.
unfoldable pub at_index : ℕ → Json → Option (Outcome Json)
at_index n (array xs) = nth n xs
  where
    nth : ℕ → Items → Option (Outcome Json)
    nth n nil = none
    nth zero (cons x xs) = some (ok x)
    nth (suc n) (cons x xs) = nth n xs
at_index n j = some (throw bad_variant_access)
