-- ===== src/Json/Lookup.antt =====
-- Laws of the map of an object: lookups after insertions, and lists with their items.
use forgeant.Prelude.{
  String, ◌≡◌, refl, ap, none, some, List, [], ◌∷◌, ◌++◌, ◌==◌, eq_iff, arith, if◌then◌else◌,
  is_some,
}
use forgeant.Json.{
  Json, cons, elements, items, append_item, Members, end, member, find, insert, emplace,
}

pub find-insert :
    (k j : String) (v : Json) (ms : Members)
    → find j (insert k v ms) ≡ (if k == j then some v else find j ms)
unfolding find insert
find-insert k j v end = ground (arith, eq_iff k j, eq_iff j k)
find-insert k j v (member i w ms) =
    ground (arith, eq_iff k j, eq_iff j k, eq_iff k i, eq_iff j i, find-insert k j v ms)

pub insert-insert :
    (k : String) (v w : Json) (ms : Members) → insert k v (insert k w ms) ≡ insert k v ms
unfolding insert
insert-insert k v w end = ground (arith, eq_iff k k)
insert-insert k v w (member i u ms) = ground (arith, eq_iff k k, eq_iff k i, insert-insert k v w ms)

-- An old value wins over a new one.
pub find-emplace :
    (k j : String) (v : Json) (ms : Members)
    → find j (emplace k v ms)
      ≡ (if is_some (find j ms) then find j ms else if k == j then some v else none)
unfolding emplace
find-emplace k j v ms = ground (arith, find-insert k j v ms, eq_iff k j)

pub elements-items : (xs : List Json) → elements (items xs) ≡ xs
elements-items [] = refl
elements-items (x ∷ xs) = ap (λ ys. x ∷ ys) (elements-items xs)

pub append_item-items :
    (xs : List Json) (v : Json) → append_item (items xs) v ≡ items (xs ++ v ∷ [])
unfolding append_item
append_item-items [] v = refl
append_item-items (x ∷ xs) v = ap (cons x) (append_item-items xs v)
