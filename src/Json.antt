-- ===== src/Json.antt =====
-- include/forgeant/json/json.hpp: the value type `Json` and its operations. `std::vector<Json>` and
-- `std::map<std::string, Json>` are `Items` and `Members`; a map is kept in the order of its keys.
pub mod Text
pub mod Update
pub mod Lookup
pub mod Equality
pub mod Ascending
use Prim.Native.Nat.{Ordering}
use Prim.Native.String.{compare}
use forgeant.Prelude.{
  ℕ, suc, String, ◌<>◌, Bool, true, false, Option, none, some, List, [], ◌∷◌, ◌==◌, if◌then◌else◌,
  is_some,
}
use forgeant.Prelude.Int.{ℤ, wrap_int}
use forgeant.Double
use forgeant.Double.{Double}
use forgeant.Outcome.{Outcome, ok, throw, out_of_range, bad_variant_access, missing_key, ◌>>=◌}

mutual
  pub data Json : Type 0 where
    null : Json
    boolean : Bool → Json
    integer : ℤ → Json
    number : Double → Json
    string : String → Json
    array : Items → Json
    object : Members → Json

  pub data Items : Type 0 where
    nil : Items
    cons : Json → Items → Items

  pub data Members : Type 0 where
    end : Members
    member : String → Json → Members → Members

-- `std::vector`: the elements in order, `push_back`, `empty`, `size`.
abbrev pub elements : Items → List Json
elements nil = []
elements (cons x xs) = x ∷ elements xs

abbrev pub items : List Json → Items
items [] = nil
items (x ∷ xs) = cons x (items xs)

unfoldable pub append_item : Items → Json → Items
append_item nil v = cons v nil
append_item (cons x xs) v = cons x (append_item xs v)

abbrev pub count_items : Items → ℕ
count_items nil = 0
count_items (cons x xs) = suc (count_items xs)

abbrev pub count_members : Members → ℕ
count_members end = 0
count_members (member k v ms) = suc (count_members ms)

-- `std::map`: `find`, assignment through `operator[]`, and `emplace`, which keeps an old value.
unfoldable pub find : String → Members → Option Json
find k end = none
find k (member j v ms) = if k == j then some v else find k ms

abbrev pub is_before : String → String → Bool
is_before a b = elim (compare a b) [ Ordering.lt ↦ true | _ ↦ false ]

unfoldable pub insert : String → Json → Members → Members
insert k v end = member k v end
insert k v (member j w ms) =
    if k == j
    then member k v ms
    else if is_before k j
    then member k v (member j w ms)
    else member j w (insert k v ms)

unfoldable pub emplace : String → Json → Members → Members
unfolding find insert
emplace k v ms = if is_some (find k ms) then ms else insert k v ms

-- `Json::object(std::initializer_list)`
unfoldable pub emplace_all : List (String × Json) → Members → Members
unfolding emplace
emplace_all [] ms = ms
emplace_all ((k, v) ∷ rest) ms = emplace_all rest (emplace k v ms)

unfoldable pub object_of : List (String × Json) → Json
unfolding emplace_all
object_of init = object (emplace_all init end)

-- `Json::array()`, `Json::array(std::initializer_list)`, `Json::object()`
abbrev pub empty_array : Json
empty_array = array nil

unfoldable pub array_of : List Json → Json
array_of init = array (items init)

abbrev pub empty_object : Json
empty_object = object end

abbrev pub is_null : Json → Bool
is_null null = true
is_null _ = false

abbrev pub is_string : Json → Bool
is_string (string s) = true
is_string _ = false

abbrev pub is_object : Json → Bool
is_object (object ms) = true
is_object _ = false

abbrev pub is_array : Json → Bool
is_array (array xs) = true
is_array _ = false

abbrev pub is_boolean : Json → Bool
is_boolean (boolean b) = true
is_boolean _ = false

abbrev pub is_number : Json → Bool
is_number (integer n) = true
is_number (number d) = true
is_number _ = false

-- `std::get<T>(value_)` at each alternative
abbrev pub get_string : Json → Outcome String
get_string (string s) = ok s
get_string _ = throw bad_variant_access

abbrev pub get_boolean : Json → Outcome Bool
get_boolean (boolean b) = ok b
get_boolean _ = throw bad_variant_access

abbrev pub get_integer : Json → Outcome ℤ
get_integer (integer n) = ok n
get_integer _ = throw bad_variant_access

-- `get<int>()`: the 64-bit integer cut to 32 bits
abbrev pub get_int : Json → Outcome ℤ
get_int (integer n) = ok (wrap_int n)
get_int _ = throw bad_variant_access

abbrev pub get_double : Json → Outcome Double
get_double (integer n) = ok (Double.of_integer n)
get_double (number d) = ok d
get_double _ = throw bad_variant_access

abbrev pub get_json : Json → Outcome Json
get_json j = ok j

abbrev pub get_items : Json → Outcome Items
get_items (array xs) = ok xs
get_items _ = throw bad_variant_access

abbrev pub get_members : Json → Outcome Members
get_members (object ms) = ok ms
get_members _ = throw bad_variant_access

-- `get<std::vector<T>>()`, with `get<T>` as an argument
unfoldable pub get_each : {A : Type 0} → (Json → Outcome A) → List Json → Outcome (List A)
get_each get [] = ok []
get_each get (x ∷ xs) = do a ← get x; rest ← get_each get xs; ok (a ∷ rest)

unfoldable pub get_vector : {A : Type 0} → (Json → Outcome A) → Json → Outcome (List A)
unfolding get_each
get_vector get j = do xs ← get_items j; get_each get (elements xs)

abbrev pub or_throw : String → Option Json → Outcome Json
or_throw key none = throw (out_of_range ("Json::at: key not found: " <> key))
or_throw key (some v) = ok v

-- `at(key)`
unfoldable pub at : String → Json → Outcome Json
unfolding find
at key (object ms) = or_throw key (find key ms)
at key _ = throw (out_of_range "Json::at: not an object")

abbrev or_missing : Option Json → Outcome Json
or_missing none = throw missing_key
or_missing (some v) = ok v

-- `operator[](key) const`
unfoldable pub index : String → Json → Outcome Json
unfolding find
index key j = do ms ← get_members j; or_missing (find key ms)

abbrev value_at : {A : Type 0} → (Json → Outcome A) → Option Json → A → Outcome A
value_at get none d = ok d
value_at get (some v) d = get v

-- `value(key, default_value)`, with `get<T>` as an argument
unfoldable pub value : {A : Type 0} → (Json → Outcome A) → String → A → Json → Outcome A
unfolding find
value get key d (object ms) = value_at get (find key ms) d
value get key d _ = ok d

unfoldable pub contains : String → Json → Bool
unfolding find
contains key (object ms) = is_some (find key ms)
contains key _ = false

abbrev pub is_empty : Json → Bool
is_empty (array nil) = true
is_empty (array (cons x xs)) = false
is_empty (object end) = true
is_empty (object (member k v ms)) = false
is_empty null = true
is_empty _ = false

abbrev pub size : Json → ℕ
size (array xs) = count_items xs
size (object ms) = count_members ms
size _ = 0
