-- ===== src/Schema/Conforms.antt =====
-- What a JSON schema asks of a value, for the keywords that the builder writes: `type`,
-- `properties`, `required`, `enum` and `items`. Other keywords ask nothing.
use forgeant.Prelude.{
  String, ◌≡◌, ◌⊎◌, true, Option, none, some, List, [], ◌∷◌, ◌==◌, if◌then◌else◌, All,
}
use forgeant.Json.{
  Json, integer, string, array, object, elements, Members, end, member, find, contains, is_string,
  is_object, is_array, is_boolean, is_number,
}

abbrev pub IsInteger : Json → Type 0
IsInteger (integer n) = Unit
IsInteger _ = ⊥

-- `type`. An `integer` is one that `std::int64_t` holds.
abbrev pub HasType : String → Json → Type 0
HasType type j =
    if type == "string"
    then is_string j ≡ true
    else if type == "integer"
    then IsInteger j
    else if type == "number"
    then is_number j ≡ true
    else if type == "boolean"
    then is_boolean j ≡ true
    else if type == "object"
    then is_object j ≡ true
    else if type == "array"
    then is_array j ≡ true
    else Unit

-- `required`, of an object
abbrev pub HasKey : Json → Json → Type 0
HasKey (object ms) (string name) = contains name (object ms) ≡ true
HasKey _ _ = Unit

abbrev pub Optional : (Json → Type 0) → Option Json → Type 0
Optional P none = Unit
Optional P (some v) = P v

abbrev pub At : String → (Json → Type 0) → Json → Type 0
At name P (object ms) = Optional P (find name ms)
At name P _ = Unit

abbrev pub Each : (Json → Type 0) → Json → Type 0
Each P (array xs) = All P (elements xs)
Each P _ = Unit

-- `enum`
abbrev pub OneOf : Json → List Json → Type 0
OneOf j [] = ⊥
OneOf j (x ∷ xs) = (j ≡ x) ⊎ OneOf j xs

abbrev mutual
  -- A schema, and a value that it accepts.
  pub Accepts : Json → Json → Type 0
  Accepts (object keywords) j = Keywords keywords j
  Accepts _ j = Unit

  pub Keywords : Members → Json → Type 0
  Keywords end j = Unit
  Keywords (member k v ms) j = Keyword k v j × Keywords ms j

  pub Keyword : String → Json → Json → Type 0
  Keyword k (object ms) j =
      if k == "properties"
      then Properties ms j
      else if k == "items"
      then Each (λ v. Keywords ms v) j
      else Unit
  Keyword k (string s) j = if k == "type" then HasType s j else Unit
  Keyword k (array xs) j =
      if k == "required"
      then All (HasKey j) (elements xs)
      else if k == "enum"
      then OneOf j (elements xs)
      else Unit
  Keyword k _ j = Unit

  pub Properties : Members → Json → Type 0
  Properties end j = Unit
  Properties (member name schema ms) j = At name (λ v. Accepts schema v) j × Properties ms j
