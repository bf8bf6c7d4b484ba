-- ===== src/Json/Text.antt =====
-- src/json/json.cpp: printing a `Json` (`write_string`, `write_to`, `dump`) and reading one
-- (`from_generic`, `parse`), where glaze's reader is a parameter.
pub mod Numbers
pub mod Grammar
pub mod Strings
pub mod Writing
pub mod RoundTrip
pub mod Sorted
pub mod Reading
use forgeant.Prelude.{
  ℕ, ◌-◌, ◌/◌, ◌%◌, ◌^◌, Char, code, String, ◌<>◌, ◌≡◌, refl, Bool, true, false, ◌&&◌, eqb, ltb,
  if◌then◌else◌,
}
use forgeant.Prelude.Int.{pos}
use forgeant.Prelude.Decimal.{to_string}
use forgeant.Double.{Double, is_finite, is_whole, at_least_neg, at_most, truncate, round_53}
use forgeant.Outcome.{Outcome, ok, throw, runtime_error}
use forgeant.Platform.{Platform, Generic, GenericItems, GenericMembers, ReadResult}
use forgeant.Json.{
  Json, null, boolean, integer, number, string, array, object, Items, nil, cons, Members, end,
  member, emplace,
}

-- `%x` of a digit below 16
hex_digit : ℕ → String
hex_digit d =
    if ltb d 10
    then to_string (pos d)
    else if eqb d 10
    then "a"
    else if eqb d 11
    then "b"
    else if eqb d 12
    then "c"
    else if eqb d 13
    then "d"
    else if eqb d 14
    then "e"
    else "f"

-- `snprintf("\\u%04x", c)` of a character below 0x20
escape_code : ℕ → String
unfolding hex_digit to_string
escape_code c = "\\u00" <> (hex_digit (c / 16) <> hex_digit (c % 16))

-- One round of the loop of `write_string`.
unfoldable pub escape : Char → String
unfolding escape_code
escape c =
    if eqb (code c) b'"'
    then "\\\""
    else if eqb (code c) b'\\'
    then "\\\\"
    else if eqb (code c) 8
    then "\\b"
    else if eqb (code c) 12
    then "\\f"
    else if eqb (code c) 10
    then "\\n"
    else if eqb (code c) 13
    then "\\r"
    else if eqb (code c) 9
    then "\\t"
    else if ltb (code c) 0x20
    then escape_code (code c)
    else String.◌∷◌ c ""

write_chars : String → String → String
unfolding escape
write_chars out String.[] = out
write_chars out (String.◌∷◌ c s) = write_chars (out <> escape c) s

unfoldable pub write_string : String → String → String
unfolding write_chars
write_string out s = write_chars (out <> "\"") s <> "\""

-- `if (!first) out += ','`
abbrev separate : Bool → String → String
separate true out = out
separate false out = out <> ","

module _ (p : Platform) where
  unfoldable mutual
    unfolding write_string to_string

    -- `out` is the text that is being appended to.
    pub write_to : Json → String → String
    write_to null out = out <> "null"
    write_to (boolean b) out = out <> (if b then "true" else "false")
    write_to (integer n) out = out <> to_string n
    write_to (number d) out = out <> p.double_chars d
    write_to (string s) out = write_string out s
    write_to (array xs) out = write_items true xs (out <> "[") <> "]"
    write_to (object ms) out = write_members true ms (out <> "{") <> "}"

    pub write_items : Bool → Items → String → String
    write_items first nil out = out
    write_items first (cons x xs) out = write_items false xs (write_to x (separate first out))

    pub write_members : Bool → Members → String → String
    write_members first end out = out
    write_members first (member k v ms) out =
        write_members false ms (write_to v (write_string (separate first out) k <> ":"))

  unfoldable pub dump : Json → String
  unfolding write_to
  dump j = write_to j ""

-- The number case of `from_generic`. The bound `static_cast<double>(max())` is the double nearest to
-- 2^63 - 1. The cast is undefined in C++ where the value does not fit; `truncate` is exact.
unfoldable pub from_double : Double → Json
unfolding is_whole at_least_neg at_most truncate
from_double d =
    if is_whole d && is_finite d && at_least_neg (2 ^ 63) d && at_most (round_53 (2 ^ 63 - 1)) d
    then integer (truncate d)
    else number d

unfoldable mutual
  unfolding from_double emplace

  pub from_generic : Generic → Json
  from_generic Generic.null = null
  from_generic (Generic.boolean b) = boolean b
  from_generic (Generic.number d) = from_double d
  from_generic (Generic.string s) = string s
  from_generic (Generic.array xs) = array (from_generic_items xs)
  from_generic (Generic.object ms) = object (from_generic_members ms end)

  pub from_generic_items : GenericItems → Items
  from_generic_items GenericItems.nil = nil
  from_generic_items (GenericItems.cons x xs) = cons (from_generic x) (from_generic_items xs)

  -- `obj` is the map that is being filled.
  pub from_generic_members : GenericMembers → Members → Members
  from_generic_members GenericMembers.end obj = obj
  from_generic_members (GenericMembers.member k x ms) obj =
      from_generic_members ms (emplace k (from_generic x) obj)

abbrev pub of_read : ReadResult → Outcome Json
of_read (ReadResult.value g) = ok (from_generic g)
of_read (ReadResult.error e) = throw (runtime_error ("Json::parse: " <> e))

-- `Json::parse`
unfoldable pub parse : Platform → String → Outcome Json
unfolding from_generic
parse p input = of_read (p.read_json input)

escape_runs : write_string "" "a\"\n\\" ≡ "\"a\\\"\\n\\\\\""
unfolding write_string
escape_runs = refl
