-- ===== src/Provider/Wire/Closing.antt =====
-- When the schema of a request is refused.
use forgeant.Prelude.{
  ◌≡◌, refl, Bool, true, false, not, Option, none, some, inl, inr, Bool-cases, ◌==◌, if◌then◌else◌,
}
use forgeant.Outcome.{Outcome, ok, throw, bad_variant_access}
use forgeant.Json.{Json, boolean, string, object, Members, find, insert, is_string}
use forgeant.Json.Update.{on_key}
use forgeant.Provider.Wire.{close_schema}

-- `type` is there and is no text.
abbrev bad_type : Option Json → Bool
bad_type none = false
bad_type (some type) = not (is_string type)

abbrev pub is_untyped : Json → Bool
is_untyped (object ms) = bad_type (find "type" ms)
is_untyped _ = false

-- What `close_schema` gives, in one of two ways.
pub data Closing (schema : Json) : Type 0 where
  refused :
      is_untyped schema ≡ true → close_schema schema ≡ throw bad_variant_access → Closing schema
  closed :
      (closed : Json) → is_untyped schema ≡ false → close_schema schema ≡ ok closed → Closing schema

close_object : (ms : Members) (type : Option Json) → find "type" ms ≡ type → Closing (object ms)
unfolding close_schema on_key
close_object ms none h = closed (object ms) (rw h refl) (rw h refl)
close_object ms (some (string s)) h = elim (Bool-cases (s == "object")) [
  | inl e ↦
      closed (object (insert "additionalProperties" (boolean false) ms)) (rw h refl)
        (rw h (rw e refl))
  | inr e ↦ closed (object ms) (rw h refl) (rw h (rw e refl))
]
close_object ms (some _) h = refused (rw h refl) (rw h refl)

pub close_schema-Closing : (schema : Json) → Closing schema
unfolding close_schema
close_schema-Closing (object ms) = close_object ms (find "type" ms) refl
close_schema-Closing schema = closed schema refl refl

-- Whether a request has a schema that is refused, and what becomes of its serialization.
abbrev pub is_refused : Option Json → Bool
is_refused none = false
is_refused (some schema) = is_untyped schema

abbrev pub outcome_of : Option Json → Outcome (Unit {0})
outcome_of schema = if is_refused schema then throw bad_variant_access else ok tt

-- What `write_schema` does to an object follows from what it does with a closed schema.
pub outcome_by :
    (schema : Json) (r : Outcome (Unit {0}))
    → (close_schema schema ≡ throw bad_variant_access → r ≡ throw bad_variant_access)
    → ((c : Json) → close_schema schema ≡ ok c → r ≡ ok tt)
    → r ≡ outcome_of (some schema)
outcome_by schema r bad good = elim (close_schema-Closing schema) [
  | refused untyped e ↦ rw untyped (bad e)
  | closed c typed e ↦ rw typed (good c e)
]
