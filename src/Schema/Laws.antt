-- ===== src/Schema/Laws.antt =====
-- What the calls of the schema builder leave in the schema.
use forgeant.Prelude.{String, ◌≡◌, refl, ◌∙◌, Option, some, List, [], ◌∷◌, map, ◌==◌, if◌then◌else◌}
use forgeant.Outcome.{ok}
use forgeant.Action.{Action, ◌>>◌}
use forgeant.Json
use forgeant.Json.{Json, string, array, object, Members, end, member, find, insert, contains}
use forgeant.Json.Lookup.{find-insert, insert-insert}
use forgeant.Json.Update.{on_key, for_each}
use forgeant.Json.Update.Laws.{for_each-on_key}
use forgeant.Schema
use forgeant.Schema.{SchemaBuilder, property, required, enum_values, description, object_schema}

-- The members after `schema_["k"] = v` for each pair in turn.
abbrev pub insert_all : List (String × Json) → Members → Members
insert_all [] ms = ms
insert_all ((name, schema) ∷ props) ms = insert_all props (insert name schema ms)

abbrev pub add_property : String × Json → Action Json Unit
add_property (name, schema) = property name schema

-- A property is added to those that are there.
property-insert :
    (name : String) (schema : Json) (ps ms : Members)
    → property name schema (object (insert "properties" (object ps) ms))
      ≡ (ok tt, object (insert "properties" (object (insert name schema ps)) ms))
unfolding property contains on_key
property-insert name schema ps ms = simp (find-insert, insert-insert)

properties-insert :
    (props : List (String × Json)) (ps ms : Members)
    → for_each props add_property (object (insert "properties" (object ps) ms))
      ≡ (ok tt, object (insert "properties" (object (insert_all props ps)) ms))
unfolding for_each
properties-insert [] ps ms = refl
properties-insert ((name, schema) ∷ props) ps ms =
    rw (property-insert name schema ps ms) (properties-insert props (insert name schema ps) ms)

-- The array takes the place of the fields of an earlier call.
required-object :
    (fields : List String) (ms : Members)
    → required fields (object ms)
      ≡ (ok tt, object (insert "required" (array (Json.items (map string fields))) ms))
unfolding required on_key
required-object fields ms = for_each-on_key string "required" fields [] ms

-- The members of a schema of an object with these properties and required fields.
abbrev pub object_members : List (String × Json) → List String → Members
object_members props fields =
    insert "required" (array (Json.items (map string fields)))
      (insert "properties" (object (insert_all props end)) (member "type" (string "object") end))

abbrev pub describe : List (String × Json) → List String → Action Json Unit
describe props fields = do for_each props add_property; required fields

-- An object schema that is built with at least one property and then `required` throws nothing and
-- has three members: `type` is "object", `properties` holds each property under its name, a later
-- one in place of an earlier one of the same name, and `required` lists the fields in their order.
pub describe-object_schema :
    (name : String) (schema : Json) (props : List (String × Json)) (fields : List String)
    → describe ((name, schema) ∷ props) fields object_schema.schema
      ≡ (ok tt, object (object_members ((name, schema) ∷ props) fields))
unfolding for_each property contains on_key Schema.builder
describe-object_schema name schema props fields =
    rw (properties-insert props (insert name schema end) (member "type" (string "object") end))
      (required-object fields _)

-- The last pair of a name, before what the members hold.
abbrev pub last_of : String → List (String × Json) → Option Json → Option Json
last_of key [] old = old
last_of key ((name, schema) ∷ props) old =
    last_of key props (if name == key then some schema else old)

find-insert_all :
    (key : String) (props : List (String × Json)) (ms : Members)
    → find key (insert_all props ms) ≡ last_of key props (find key ms)
find-insert_all key [] ms = refl
find-insert_all key ((name, schema) ∷ props) ms =
    find-insert_all key props (insert name schema ms) ∙ rw (find-insert name key schema ms)
