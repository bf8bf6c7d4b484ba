-- ===== src/Schema.antt =====
-- include/forgeant/schema and src/schema/schema.cpp: the builder of JSON schemas. A call of the
-- builder is an action on the `Json` that it holds, `schema_`.
pub mod Laws
pub mod Conforms
pub mod Fields
use forgeant.Prelude.{String, Bool, List, not, if◌then◌else◌}
use forgeant.Prelude.Int.{ℤ}
use forgeant.Double.{Double}
use forgeant.Outcome.{Outcome, ok}
use forgeant.Action.{Action, pure, ◌>>=◌, ◌>>◌}
use forgeant.Json.{Json, null, string, empty_array, empty_object, contains}
use forgeant.Json.Update.{assign, on_key, push_back, for_each}

-- `SchemaBuilder`, of which `build` gives the one field.
pub record SchemaBuilder : Type 0 where
  pub schema : Json

-- `SchemaBuilder(type)`
unfoldable pub builder : String → SchemaBuilder
unfolding on_key
builder type = record { schema = (assign "type" (string type) null).1 }

unfoldable pub description : String → Action Json Unit
unfolding on_key
description desc = assign "description" (string desc)

unfoldable pub default_value : Json → Action Json Unit
unfolding on_key
default_value value = assign "default" value

-- The loop over `values` or `fields`.
abbrev pub push_strings : String → List String → Action Json Unit
push_strings key values = for_each values (λ v. on_key key (push_back (string v)))

unfoldable pub enum_values : List String → Action Json Unit
unfolding on_key push_back for_each
enum_values values = do assign "enum" empty_array; push_strings "enum" values

unfoldable pub property : String → Json → Action Json Unit
unfolding on_key contains
property name prop_schema = do
  λ schema.
      (if contains "properties" schema then pure tt else assign "properties" empty_object) schema
  on_key "properties" (assign name prop_schema)

unfoldable pub required : List String → Action Json Unit
unfolding on_key push_back for_each
required fields = do assign "required" empty_array; push_strings "required" fields

unfoldable pub items : Json → Action Json Unit
unfolding on_key
items item_schema = assign "items" item_schema

abbrev pub build : SchemaBuilder → Json
build b = b.schema

-- `Schema::string()` and the others
abbrev pub string_schema : SchemaBuilder
string_schema = builder "string"

abbrev pub integer_schema : SchemaBuilder
integer_schema = builder "integer"

abbrev pub number_schema : SchemaBuilder
number_schema = builder "number"

abbrev pub boolean_schema : SchemaBuilder
boolean_schema = builder "boolean"

abbrev pub object_schema : SchemaBuilder
object_schema = builder "object"

abbrev pub array_schema : SchemaBuilder
array_schema = builder "array"

-- `ParamSchema<T>::schema()` as an interface, with the built-in specializations.
pub record ParamSchema (T : Type 0) : Type 0 where
  pub schema : Json

abbrev pub param_string : ParamSchema String
param_string = record { schema = build string_schema }

abbrev pub param_int : ParamSchema ℤ
param_int = record { schema = build integer_schema }

abbrev pub param_double : ParamSchema Double
param_double = record { schema = build number_schema }

abbrev pub param_boolean : ParamSchema Bool
param_boolean = record { schema = build boolean_schema }
