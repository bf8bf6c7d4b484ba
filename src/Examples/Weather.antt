-- ===== src/Examples/Weather.antt =====
-- examples/tool_usage.cpp
pub mod Laws
use forgeant.Agent.{no_overrides}
use forgeant.Prelude.{◌<>◌, String, List, [], ◌∷◌, if◌then◌else◌}
use forgeant.Prelude.Decimal.{to_string}
use forgeant.Outcome.{Outcome, ok, throw}
use forgeant.Action.{Action, pure, lift, modify, continue, ◌>>=◌, ◌>>◌}
use forgeant.Platform.{Platform}
use forgeant.Json.{Json, string, at, contains, get_string}
use forgeant.Schema.{
  SchemaBuilder, ParamSchema, builder, description, default_value, enum_values, property, required,
  string_schema, object_schema,
}
use forgeant.Tool.{Tool, make_tool}
use forgeant.Http.{HttpClient}
use forgeant.Agent.{AgentResult, add_tool, run_prompt}
use forgeant.Examples.{Environment, Program, done, after_run, with_agent}

pub record WeatherParams : Type 0 where
  pub city : String
  pub unit : String

-- `WeatherParams{}`
abbrev pub no_params : WeatherParams
no_params = record { city = ""; unit = "fahrenheit" }

abbrev unit_schema : Action Json Unit
unit_schema = do
  description "Temperature unit"
  enum_values ("fahrenheit" ∷ "celsius" ∷ [])
  default_value (string "fahrenheit")

abbrev schema : Action Json Unit
schema = do
  property "city" (description "The city name" string_schema.schema).1
  property "unit" (unit_schema string_schema.schema).1
  required ("city" ∷ [])

unfoldable pub param_weather : ParamSchema WeatherParams
unfolding builder description default_value enum_values property required
param_weather = record { schema = (schema object_schema.schema).1 }

abbrev read_unit : Json → Action WeatherParams Unit
read_unit j = do
  unit_json ← lift (at "unit" j)
  unit ← lift (get_string unit_json)
  modify (λ params. record params { unit = unit })

unfoldable pub from_json : Json → Action WeatherParams Unit
unfolding at contains
from_json j = do
  city_json ← lift (at "city" j)
  city ← lift (get_string city_json)
  modify (λ params. record params { city = city })
  if contains "unit" j then read_unit j else pure tt

abbrev result_of : Outcome (Unit {0}) × WeatherParams → Outcome WeatherParams
result_of (ok _, params) = ok params
result_of (throw e, params) = throw e

-- `get<WeatherParams>()`
unfoldable pub get_weather : Json → Outcome WeatherParams
unfolding from_json
get_weather j = result_of (from_json j no_params)

abbrev pub forecast : {W : Type 0} → WeatherParams → Action W Json
forecast params = pure (string ("72°F and sunny in " <> params.city))

unfoldable pub weather_tool : {W : Type 0} → Tool W
unfolding make_tool param_weather get_weather
weather_tool =
    make_tool param_weather.schema get_weather "get_weather" "Get the current weather for a city"
      forecast

abbrev pub shown_answer : AgentResult String → List String
shown_answer result =
    ("Response: " <> result.output) ∷ ("Iterations: " <> to_string result.iterations) ∷ []

abbrev pub helpful : String
helpful = "You are a helpful assistant."

abbrev pub weather_question : String
weather_question = "What's the weather like in Denver?"

unfoldable pub main_weather :
    {W : Type 0} → Platform → Outcome (HttpClient W) → Environment → Program W
unfolding run_prompt add_tool weather_tool to_string
main_weather p client env = with_agent p client env helpful (λ agent. λ c.
    after_run (run_prompt p (add_tool weather_tool agent) weather_question no_overrides c.world)
      (λ result. done (shown_answer result)) c)
