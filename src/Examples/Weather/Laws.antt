-- ===== src/Examples/Weather/Laws.antt =====
-- The weather tool on arguments that its schema accepts.
use mathlib.Core.Path.{subst}
use forgeant.Prelude.{◌<>◌, String, ◌≡◌, ◌⊎◌, refl, Option, none, some, inl, inr}
use forgeant.Outcome.{ok}
use forgeant.Json.{
  Json, null, boolean, integer, number, string, array, object, Members, member, end, cons, nil,
  find, contains, at,
}
use forgeant.Schema.Conforms.{Accepts, Optional}
use forgeant.Schema.Fields.{described_json, string_field}
use forgeant.Examples.Weather.{WeatherParams, param_weather, get_weather, weather_tool}

abbrev unit_json : Json
unit_json = object (
    member "default" (string "fahrenheit") (
      member "description" (string "Temperature unit") (
        member "enum" (array (cons (string "fahrenheit") (cons (string "celsius") nil)))
          (member "type" (string "string") end))))

abbrev pub weather_json : Json
weather_json = object (
    member "properties"
      (object
        (member "city" (described_json "string" "The city name") (member "unit" unit_json end)))
      (member "required" (array (cons (string "city") nil)) (member "type" (string "object") end)))

weather_schema : param_weather.schema ≡ weather_json
unfolding param_weather
weather_schema = refl

-- The text of a value that is a text.
abbrev pub text_or : String → Option Json → String
text_or default (some (string s)) = s
text_or default _ = default

-- What the arguments stand for: a missing unit is `fahrenheit`.
abbrev pub params_of : Members → WeatherParams
params_of ms = record {
  city = text_or "" (find "city" ms);
  unit = text_or "fahrenheit" (find "unit" ms);
}

-- The two units of the schema.
abbrev pub IsUnit : String → Type 0
IsUnit unit = (unit ≡ "fahrenheit") ⊎ (unit ≡ "celsius")

unit_cases :
    (o : Option Json)
    → Optional (λ v. Accepts unit_json v) o
    → (o ≡ none) ⊎ ((s : String) × (o ≡ some (string s)))
unit_cases none h = inl refl
unit_cases (some (string s)) h = inr (s, refl)
unit_cases (some null) h = cc (h.1.1.1.0)
unit_cases (some (boolean b)) h = cc (h.1.1.1.0)
unit_cases (some (integer n)) h = cc (h.1.1.1.0)
unit_cases (some (number d)) h = cc (h.1.1.1.0)
unit_cases (some (array xs)) h = cc (h.1.1.1.0)
unit_cases (some (object ms)) h = cc (h.1.1.1.0)

get_weather-params_of :
    (ms : Members) → Accepts weather_json (object ms) → get_weather (object ms) ≡ ok (params_of ms)
unfolding get_weather at contains
get_weather-params_of ms h =
    let city = string_field "The city name" (find "city" ms) h.0.0 h.1.0.0 in
    elim (unit_cases (find "unit" ms) h.0.1.0) [
      | inl e ↦ rw (city.1, e)
      | inr (s, e) ↦ rw (city.1, e)
    ]

string_injective : (s t : String) → string s ≡ string t → s ≡ t
string_injective s t e = cc

IsUnit-text_or :
    (o : Option Json) → Optional (λ v. Accepts unit_json v) o → IsUnit (text_or "fahrenheit" o)
IsUnit-text_or none h = inl refl
IsUnit-text_or (some (string s)) h = elim (h.1.1.0) [
  | inl e ↦ inl (string_injective s "fahrenheit" e)
  | inr rest ↦ elim rest [
    | inl e ↦ inr (string_injective s "celsius" e)
    | inr nowhere ↦ absurd nowhere
  ]
]
IsUnit-text_or (some null) h = cc (h.1.1.1.0)
IsUnit-text_or (some (boolean b)) h = cc (h.1.1.1.0)
IsUnit-text_or (some (integer n)) h = cc (h.1.1.1.0)
IsUnit-text_or (some (number d)) h = cc (h.1.1.1.0)
IsUnit-text_or (some (array xs)) h = cc (h.1.1.1.0)
IsUnit-text_or (some (object ms)) h = cc (h.1.1.1.0)

-- An object that the schema of the tool accepts is read as its city and its unit, `fahrenheit` where
-- that is missing and one of the two units of the schema in any case; the tool then gives the forecast
-- for the city, changes nothing and throws nothing.
pub weather_tool-Accepts :
    {W : Type 0} (ms : Members) (w : W)
    → Accepts (weather_tool {W = W}).parameters (object ms)
    → (get_weather (object ms) ≡ ok (params_of ms))
      × IsUnit (params_of ms).unit
      × ((weather_tool {W = W}).execute (object ms) w
          ≡ (ok (string ("72°F and sunny in " <> (params_of ms).city)), w))
unfolding weather_tool
weather_tool-Accepts ms w h =
    let accepted = subst (λ s. Accepts s (object ms)) weather_schema h in
    let read = get_weather-params_of ms accepted in
    (read, IsUnit-text_or (find "unit" ms) accepted.0.1.0, rw read)
