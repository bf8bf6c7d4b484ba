-- ===== src/Provider/Wire.antt =====
-- What the two providers write in the same way: the lists of a request, the closing of a schema, and
-- the error that a bad status becomes (src/provider/anthropic.cpp and src/provider/openai.cpp).
pub mod Replies
pub mod Service
pub mod Closing
pub mod Errors
use forgeant.Prelude.{String, ◌<>◌, Bool, false, ◌||◌, Option, none, some, ◌==◌, if◌then◌else◌}
use forgeant.Prelude.Int.{ℤ, pos, ltb_ℤ}
use forgeant.Prelude.Decimal.{to_string}
use forgeant.Double.{Double}
use forgeant.Outcome.{Outcome, ok, throw, runtime_error, ◌>>=◌}
use forgeant.Action.{Action, pure}
use forgeant.Platform.{Platform}
use forgeant.Json.{Json, boolean, integer, number, contains, index, get_string, value}
use forgeant.Json.Text.{parse}
use forgeant.Json.Update.{assign, on_key}
use forgeant.Http.{HttpResponse}

-- `if (config_.max_tokens.has_value())`, and so for the temperature
abbrev pub write_integer : String → Option ℤ → Action Json Unit
write_integer key none = pure tt
write_integer key (some n) = assign key (integer n)

abbrev pub write_number : String → Option Double → Action Json Unit
write_number key none = pure tt
write_number key (some d) = assign key (number d)

-- `schema_copy`: an object schema gets `additionalProperties` set to false.
unfoldable pub close_schema : Json → Outcome Json
unfolding value on_key
close_schema schema = do
  type ← value get_string "type" "" schema
  if type == "object"
      then (let (r, closed) = assign "additionalProperties" (boolean false) schema in
          r >>= λ _. ok closed)
      else ok schema

-- `http_response.status_code < 200 || http_response.status_code >= 300`
abbrev pub is_failure : ℤ → Bool
is_failure status = ltb_ℤ status (pos 200) || ltb_ℤ (pos 299) status

-- What the `try` block adds to the message.
unfoldable pub error_detail : Platform → String → Outcome String
unfolding parse contains index
error_detail p body = do
  err_json ← parse p body
  if contains "error" err_json
      then (do
        err ← index "error" err_json
        if contains "message" err
            then (do m ← index "message" err; text ← get_string m; ok (": " <> text))
            else ok "")
      else ok ""

abbrev pub or_body : String → Outcome String → String
or_body body (ok detail) = detail
or_body body (throw _) = ": " <> body

-- The message of the exception for a bad status; `name` is the provider's.
unfoldable pub error_message : Platform → String → HttpResponse → String
unfolding error_detail to_string
error_message p name response =
    let text = name <> (" API error (HTTP " <> (to_string response.status_code <> ")")) in
    if response.body == ""
    then text
    else text <> or_body response.body (error_detail p response.body)

-- `chat` from the response of the client on, with `deserialize_response` as an argument.
unfoldable pub read_reply :
    {A : Type 0} → Platform → String → (Json → Outcome A) → HttpResponse → Outcome A
unfolding error_message parse
read_reply p name deserialize response =
    if is_failure response.status_code
    then throw (runtime_error (error_message p name response))
    else (do json ← parse p response.body; deserialize json)
