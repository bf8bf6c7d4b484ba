-- ===== src/Provider/OpenAi.antt =====
-- include/forgeant/provider/openai.hpp and src/provider/openai.cpp: the reading side.
pub mod Request
pub mod Laws
pub mod Replies
pub mod Posting
pub mod Script
use forgeant.Prelude.{
  String, ◌<>◌, Bool, true, false, not, ◌&&◌, ◌||◌, none, some, List, [], ◌∷◌, ◌++◌, ◌==◌,
  if◌then◌else◌,
}
use forgeant.Prelude.Int.{pos}
use forgeant.Outcome.{Outcome, ok, throw, runtime_error, ◌>>=◌}
use forgeant.Platform.{Platform}
use forgeant.Json.{
  Json, string, object_of, empty_object, elements, Items, nil, cons, value, contains, index,
  is_string, is_null, is_empty, get_string, get_int, get_items,
}
use forgeant.Json.Text.{parse}
use forgeant.Types.Role
use forgeant.Types.Content.{ContentBlock, text_block, tool_use_block}
use forgeant.Http.{HttpHeaders}
use forgeant.Provider.{ProviderConfig, Usage, no_usage, LlmResponse}

abbrev pub default_base_url : String
default_base_url = "https://api.openai.com"

-- The constructor of `OpenAiProvider`.
unfoldable pub configure : ProviderConfig → ProviderConfig
configure config =
    if config.base_url == "" then record config { base_url = default_base_url } else config

abbrev pub endpoint_url : ProviderConfig → String
endpoint_url config = config.base_url <> "/v1/chat/completions"

abbrev pub auth_headers : ProviderConfig → HttpHeaders
auth_headers config =
    ("Authorization", "Bearer " <> config.api_key) ∷ ("content-type", "application/json") ∷ []

-- `if (json.contains("usage"))`
unfoldable pub read_usage : Json → Outcome Usage
unfolding contains index value
read_usage json =
    if contains "usage" json
    then (do
      usage ← index "usage" json
      input ← value get_int "prompt_tokens" (pos 0) usage
      output ← value get_int "completion_tokens" (pos 0) usage
      ok (record { input_tokens = input; output_tokens = output }))
    else ok no_usage

-- `Json::parse` in the `try` block, and the `catch (...)` behind it
abbrev or_raw : String → Outcome Json → Json
or_raw text (ok args) = args
or_raw text (throw _) = object_of (("_raw", string text) ∷ [])

-- The arguments of a call: the text of `arguments` parsed, or kept under `_raw` if it is no JSON; an
-- empty object if `arguments` is absent or no text.
unfoldable pub read_arguments : Platform → Json → Outcome Json
unfolding contains index parse object_of
read_arguments p func =
    if contains "arguments" func
    then (do
      arguments ← index "arguments" func
      if is_string arguments
          then (do text ← get_string arguments; ok (or_raw text (parse p text)))
          else ok empty_object)
    else ok empty_object

unfoldable pub read_tool_call : Platform → Json → Outcome ContentBlock
unfolding index read_arguments value
read_tool_call p tc = do
  func ← index "function" tc
  args ← read_arguments p func
  id ← value get_string "id" "" tc
  name ← value get_string "name" "" func
  ok (tool_use_block (record { id = id; name = name; input = args }))

unfoldable pub read_tool_calls : Platform → List Json → Outcome (List ContentBlock)
unfolding read_tool_call
read_tool_calls p [] = ok []
read_tool_calls p (x ∷ xs) = do
  block ← read_tool_call p x
  blocks ← read_tool_calls p xs
  ok (block ∷ blocks)

abbrev calls_of : Platform → Json → Outcome (List ContentBlock)
calls_of p msg =
    if contains "tool_calls" msg
    then (do calls ← index "tool_calls" msg; xs ← get_items calls; read_tool_calls p (elements xs))
    else ok []

-- The text of a message, unless it is empty, null or no text.
abbrev text_of : Json → Outcome (List ContentBlock)
text_of msg =
    if contains "content" msg
    then (do
      content ← index "content" msg
      if is_string content
          then (do
            text ← get_string content
            ok (if text == "" then [] else text_block (record { text = text }) ∷ []))
          else ok [])
    else ok []

abbrev first_choice : Items → Outcome Json
first_choice nil = throw (runtime_error "OpenAI response missing choices")
first_choice (cons choice _) = ok choice

-- `json["choices"][0]` behind the test of `contains` and `empty`
abbrev choice_of : Json → Outcome Json
choice_of json =
    if contains "choices" json
    then (do
      choices ← index "choices" json
      if is_empty choices
          then throw (runtime_error "OpenAI response missing choices")
          else (do xs ← get_items choices; first_choice xs))
    else throw (runtime_error "OpenAI response missing choices")

unfoldable pub deserialize_response : Platform → Json → Outcome LlmResponse
unfolding value read_usage contains index read_tool_calls
deserialize_response p json = do
  model ← value get_string "model" "" json
  usage ← read_usage json
  choice ← choice_of json
  finish_reason ← value get_string "finish_reason" "" choice
  msg ← index "message" choice
  calls ← calls_of p msg
  text ← text_of msg
  ok (record {
    message = record { role = Role.assistant; content = calls ++ text };
    finish_reason = finish_reason;
    usage = usage;
    model = model;
  })
