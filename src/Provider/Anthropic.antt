-- ===== src/Provider/Anthropic.antt =====
-- include/forgeant/provider/anthropic.hpp and src/provider/anthropic.cpp
pub mod Request
pub mod Laws
pub mod Posting
pub mod Script
use forgeant.Prelude.{
  String, ◌<>◌, Bool, true, false, Option, none, some, List, [], ◌∷◌, ◌++◌, ◌==◌, if◌then◌else◌,
  value_or,
}
use forgeant.Prelude.Int.{ℤ, pos}
use forgeant.Outcome.{Outcome, ok, throw, ◌>>=◌}
use forgeant.Platform.{Platform}
use forgeant.Json.{
  Json, null, string, integer, object_of, empty_array, empty_object, elements, value, contains,
  index, get_string, get_int, get_json, get_items,
}
use forgeant.Json.Text.{dump}
use forgeant.Types.Role
use forgeant.Types.Content.{ContentBlock, text_block, tool_use_block}
use forgeant.Types.Message.{Message}
use forgeant.Types.Conversation.{Conversation}
use forgeant.Tool.{ToolView}
use forgeant.Http.{HttpClient, HttpHeaders}
use forgeant.Provider.{ProviderConfig, Usage, no_usage, LlmResponse, ChatRequest, LlmProvider}
use forgeant.Provider.Wire.{close_schema, read_reply}

unfoldable pub serialize_tool : ToolView → Json
unfolding object_of
serialize_tool tool = object_of (
    ("name", string tool.name)
    ∷ ("description", string tool.description)
    ∷ ("input_schema", tool.parameters)
    ∷ [])

abbrev pub default_base_url : String
default_base_url = "https://api.anthropic.com"

abbrev pub api_version : String
api_version = "2023-06-01"

-- The constructor of `AnthropicProvider`.
unfoldable pub configure : ProviderConfig → ProviderConfig
configure config =
    if config.base_url == "" then record config { base_url = default_base_url } else config

abbrev pub endpoint_url : ProviderConfig → String
endpoint_url config = config.base_url <> "/v1/messages"

abbrev pub auth_headers : ProviderConfig → HttpHeaders
auth_headers config =
    ("x-api-key", config.api_key)
    ∷ ("anthropic-version", api_version)
    ∷ ("content-type", "application/json")
    ∷ []

-- `if (json.contains("usage"))`
unfoldable pub read_usage : Json → Outcome Usage
unfolding contains index value
read_usage json =
    if contains "usage" json
    then (do
      usage ← index "usage" json
      input ← value get_int "input_tokens" (pos 0) usage
      output ← value get_int "output_tokens" (pos 0) usage
      ok (record { input_tokens = input; output_tokens = output }))
    else ok no_usage

-- One block of the response; blocks of other types are skipped.
unfoldable pub read_block : Json → Outcome (List ContentBlock)
unfolding value
read_block block = do
  type ← value get_string "type" "" block
  if type == "text"
      then (do
        text ← value get_string "text" "" block
        ok (text_block (record { text = text }) ∷ []))
      else if type == "tool_use"
      then (do
        id ← value get_string "id" "" block
        name ← value get_string "name" "" block
        input ← value get_json "input" empty_object block
        ok (tool_use_block (record { id = id; name = name; input = input }) ∷ []))
      else ok []

unfoldable pub read_blocks : List Json → Outcome (List ContentBlock)
unfolding read_block
read_blocks [] = ok []
read_blocks (x ∷ xs) = do block ← read_block x; blocks ← read_blocks xs; ok (block ++ blocks)

unfoldable pub read_content : Json → Outcome (List ContentBlock)
unfolding contains index read_blocks
read_content json =
    if contains "content" json
    then (do content ← index "content" json; xs ← get_items content; read_blocks (elements xs))
    else ok []

unfoldable pub deserialize_response : Json → Outcome LlmResponse
unfolding value read_usage read_content
deserialize_response json = do
  model ← value get_string "model" "" json
  finish_reason ← value get_string "stop_reason" "" json
  usage ← read_usage json
  content ← read_content json
  ok (record {
    message = record { role = Role.assistant; content = content };
    finish_reason = finish_reason;
    usage = usage;
    model = model;
  })
