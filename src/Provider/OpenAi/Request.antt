-- ===== src/Provider/OpenAi/Request.antt =====
-- `OpenAiProvider::serialize_request` and `chat`. `body` is the `Json` that the actions write to.
use forgeant.Prelude.{String, true, Option, none, some, List, [], ◌∷◌, ◌==◌, if◌then◌else◌}
use forgeant.Outcome.{Outcome, ok, throw}
use forgeant.Action.{Action, pure, lift, ◌>>=◌, ◌>>◌}
use forgeant.Platform.{Platform}
use forgeant.Json.{Json, null, boolean, string, object_of, empty_array, is_empty}
use forgeant.Json.Text.{dump}
use forgeant.Json.Update.{assign, on_key, push_back, for_each}
use forgeant.Types.Role
use forgeant.Types.Role.{Role}
use forgeant.Types.Content.{
  ContentBlock, ToolUseBlock, ToolResultBlock, text_block, tool_use_block, tool_result_block,
}
use forgeant.Types.Message.{Message}
use forgeant.Types.Conversation.{Conversation}
use forgeant.Tool.{ToolView}
use forgeant.Http.{HttpClient}
use forgeant.Provider.{ProviderConfig, LlmResponse, ChatRequest, LlmProvider}
use forgeant.Provider.Wire.{write_integer, write_number, close_schema, read_reply}
use forgeant.Provider.OpenAi.{configure, endpoint_url, auth_headers, deserialize_response}

-- `tool_msg`
unfoldable pub write_result : ToolResultBlock → Action Json Unit
unfolding on_key
write_result result = do
  assign "role" (string "tool")
  assign "tool_call_id" (string result.tool_use_id)
  assign "content" (string result.content)

-- One message for each tool result, on the array of messages.
unfoldable pub push_results : List ContentBlock → Action Json Unit
unfolding write_result push_back
push_results [] = pure tt
push_results (tool_result_block result ∷ blocks) = do
  push_back (write_result result null).1
  push_results blocks
push_results (text_block _ ∷ blocks) = push_results blocks
push_results (tool_use_block _ ∷ blocks) = push_results blocks

unfoldable pub serialize_tool : ToolView → Json
unfolding object_of
serialize_tool tool = object_of (
    ("type", string "function")
    ∷ (
      "function",
      object_of (
          ("name", string tool.name)
          ∷ ("description", string tool.description)
          ∷ ("parameters", tool.parameters)
          ∷ []),
    )
    ∷ [])

unfoldable pub serialize_call : Platform → ToolUseBlock → Json
unfolding object_of dump
serialize_call p tool = object_of (
    ("id", string tool.id)
    ∷ ("type", string "function")
    ∷ (
      "function",
      object_of (("name", string tool.name) ∷ ("arguments", string (dump p tool.input)) ∷ []),
    )
    ∷ [])

-- `text_content` after the loop over the blocks: each text block replaces the one before.
unfoldable pub text_content : String → List ContentBlock → String
text_content text [] = text
text_content text (text_block block ∷ blocks) = text_content block.text blocks
text_content text (tool_use_block _ ∷ blocks) = text_content text blocks
text_content text (tool_result_block _ ∷ blocks) = text_content text blocks

-- `tool_calls` after the loop over the blocks
unfoldable pub push_calls : Platform → List ContentBlock → Action Json Unit
unfolding serialize_call push_back
push_calls p [] = pure tt
push_calls p (tool_use_block tool ∷ blocks) = do
  push_back (serialize_call p tool)
  push_calls p blocks
push_calls p (text_block _ ∷ blocks) = push_calls p blocks
push_calls p (tool_result_block _ ∷ blocks) = push_calls p blocks

abbrev pub write_content : Json → String → Action Json Unit
write_content tool_calls text = if is_empty tool_calls then assign "content" (string text) else (do
  assign "tool_calls" tool_calls
  assign "content" (if text == "" then null else string text))

-- `msg_json`
unfoldable pub serialize_message : Platform → Message → Action Json Unit
unfolding on_key Role.to_json push_calls text_content
serialize_message p msg = do
  on_key "role" (Role.to_json msg.role)
  write_content (push_calls p msg.content empty_array).1 (text_content "" msg.content)

-- One round of the loop over the messages, on the array of messages.
unfoldable pub push_message : Platform → Message → Action Json Unit
unfolding push_results serialize_message push_back
push_message p msg = elim msg.role [
  | Role.tool ↦ push_results msg.content
  | _ ↦ push_back (serialize_message p msg null).1
]

abbrev pub push_system : Option String → Action Json Unit
push_system none = pure tt
push_system (some prompt) =
    push_back (object_of (("role", string "system") ∷ ("content", string prompt) ∷ []))

unfoldable pub push_tool : ToolView → Action Json Unit
unfolding serialize_tool on_key push_back
push_tool tool = on_key "tools" (push_back (serialize_tool tool))

abbrev pub write_tools : List ToolView → Action Json Unit
write_tools [] = pure tt
write_tools (tool ∷ tools) = do assign "tools" empty_array; for_each (tool ∷ tools) push_tool

abbrev response_format : Json
response_format = object_of (
    ("type", string "json_schema")
    ∷ ("json_schema", object_of (("name", string "response") ∷ ("strict", boolean true) ∷ []))
    ∷ [])

abbrev pub write_schema : Option Json → Action Json Unit
write_schema none = pure tt
write_schema (some schema) = do
  schema_copy ← lift (close_schema schema)
  assign "response_format" response_format
  on_key "response_format" (on_key "json_schema" (assign "schema" schema_copy))

-- The writes to `messages`, which is a reference to `body["messages"]`.
unfoldable pub write_messages : Platform → Conversation → Action Json Unit
unfolding push_back object_of for_each push_message
write_messages p conversation = do
  push_system conversation.system_prompt
  for_each conversation.messages (push_message p)

-- The messages, the tools and the schema of `body`.
unfoldable pub write_lists : Platform → Conversation → ChatRequest → Action Json Unit
unfolding on_key write_messages push_tool close_schema object_of
write_lists p conversation request = do
  assign "messages" empty_array
  on_key "messages" (write_messages p conversation)
  write_tools request.tools
  write_schema request.output_schema

unfoldable pub serialize_request :
    Platform → ProviderConfig → Conversation → ChatRequest → Action Json Unit
unfolding on_key
serialize_request p config conversation request = do
  assign "model" (string config.model)
  write_integer "max_tokens" config.max_tokens
  write_number "temperature" config.temperature
  write_lists p conversation request

module _ {W : Type 0} (p : Platform) (client : HttpClient W) where
  abbrev pub send : ProviderConfig → Outcome (Unit {0}) × Json → Action W LlmResponse
  send config (throw e, body) = lift (throw e)
  send config (ok _, body) = do
    response ← client.post (endpoint_url config) (auth_headers config) (dump p body)
    lift (read_reply p "OpenAI" (deserialize_response p) response)

  unfoldable pub chat : ProviderConfig → Conversation → ChatRequest → Action W LlmResponse
  unfolding serialize_request write_lists read_reply deserialize_response dump
  chat config conversation request =
      send config (serialize_request p config conversation request null)

  -- `OpenAiProvider(client, config)`
  unfoldable pub provider : ProviderConfig → LlmProvider W
  unfolding configure chat
  provider config = record { chat = chat (configure config) }
