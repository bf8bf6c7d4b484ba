-- ===== src/Provider/Anthropic/Request.antt =====
-- `AnthropicProvider::serialize_request` and `chat`. `body` is the `Json` that the actions write to.
use forgeant.Prelude.{String, Option, none, some, List, [], ◌∷◌, value_or}
use forgeant.Prelude.Int.{pos}
use forgeant.Outcome.{Outcome, ok, throw}
use forgeant.Action.{Action, pure, lift, ◌>>=◌, ◌>>◌}
use forgeant.Platform.{Platform}
use forgeant.Json.{Json, null, string, integer, empty_array}
use forgeant.Json.Text.{dump}
use forgeant.Json.Update.{assign, on_key, push_back, for_each}
use forgeant.Types.Role
use forgeant.Types.Role.{Role}
use forgeant.Types.Content
use forgeant.Types.Content.{ContentBlock}
use forgeant.Types.Message.{Message}
use forgeant.Types.Conversation.{Conversation}
use forgeant.Tool.{ToolView}
use forgeant.Http.{HttpClient}
use forgeant.Provider.{ProviderConfig, LlmResponse, ChatRequest, LlmProvider}
use forgeant.Provider.Wire.{write_number, close_schema, read_reply}
use forgeant.Provider.Anthropic.{
  serialize_tool, configure, endpoint_url, auth_headers, deserialize_response,
}

-- A tool message is sent with the role `user`.
unfoldable pub write_role : Role → Action Json Unit
unfolding on_key Role.to_json
write_role Role.tool = assign "role" (string "user")
write_role role = on_key "role" (Role.to_json role)

unfoldable pub write_block : ContentBlock → Action Json Unit
unfolding on_key push_back Content.to_json
write_block block = on_key "content" (push_back (Content.to_json block null).1)

-- `msg_json`
unfoldable pub write_message : Message → Action Json Unit
unfolding write_role write_block for_each on_key
write_message msg = do
  write_role msg.role
  assign "content" empty_array
  for_each msg.content write_block

unfoldable pub push_message : Message → Action Json Unit
unfolding write_message on_key push_back
push_message msg = on_key "messages" (push_back (write_message msg null).1)

abbrev write_system : Option String → Action Json Unit
write_system none = pure tt
write_system (some prompt) = assign "system" (string prompt)

unfoldable pub push_tool : ToolView → Action Json Unit
unfolding serialize_tool on_key push_back
push_tool tool = on_key "tools" (push_back (serialize_tool tool))

abbrev pub write_tools : List ToolView → Action Json Unit
write_tools [] = pure tt
write_tools (tool ∷ tools) = do assign "tools" empty_array; for_each (tool ∷ tools) push_tool

abbrev pub write_schema : Option Json → Action Json Unit
write_schema none = pure tt
write_schema (some schema) = do
  schema_copy ← lift (close_schema schema)
  on_key "output_config" (on_key "format" (assign "type" (string "json_schema")))
  on_key "output_config" (on_key "format" (assign "schema" schema_copy))

-- The messages, the tools and the schema of `body`.
unfoldable pub write_lists : Conversation → ChatRequest → Action Json Unit
unfolding on_key for_each push_message push_tool close_schema
write_lists conversation request = do
  assign "messages" empty_array
  for_each conversation.messages push_message
  write_tools request.tools
  write_schema request.output_schema

unfoldable pub serialize_request : ProviderConfig → Conversation → ChatRequest → Action Json Unit
unfolding on_key
serialize_request config conversation request = do
  assign "model" (string config.model)
  assign "max_tokens" (integer (value_or config.max_tokens (pos 1024)))
  write_system conversation.system_prompt
  write_number "temperature" config.temperature
  write_lists conversation request

module _ {W : Type 0} (p : Platform) (client : HttpClient W) where
  abbrev pub send : ProviderConfig → Outcome (Unit {0}) × Json → Action W LlmResponse
  send config (throw e, body) = lift (throw e)
  send config (ok _, body) = do
    response ← client.post (endpoint_url config) (auth_headers config) (dump p body)
    lift (read_reply p "Anthropic" deserialize_response response)

  unfoldable pub chat : ProviderConfig → Conversation → ChatRequest → Action W LlmResponse
  unfolding serialize_request write_lists read_reply deserialize_response dump
  chat config conversation request =
      send config (serialize_request config conversation request null)

  -- `AnthropicProvider(client, config)`
  abbrev pub provider : ProviderConfig → LlmProvider W
  unfolding configure chat
  provider config = record { chat = chat (configure config) }
