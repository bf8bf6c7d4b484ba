-- ===== src/Provider/Anthropic/Posting.antt =====
-- What `AnthropicProvider::chat` does with each request.
use forgeant.Prelude.{
  Bool, String, ◌≡◌, refl, true, false, Option, none, some, List, [], ◌∷◌, map, if◌then◌else◌,
}
use forgeant.Double.{Double}
use forgeant.Outcome.{Outcome, ok, throw, bad_variant_access}
use forgeant.Action.{Action, lift, ◌>>=◌}
use forgeant.Platform.{Platform}
use forgeant.Json.{Json, null, array, items, object, Members, find, insert}
use forgeant.Json.Lookup.{find-insert}
use forgeant.Json.Text.{dump}
use forgeant.Json.Update.{on_key}
use forgeant.Json.Update.Laws.{for_each-on_key}
use forgeant.Types.Conversation.{Conversation}
use forgeant.Tool.{ToolView}
use forgeant.Http.{HttpClient}
use forgeant.Provider.{ProviderConfig, ChatRequest, LlmResponse}
use forgeant.Provider.Wire.{read_reply}
use forgeant.Provider.Wire.Closing.{is_refused, outcome_of, outcome_by}
use forgeant.Provider.Anthropic.{serialize_tool, deserialize_response, endpoint_url, auth_headers}
use forgeant.Provider.Anthropic.Request.{
  push_tool, write_tools, write_schema, write_lists, serialize_request, send, chat,
}
use forgeant.Provider.Anthropic.Laws.{wire_message}

-- The members of a body once the tools are written.
abbrev with_tools : List ToolView → Members → Members
with_tools [] ms = ms
with_tools (tool ∷ tools) ms = insert "tools" (array (items (map serialize_tool (tool ∷ tools)))) ms

write_tools-object :
    (tools : List ToolView) (ms : Members)
    → write_tools tools (object ms) ≡ (ok tt, object (with_tools tools ms))
unfolding on_key push_tool
write_tools-object [] ms = refl
write_tools-object (tool ∷ tools) ms = for_each-on_key serialize_tool "tools" (tool ∷ tools) [] ms

write_schema-outcome :
    (schema : Option Json) (ms : Members)
    → find "output_config" ms ≡ none
    → (write_schema schema (object ms)).0 ≡ outcome_of schema
unfolding on_key
write_schema-outcome none ms fresh = refl
write_schema-outcome (some schema) ms fresh =
    outcome_by schema _ (λ e. rw e refl) (λ c e. rw e (rw fresh (rw find-insert refl)))

fresh-with_tools :
    (tools : List ToolView) (ms : Members)
    → find "output_config" ms ≡ none
    → find "output_config" (with_tools tools ms) ≡ none
fresh-with_tools [] ms fresh = fresh
fresh-with_tools (tool ∷ tools) ms fresh = rw find-insert fresh

write_lists-outcome :
    (conv : Conversation) (request : ChatRequest) (ms : Members)
    → find "output_config" ms ≡ none
    → (write_lists conv request (object ms)).0 ≡ outcome_of request.output_schema
unfolding write_lists
write_lists-outcome conv request ms fresh =
    let listed = insert "messages" (array (items (map wire_message conv.messages))) ms in
    rw (for_each-on_key wire_message "messages" conv.messages [] ms) (
      rw (write_tools-object request.tools listed) (
        write_schema-outcome request.output_schema (with_tools request.tools listed)
          (fresh-with_tools request.tools listed (rw find-insert fresh))))

-- Whether the request is written depends on its schema alone.
serialize_request-outcome :
    (config : ProviderConfig) (conv : Conversation) (request : ChatRequest)
    → (serialize_request config conv request null).0 ≡ outcome_of request.output_schema
unfolding serialize_request find insert
serialize_request-outcome config conv request = go conv.system_prompt config.temperature
  where
    go :
        (prompt : Option String) (temperature : Option Double)
        → (serialize_request
            (record config { temperature = temperature })
            (record conv { system_prompt = prompt })
            request
            null).0
          ≡ outcome_of request.output_schema
    go none none = write_lists-outcome (record conv { system_prompt = none }) request _ refl
    go none (some t) = write_lists-outcome (record conv { system_prompt = none }) request _ refl
    go (some prompt) none =
        write_lists-outcome (record conv { system_prompt = some prompt }) request _ refl
    go (some prompt) (some t) =
        write_lists-outcome (record conv { system_prompt = some prompt }) request _ refl

module _ {W : Type 0} (p : Platform) (http : HttpClient W) where
  -- One post of the request, and the reading of the response.
  abbrev pub posted : ProviderConfig → Json → Action W LlmResponse
  posted config body =
      http.post (endpoint_url config) (auth_headers config) (dump p body) >>= λ response.
      lift (read_reply p "Anthropic" deserialize_response response)

  send-outcome :
      (config : ProviderConfig) (refused : Bool) (written : Outcome (Unit {0}) × Json) (w : W)
      → written.0 ≡ (if refused then throw bad_variant_access else ok tt)
      → send p http config written w
        ≡ (if refused then (throw bad_variant_access, w) else posted config written.1 w)
  send-outcome config true (r, body) w h = rw h refl
  send-outcome config false (r, body) w h = rw h refl

  -- `chat` posts the request as it is written, unless its schema is refused.
  pub chat-posted :
      (config : ProviderConfig) (conv : Conversation) (request : ChatRequest) (w : W)
      → chat p http config conv request w ≡ (
          if is_refused request.output_schema
          then (throw bad_variant_access, w)
          else posted config (serialize_request config conv request null).1 w)
  unfolding chat
  chat-posted config conv request w =
      send-outcome config (is_refused request.output_schema)
        (serialize_request config conv request null) w
        (serialize_request-outcome config conv request)
