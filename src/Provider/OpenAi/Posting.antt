-- ===== src/Provider/OpenAi/Posting.antt =====
-- What `OpenAiProvider::chat` does with each request.
use mathlib.Core.Path.{subst}
use forgeant.Prelude.{
  Bool, ◌≡◌, refl, sym, true, false, Option, none, some, List, [], ◌∷◌, map, if◌then◌else◌,
}
use forgeant.Prelude.Int.{ℤ}
use forgeant.Double.{Double}
use forgeant.Outcome.{Outcome, ok, throw, bad_variant_access}
use forgeant.Action.{Action, lift, continue, ◌>>=◌, ◌>>◌}
use forgeant.Platform.{Platform}
use forgeant.Json.{Json, null, array, items, object, Members, insert, object_of}
use forgeant.Json.Lookup.{find-insert}
use forgeant.Json.Text.{dump}
use forgeant.Json.Update.{on_key}
use forgeant.Json.Update.Laws.{for_each-on_key, on_key-insert}
use forgeant.Types.Conversation.{Conversation}
use forgeant.Tool.{ToolView}
use forgeant.Http.{HttpClient}
use forgeant.Provider.{ProviderConfig, ChatRequest, LlmResponse}
use forgeant.Provider.Wire.{read_reply}
use forgeant.Provider.Wire.Closing.{is_refused, outcome_of, outcome_by}
use forgeant.Provider.OpenAi.{deserialize_response, endpoint_url, auth_headers}
use forgeant.Provider.OpenAi.Request.{
  serialize_tool, push_tool, write_messages, write_tools, write_schema, write_lists,
  serialize_request, send, chat,
}
use forgeant.Provider.OpenAi.Laws.{conversation_entries, write_messages-entries}

-- The members of a body once the tools are written.
abbrev with_tools : List ToolView → Members → Members
with_tools [] ms = ms
with_tools (tool ∷ tools) ms = insert "tools" (array (items (map serialize_tool (tool ∷ tools)))) ms

write_tools-object :
    (tools : List ToolView) (ms : Members)
    → write_tools tools (object ms) ≡ (ok tt, object (with_tools tools ms))
unfolding on_key push_tool
write_tools-object [] ms = refl
write_tools-object (tool ∷ tools) ms = for_each-on_key serialize_tool "tools" (tool ∷ tools) [] ms

write_schema-outcome :
    (schema : Option Json) (ms : Members) → (write_schema schema (object ms)).0 ≡ outcome_of schema
unfolding on_key object_of
write_schema-outcome none ms = refl
write_schema-outcome (some schema) ms =
    outcome_by schema _ (λ e. rw e refl) (λ c e. rw e (rw find-insert refl))

module _ (p : Platform) where
  write_lists-outcome :
      (conv : Conversation) (request : ChatRequest) (ms : Members)
      → (write_lists p conv request (object ms)).0 ≡ outcome_of request.output_schema
  unfolding write_lists on_key write_messages
  write_lists-outcome conv request ms =
      let listed = insert "messages" (array (items (conversation_entries p conv))) ms in
      subst
        (λ r.
          (continue r.0 (λ _. write_tools request.tools >> write_schema request.output_schema)
            r.1).0
          ≡ outcome_of request.output_schema)
        (sym (
          on_key-insert "messages" (write_messages p conv) _ _ ms
            (write_messages-entries p conv.system_prompt conv.messages)))
        (rw (write_tools-object request.tools listed)
          (write_schema-outcome request.output_schema (with_tools request.tools listed)))

  -- Whether the request is written depends on its schema alone.
  serialize_request-outcome :
      (config : ProviderConfig) (conv : Conversation) (request : ChatRequest)
      → (serialize_request p config conv request null).0 ≡ outcome_of request.output_schema
  unfolding serialize_request
  serialize_request-outcome config conv request = go config.max_tokens config.temperature
    where
      go :
          (limit : Option ℤ) (temperature : Option Double)
          → (serialize_request p
              (record config { max_tokens = limit; temperature = temperature })
              conv
              request
              null).0
            ≡ outcome_of request.output_schema
      go none none = write_lists-outcome conv request _
      go none (some t) = write_lists-outcome conv request _
      go (some n) none = write_lists-outcome conv request _
      go (some n) (some t) = write_lists-outcome conv request _

module _ {W : Type 0} (p : Platform) (http : HttpClient W) where
  -- One post of the request, and the reading of the response.
  abbrev pub posted : ProviderConfig → Json → Action W LlmResponse
  posted config body =
      http.post (endpoint_url config) (auth_headers config) (dump p body) >>= λ response.
      lift (read_reply p "OpenAI" (deserialize_response p) response)

  send-outcome :
      (config : ProviderConfig) (refused : Bool) (written : Outcome (Unit {0}) × Json) (w : W)
      → written.0 ≡ (if refused then throw bad_variant_access else ok tt)
      → send p http config written w
        ≡ (if refused then (throw bad_variant_access, w) else posted config written.1 w)
  send-outcome config true (r, body) w h = rw h refl
  send-outcome config false (r, body) w h = rw h refl

  -- `chat` posts the request as it is written, unless its schema is refused.
  pub chat-posted :
      (config : ProviderConfig) (conv : Conversation) (request : ChatRequest) (w : W)
      → chat p http config conv request w ≡ (
          if is_refused request.output_schema
          then (throw bad_variant_access, w)
          else posted config (serialize_request p config conv request null).1 w)
  unfolding chat
  chat-posted config conv request w =
      send-outcome config (is_refused request.output_schema)
        (serialize_request p config conv request null) w
        (serialize_request-outcome p config conv request)
