-- ===== src/Provider/Anthropic/Script.antt =====
-- A scripted service behind `AnthropicProvider`.
use forgeant.Prelude.{false, ◌≡◌, ◌∙◌, List, [], ◌∷◌}
use forgeant.Outcome.{Exception, ok, throw, runtime_error}
use forgeant.Platform.{Platform}
use forgeant.Json.{null}
use forgeant.Json.Text.{dump}
use forgeant.Types.Conversation.{Conversation}
use forgeant.Http.{HttpClient, HttpResponse}
use forgeant.Provider.Wire.{error_message}
use forgeant.Provider.{ProviderConfig, ChatRequest, LlmResponse}
use forgeant.Provider.Wire.Closing.{is_refused}
use forgeant.Provider.Wire.Service.{
  Scripted, Recites, Breaks, BreaksWith, read_reply-script, read_reply-broken,
}
use forgeant.Provider.Anthropic.{configure, deserialize_response, endpoint_url, auth_headers}
use forgeant.Provider.Anthropic.Request.{serialize_request, chat, provider}
use forgeant.Provider.Anthropic.Posting.{chat-posted}

module _ {W : Type 0} (p : Platform) (http : HttpClient W) (left : W → List LlmResponse)
    (service : Scripted left p http deserialize_response) where
  chat-script :
      (config : ProviderConfig) (conv : Conversation) (request : ChatRequest) (w : W)
      (answer : LlmResponse) (later : List LlmResponse)
      → is_refused request.output_schema ≡ false
      → left w ≡ answer ∷ later
      → (w' : W) × (chat p http config conv request w ≡ (ok answer, w')) × (left w' ≡ later)
  chat-script config conv request w answer later good h =
      let body = dump p (serialize_request config conv request null).1 in
      let reply =
        read_reply-script p http deserialize_response left service "Anthropic" (endpoint_url config)
          (auth_headers config) body w answer later h in
      (reply.0, chat-posted p http config conv request w ∙ rw good reply.1, reply.2)

  pub provider-Recites : (config : ProviderConfig) → Recites left (provider p http config)
  unfolding chat configure
  provider-Recites config = record { at = chat-script (configure config) }

-- The exception that the provider throws for a response with a bad status.
abbrev pub refusal : Platform → HttpResponse → Exception
refusal p response = runtime_error (error_message p "Anthropic" response)

module _ {W : Type 0} (p : Platform) (http : HttpClient W) (left : W → List LlmResponse)
    (bad : HttpResponse) (service : Breaks left http bad) where
  chat-broken :
      (config : ProviderConfig) (conv : Conversation) (request : ChatRequest) (w : W)
      → is_refused request.output_schema ≡ false
      → left w ≡ []
      → (w' : W) × (chat p http config conv request w ≡ (throw (refusal p bad), w'))
  chat-broken config conv request w good h =
      let body = dump p (serialize_request config conv request null).1 in
      let reply =
        read_reply-broken p http deserialize_response left bad service "Anthropic"
          (endpoint_url config) (auth_headers config) body w h in
      (reply.0, chat-posted p http config conv request w ∙ rw good reply.1)

  pub provider-BreaksWith :
      (config : ProviderConfig) → BreaksWith left (refusal p bad) (provider p http config)
  unfolding chat configure
  provider-BreaksWith config = record { at = chat-broken (configure config) }
