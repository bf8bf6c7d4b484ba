-- ===== src/Provider/Posting.antt =====
-- `chat` of the two providers.
use forgeant.Prelude.{◌≡◌, if◌then◌else◌}
use forgeant.Outcome.{throw, bad_variant_access}
use forgeant.Platform.{Platform}
use forgeant.Json.{null}
use forgeant.Types.Conversation.{Conversation}
use forgeant.Http.{HttpClient}
use forgeant.Provider.{ProviderConfig, ChatRequest}
use forgeant.Provider.Wire.Closing.{is_refused}
use forgeant.Provider.Anthropic.Request as Anthropic
use forgeant.Provider.Anthropic.Posting as AnthropicPosting
use forgeant.Provider.OpenAi.Request as OpenAi
use forgeant.Provider.OpenAi.Posting as OpenAiPosting

-- `chat` of each provider throws without a post exactly where the request has a schema that is an
-- object whose `type` is no text; otherwise it posts the request once, as `serialize_request` writes
-- it, to the endpoint with the headers of the provider, and gives what is read from the response, or
-- the exception of the client.
pub chats-posted :
    {W : Type 0} (p : Platform) (http : HttpClient W) (config : ProviderConfig)
    (conv : Conversation) (request : ChatRequest) (w : W)
    → (Anthropic.chat p http config conv request w ≡ (
        if is_refused request.output_schema
        then (throw bad_variant_access, w)
        else AnthropicPosting.posted p http config
            (Anthropic.serialize_request config conv request null).1
            w))
      × (OpenAi.chat p http config conv request w ≡ (
          if is_refused request.output_schema
          then (throw bad_variant_access, w)
          else OpenAiPosting.posted p http config
              (OpenAi.serialize_request p config conv request null).1
              w))
chats-posted p http config conv request w = (
  AnthropicPosting.chat-posted p http config conv request w,
  OpenAiPosting.chat-posted p http config conv request w,
)
