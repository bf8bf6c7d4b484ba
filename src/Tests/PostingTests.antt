-- ===== src/Tests/PostingTests.antt =====
-- `chat` of the two providers over a client that answers every post with a failure.
use forgeant.Prelude.{◌≡◌, refl, true, none, some, [], ◌∷◌, if◌then◌else◌}
use forgeant.Prelude.Int.{pos}
use forgeant.Outcome.{throw, bad_variant_access}
use forgeant.Json.{Json, null, integer, object, member, end, find}
use forgeant.Provider.{ProviderConfig, ChatRequest}
use forgeant.Provider.Wire.Closing.{is_refused}
use forgeant.Provider.Anthropic.Request as Anthropic
use forgeant.Provider.Anthropic.Posting as AnthropicPosting
use forgeant.Provider.OpenAi.Request as OpenAi
use forgeant.Provider.OpenAi.Posting as OpenAiPosting
use forgeant.Provider.Posting.{chats-posted}
use forgeant.Tests.Data.{platform, question, echo}
use forgeant.Tests.ProviderTests.{client}
use forgeant.Tool.{view}

abbrev config : ProviderConfig
config = record {
  api_key = "k";
  model = "m";
  base_url = "http://h";
  max_tokens = none;
  temperature = none;
}

-- A tool, and a schema or none.
abbrev request_with : Json → ChatRequest
request_with schema = record { tools = view echo ∷ []; output_schema = some schema }

abbrev plain : ChatRequest
plain = record { tools = []; output_schema = none }

abbrev bad_schema : Json
bad_schema = object (member "type" (integer (pos 3)) end)

is_refused_run : is_refused (some bad_schema) ≡ true
unfolding find
is_refused_run = refl

chats-posted_example :
    (Anthropic.chat platform client config question (request_with bad_schema) "nobody" ≡ (
      if is_refused (some bad_schema)
      then (throw bad_variant_access, "nobody")
      else AnthropicPosting.posted platform client config
          (Anthropic.serialize_request config question (request_with bad_schema) null).1
          "nobody"))
    × (OpenAi.chat platform client config question (request_with bad_schema) "nobody" ≡ (
        if is_refused (some bad_schema)
        then (throw bad_variant_access, "nobody")
        else OpenAiPosting.posted platform client config
            (OpenAi.serialize_request platform config question (request_with bad_schema) null).1
            "nobody"))
chats-posted_example =
    chats-posted platform client config question (request_with bad_schema) "nobody"

-- The request without a schema is posted: the client leaves the URL as the world.
posts_once :
    (Anthropic.chat platform client config question plain "nobody").1 ≡ "http://h/v1/messages"
unfolding Anthropic.chat
posts_once = refl
