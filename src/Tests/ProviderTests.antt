-- ===== src/Tests/ProviderTests.antt =====
-- Requests and responses of the providers, schemas, and the making of an agent.
use forgeant.Prelude.{◌↔◌, ◌++◌, ◌==◌, if◌then◌else◌, String, ◌≡◌, refl, none, some, [], ◌∷◌, map}
use forgeant.Prelude.Int.{pos, wrap_int}
use forgeant.Outcome.{ok, throw, runtime_error, ◌>>=◌}
use forgeant.Json.{null, string, integer, array, object, items, object_of}
use forgeant.Json.Text.{dump}
use forgeant.Json.Update.Preserves.{Holds}
use forgeant.Types.Role
use forgeant.Types.RoundTrip.{block_json}
use forgeant.Http.{HttpClient}
use forgeant.Provider.{ProviderConfig, ChatRequest}
use forgeant.Provider.Anthropic.{deserialize_response}
use forgeant.Provider.Anthropic.Request.{serialize_request}
use forgeant.Provider.Anthropic.Laws.{
  wire_json, without_results, serialize_request-messages, deserialize_response-content,
}
use forgeant.Provider.OpenAi.Request as OpenAi
use forgeant.Provider.OpenAi.Laws.{conversation_entries, serialize_request-entries}
use forgeant.Provider.OpenAi as Reading
use forgeant.Provider.OpenAi.Replies.{
  reread, reread_uses, tool_uses, text_blocks, response_json,
  deserialize_response-serialize_message, deserialize_response-tool_uses,
}
use forgeant.Json.Text.{parse}
use forgeant.Platform.{Platform, Generic, ReadResult}
use forgeant.Types.Texts.{last_block_text}
use forgeant.Provider.Wire.{read_reply}
use forgeant.Provider.Wire.Replies.{Accepted, read_reply_iff}
use forgeant.Http.{HttpResponse}
use forgeant.Json.{get_string, end, member}
use forgeant.Schema
use forgeant.Schema.{object_schema, string_schema, build}
use forgeant.Schema.Laws.{describe, object_members, describe-object_schema}
use forgeant.Agent.{default_options}
use forgeant.Agent.Create.{create, create-ollama, with_base_url, local_url, keep_options}
use forgeant.Tests.Data.{platform, question, call_message}

abbrev config : ProviderConfig
config = record {
  api_key = "k";
  model = "m";
  base_url = "";
  max_tokens = some (pos 50);
  temperature = none;
}

abbrev request : ChatRequest
request = record { output_schema = some (build object_schema); tools = [] }

openai_text :
    dump platform (OpenAi.serialize_request platform config question request null).1
    ≡ "{\"max_tokens\":50,\"messages\":[{\"content\":\"be brief\",\"role\":\"system\"},{\"content\":\"hi\",\"role\":\"user\"}],\"model\":\"m\",\"response_format\":{\"json_schema\":{\"name\":\"response\",\"schema\":{\"additionalProperties\":false,\"type\":\"object\"},\"strict\":true},\"type\":\"json_schema\"}}"
unfolding dump OpenAi.serialize_request OpenAi.write_lists Schema.builder
openai_text = refl

serialize_request-messages_example :
    Holds "messages"
      (array (items (map wire_json question.messages)))
      (serialize_request config question request null).1
serialize_request-messages_example = serialize_request-messages config question request

deserialize_response-content_example :
    deserialize_response (
      object_of (
        ("content", array (items (map block_json call_message.content)))
        ∷ ("model", string "m")
        ∷ ("stop_reason", string "tool_use")
        ∷ (
          "usage",
          object_of (("input_tokens", integer (pos 7)) ∷ ("output_tokens", integer (pos 3)) ∷ []),
        )
        ∷ []))
    ≡ ok (record {
      message = record { role = Role.assistant; content = without_results call_message.content };
      finish_reason = "tool_use";
      usage = record { input_tokens = wrap_int (pos 7); output_tokens = wrap_int (pos 3) };
      model = "m";
    })
deserialize_response-content_example =
    deserialize_response-content call_message.content "m" "tool_use" (pos 7) (pos 3)

serialize_request-entries_example :
    Holds "messages"
      (array (items (conversation_entries platform question)))
      (OpenAi.serialize_request platform config question request null).1
serialize_request-entries_example = serialize_request-entries platform config question request

describe-object_schema_example :
    describe
      (("title", string_schema.schema) ∷ ("year", string_schema.schema) ∷ [])
      ("title" ∷ [])
      object_schema.schema
    ≡ (
      ok tt,
      object (
          object_members
            (("title", string_schema.schema) ∷ ("year", string_schema.schema) ∷ [])
            ("title" ∷ [])),
    )
describe-object_schema_example =
    describe-object_schema "title" string_schema.schema (("year", string_schema.schema) ∷ [])
      ("title" ∷ [])

-- A client that answers every post with a failure.
abbrev pub client : HttpClient String
client = record {
  post = λ url headers body w.
      (ok (record { status_code = pos 503; headers = []; body = "busy" }), url);
  async_post = λ url headers body w. (throw (runtime_error "unused"), w);
  post_stream = λ url headers body on_chunk w. (throw (runtime_error "unused"), w);
}

create-ollama_run : create platform (ok client) "ollama" default_options ≡ (
    create platform (ok client) "openai" (with_base_url (local_url "") default_options) >>= λ agent.
    ok (keep_options default_options agent))
create-ollama_run = create-ollama platform (ok client) default_options

-- A reader that knows the text of a null.
abbrev null_reader : Platform
null_reader = record platform {
  read_json = λ s. if s == "null" then ReadResult.value Generic.null else ReadResult.error "no";
}

reads_null : parse null_reader (dump null_reader null) ≡ ok null
unfolding parse dump
reads_null = refl

null_response :
    Reading.deserialize_response null_reader (
      response_json null_reader
        (OpenAi.serialize_message null_reader call_message null).1
        "m"
        "tool_calls"
        (pos 7)
        (pos 3))
    ≡ ok (record {
      message = record {
        role = Role.assistant;
        content =
            tool_uses call_message.content ++ text_blocks (last_block_text call_message.content);
      };
      finish_reason = "tool_calls";
      usage = record { input_tokens = wrap_int (pos 7); output_tokens = wrap_int (pos 3) };
      model = "m";
    })
null_response =
    deserialize_response-tool_uses null_reader call_message "m" "tool_calls" (pos 7) (pos 3)
      (tt, (reads_null, (reads_null, tt)))

-- The reader of `platform` refuses the text, which is kept.
raw_input :
    reread platform (record { id = "c1"; name = "echo"; input = null })
    ≡ record { id = "c1"; name = "echo"; input = object (member "_raw" (string "null") end) }
unfolding parse dump
raw_input = refl

deserialize_response-serialize_message_example :
    Reading.deserialize_response platform (
      response_json platform
        (OpenAi.serialize_message platform call_message null).1
        "m"
        "tool_calls"
        (pos 7)
        (pos 3))
    ≡ ok (record {
      message = record {
        role = Role.assistant;
        content =
            reread_uses platform call_message.content
            ++ text_blocks (last_block_text call_message.content);
      };
      finish_reason = "tool_calls";
      usage = record { input_tokens = wrap_int (pos 7); output_tokens = wrap_int (pos 3) };
      model = "m";
    })
deserialize_response-serialize_message_example =
    deserialize_response-serialize_message platform call_message "m" "tool_calls" (pos 7) (pos 3)

abbrev accepted : HttpResponse
accepted = record { status_code = pos 200; headers = []; body = "7" }

accepted_reply : read_reply platform "OpenAI" get_string accepted ≡ ok "seven"
unfolding read_reply
accepted_reply = refl

refused_reply :
    read_reply platform "OpenAI" get_string
      (record accepted { status_code = pos 300; body = "busy" })
    ≡ throw (runtime_error "OpenAI API error (HTTP 300): busy")
unfolding read_reply
refused_reply = refl

read_reply_iff_example :
    (read_reply platform "OpenAI" get_string accepted ≡ ok "seven")
    ↔ Accepted platform get_string accepted "seven"
read_reply_iff_example = read_reply_iff platform "OpenAI" get_string accepted "seven"
