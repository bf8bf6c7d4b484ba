-- ===== src/Tests/Data.antt =====
-- A platform, a tool, a scripted provider and an agent for the tests. The world counts the calls of
-- the provider.
use forgeant.Prelude.{ℕ, zero, suc, String, some, [], ◌∷◌, ◌==◌, if◌then◌else◌}
use forgeant.Prelude.Int.{pos}
use forgeant.Outcome.{Outcome, ok, throw, runtime_error}
use forgeant.Platform.{Platform, Generic, ReadResult}
use forgeant.Json.{Json, null, string, empty_object, get_string}
use forgeant.Types.Role
use forgeant.Types.Content.{text_block, tool_use_block}
use forgeant.Types.Message
use forgeant.Types.Message.{Message}
use forgeant.Types.Conversation.{Conversation}
use forgeant.Tool.{Tool}
use forgeant.Tool.Registry.{ToolRegistry}
use forgeant.Provider.{LlmResponse, LlmProvider}
use forgeant.Agent.{Agent, default_options}

-- A reader that knows one text, and an order of buckets that keeps the order of insertion.
abbrev pub platform : Platform
platform = record {
  read_json =
      λ s. if s == "7" then ReadResult.value (Generic.string "seven") else ReadResult.error "no";
  double_chars = λ d. "0";
  bucket_order = λ names. names;
  bad_variant_what = "std::get: wrong index for variant";
  missing_key_what = "map::at";
}

abbrev pub echo : Tool ℕ
echo = record {
  name = "echo";
  description = "says it again";
  parameters = empty_object;
  execute = λ args w. (ok (string "done"), w);
}

abbrev pub failing : Tool ℕ
failing = record {
  name = "fail";
  description = "never works";
  parameters = empty_object;
  execute = λ args w. (throw (runtime_error "broken tool"), w);
}

abbrev pub registry : ToolRegistry ℕ
registry = record { tools = ("echo", echo) ∷ ("fail", failing) ∷ [] }

abbrev pub call_message : Message
call_message = record {
  role = Role.assistant;
  content =
      text_block (record { text = "let me see" })
      ∷ tool_use_block (record { id = "c1"; name = "echo"; input = null })
      ∷ tool_use_block (record { id = "c2"; name = "fail"; input = null })
      ∷ [];
}

abbrev pub call_response : LlmResponse
call_response = record {
  message = call_message;
  finish_reason = "tool_use";
  usage = record { input_tokens = pos 10; output_tokens = pos 2 };
  model = "m";
}

abbrev pub final_response : String → LlmResponse
final_response text = record {
  message = Message.of_text Role.assistant text;
  finish_reason = "stop";
  usage = record { input_tokens = pos 10; output_tokens = pos 2 };
  model = "m";
}

-- One round of tool calls, an answer that is no JSON, and one that is; then the provider fails.
abbrev pub script : ℕ → Outcome LlmResponse
script zero = ok call_response
script (suc zero) = ok (final_response "hello")
script (suc (suc zero)) = ok (final_response "7")
script (suc (suc (suc n))) = throw (runtime_error "HTTP 500")

abbrev pub provider : LlmProvider ℕ
provider = record { chat = λ conv request w. (script w, suc w) }

abbrev pub agent : Agent ℕ
agent = record { provider = provider; registry = registry; options = default_options }

abbrev pub question : Conversation
question = record {
  system_prompt = some "be brief";
  messages = Message.of_text Role.user "hi" ∷ [];
}

-- `get<std::string>()`
abbrev pub as_text : Json → Outcome String
as_text = get_string
