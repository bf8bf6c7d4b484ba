-- ===== src/Tests/TypesTests.antt =====
-- Conversations and their JSON.
use forgeant.Prelude.{some, [], ◌∷◌, ◌↔◌, ◌≡◌, refl, ◌++◌}
use forgeant.Outcome.{ok, throw, out_of_range}
use forgeant.Json.{Json, null, string, empty_object, array_of, object_of}
use forgeant.Action.{lift, ◌>>=◌}
use forgeant.Platform.{Platform, ReadResult}
use forgeant.Json.Text.{dump, parse}
use forgeant.Json.Text.Writing.{generic_of}
use forgeant.Types.Message
use forgeant.Types.Conversation
use forgeant.Types.Conversation.{Conversation}
use forgeant.Types.RoundTrip.{from_json-to_json_message, from_json-to_json_conversation}
use forgeant.Types.Reading.{ReadEnds, from_json_iff}
use forgeant.Types.Persisted.{from_json-dump}
use forgeant.Tests.Data.{platform, question, call_message}

question_text :
    dump platform (Conversation.to_json question null).1
    ≡ "{\"messages\":[{\"content\":[{\"text\":\"hi\",\"type\":\"text\"}],\"role\":\"user\"}],\"system_prompt\":\"be brief\"}"
unfolding dump Conversation.to_json
question_text = refl

message_returns :
    Message.from_json (Message.to_json call_message null).1 Message.default ≡ (ok tt, call_message)
message_returns = from_json-to_json_message call_message Message.default null

conversation_example :
    Conversation.from_json (Conversation.to_json question null).1 question
    ≡ (ok tt, record question { messages = question.messages ++ question.messages })
conversation_example = from_json-to_json_conversation question question null

-- A prompt, one message, and an object that is no message.
abbrev broken_json : Json
unfolding object_of array_of Message.to_json
broken_json = object_of (
    ("messages", array_of ((Message.to_json call_message null).1 ∷ empty_object ∷ []))
    ∷ ("system_prompt", string "be long")
    ∷ [])

-- What it leaves: the new prompt, and the message in front of the object.
abbrev half_read : Conversation
half_read = record {
  system_prompt = some "be long";
  messages = question.messages ++ call_message ∷ [];
}

broken_read :
    Conversation.from_json broken_json question
    ≡ (throw (out_of_range "Json::at: key not found: role"), half_read)
unfolding Conversation.from_json broken_json
broken_read = refl

from_json_iff_example :
    (Conversation.from_json broken_json question
      ≡ (throw (out_of_range "Json::at: key not found: role"), half_read))
    ↔ ReadEnds broken_json question (throw (out_of_range "Json::at: key not found: role")) half_read
from_json_iff_example =
    from_json_iff broken_json question (throw (out_of_range "Json::at: key not found: role"))
      half_read

-- A conversation with two tool calls, and a reader that knows its text.
abbrev asked : Conversation
asked = record question { messages = question.messages ++ call_message ∷ [] }

abbrev knowing : Platform
knowing = record platform {
  read_json = λ s. ReadResult.value (generic_of (Conversation.to_json asked null).1);
}

from_json-dump_example :
    (lift (parse knowing (dump knowing (Conversation.to_json asked null).1))
        >>= Conversation.from_json)
      Conversation.empty
    ≡ (ok tt, asked)
from_json-dump_example =
    from_json-dump knowing (λ d t. t ≡ knowing.double_chars d) (λ d h. refl) asked
      Conversation.empty ((tt, tt), ((tt, ((tt, (tt, tt)), ((tt, (tt, tt)), tt))), tt))
      (λ t spells. refl)
