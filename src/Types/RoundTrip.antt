-- ===== src/Types/RoundTrip.antt =====
-- Messages and conversations are read back as they were written.
use mathlib.Core.List.{append-nil, append_assoc}
use forgeant.Prelude.{String, ◌≡◌, refl, ◌∙◌, Option, none, some, List, [], ◌∷◌, ◌++◌, map}
use forgeant.Outcome.{ok}
use forgeant.Json.{Json, null, string, array, object, items, insert, Members, end, member}
use forgeant.Json.Lookup.{elements-items}
use forgeant.Json.Update.{for_each}
use forgeant.Json.Update.Laws.{for_each-push_back, for_each-on_key}
use forgeant.Types.Role
use forgeant.Types.Content
use forgeant.Types.Content.{ContentBlock}
use forgeant.Types.Message
use forgeant.Types.Message.{Message, push_block, read_block, get_message}
use forgeant.Types.Conversation
use forgeant.Types.Conversation.{Conversation, write_message, read_message}

-- The JSON of one block, of a role and of one message.
abbrev pub block_json : ContentBlock → Json
block_json block = (Content.to_json block null).1

abbrev pub role_json : Role.Role → Json
role_json role = (Role.to_json role null).1

abbrev pub message_json : Message → Json
message_json msg = object (
    member "content" (array (items (map block_json msg.content)))
      (member "role" (role_json msg.role) end))

push_blocks :
    (blocks : List ContentBlock) (ys : List Json)
    → for_each blocks push_block (array (items ys))
      ≡ (ok tt, array (items (ys ++ map block_json blocks)))
unfolding push_block
push_blocks = for_each-push_back block_json

to_json-role : (role : Role.Role) (j : Json) → Role.to_json role j ≡ (ok tt, role_json role)
unfolding Role.to_json
to_json-role Role.system j = refl
to_json-role _ j = refl

-- `to_json` of a message throws nothing and leaves an object of two keys, whatever was there.
pub to_json-message : (msg : Message) (j : Json) → Message.to_json msg j ≡ (ok tt, message_json msg)
unfolding Message.to_json
to_json-message msg j = simp (to_json-role, push_blocks msg.content [])

read_blocks :
    (blocks : List ContentBlock) (msg : Message)
    → for_each (map block_json blocks) read_block msg
      ≡ (ok tt, record msg { content = msg.content ++ blocks })
unfolding for_each read_block
read_blocks [] msg = rw append-nil
read_blocks (b ∷ bs) msg =
    rw (Content.from_json-to_json b null)
      (read_blocks bs (record msg { content = msg.content ++ b ∷ [] }) ∙ rw append_assoc)

-- `to_json` and then `from_json` of a message give the message, whatever the reader held before.
pub from_json-to_json_message :
    (msg old : Message) (j : Json) → Message.from_json (Message.to_json msg j).1 old ≡ (ok tt, msg)
unfolding Message.from_json
from_json-to_json_message msg old j = rw (to_json-message msg j) (
    rw (Role.from_json-to_json msg.role null)
      (rw elements-items (read_blocks msg.content (record { role = msg.role; content = [] }))))

-- The JSON of a message, as it is added to an array, and the keys behind `messages`.
abbrev pub written : Message → Json
written msg = (Message.to_json msg null).1

abbrev pub prompt_members : Option String → Members
prompt_members none = end
prompt_members (some prompt) = member "system_prompt" (string prompt) end

-- `to_json` of a conversation throws nothing: `messages` holds every message in order, and
-- `system_prompt` is there exactly if the conversation has one.
pub to_json-conversation :
    (conv : Conversation) (j : Json)
    → Conversation.to_json conv j ≡ (
      ok tt,
      object (
          insert "messages"
            (array (items (map written conv.messages)))
            (prompt_members conv.system_prompt)),
    )
unfolding Conversation.to_json
to_json-conversation conv j = go conv.system_prompt conv.messages
  where
    go :
        (prompt : Option String) (messages : List Message)
        → Conversation.to_json (record { system_prompt = prompt; messages = messages }) j ≡ (
          ok tt,
          object (insert "messages" (array (items (map written messages))) (prompt_members prompt)),
        )
    go none messages = for_each-on_key written "messages" messages [] end
    go (some prompt) messages =
        for_each-on_key written "messages" messages [] (member "system_prompt" (string prompt) end)

read_messages :
    (messages : List Message) (conv : Conversation)
    → for_each (map written messages) read_message conv
      ≡ (ok tt, record conv { messages = conv.messages ++ messages })
unfolding for_each read_message get_message
read_messages [] conv = rw append-nil
read_messages (m ∷ ms) conv =
    rw (from_json-to_json_message m Message.default null)
      (read_messages ms (record conv { messages = conv.messages ++ m ∷ [] }) ∙ rw append_assoc)

-- The prompt that a reader has after `from_json`.
abbrev pub prompt_after : Option String → Option String → Option String
prompt_after none old = old
prompt_after (some prompt) old = some prompt

-- `from_json` after `to_json` adds the messages behind those that the reader has, in order, and
-- replaces its system prompt exactly if the conversation has one.
pub from_json-to_json_conversation :
    (conv start : Conversation) (j : Json)
    → Conversation.from_json (Conversation.to_json conv j).1 start ≡ (
      ok tt,
      record {
        system_prompt = prompt_after conv.system_prompt start.system_prompt;
        messages = start.messages ++ conv.messages;
      },
    )
unfolding Conversation.from_json insert
from_json-to_json_conversation conv start j =
    rw (to_json-conversation conv j) (go conv.system_prompt conv.messages)
  where
    go :
        (prompt : Option String) (messages : List Message)
        → Conversation.from_json
            (object
              (insert "messages" (array (items (map written messages))) (prompt_members prompt)))
            start
          ≡ (
            ok tt,
            record {
              system_prompt = prompt_after prompt start.system_prompt;
              messages = start.messages ++ messages;
            },
          )
    go none messages = rw elements-items (read_messages messages start)
    go (some prompt) messages =
        rw elements-items (read_messages messages (record start { system_prompt = some prompt }))
