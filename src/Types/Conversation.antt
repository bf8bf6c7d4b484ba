-- ===== src/Types/Conversation.antt =====
-- include/forgeant/types/conversation.hpp and src/types/conversation.cpp
use forgeant.Prelude.{String, Option, none, some, List, [], ◌∷◌, ◌++◌, if◌then◌else◌}
use forgeant.Action.{Action, pure, lift, modify, ◌>>=◌, ◌>>◌}
use forgeant.Json.{
  Json, null, string, empty_array, object_of, elements, at, contains, get_items, get_string,
}
use forgeant.Json.Update.{set, on_key, assign, push_back, for_each}
use forgeant.Types.Message
use forgeant.Types.Message.{Message, get_message}

pub record Conversation : Type 0 where
  pub system_prompt : Option String
  pub messages : List Message

-- `Conversation()`
abbrev pub empty : Conversation
empty = record { system_prompt = none; messages = [] }

abbrev pub set_system_prompt : String → Conversation → Conversation
set_system_prompt prompt conv = record conv { system_prompt = some prompt }

abbrev pub add : Message → Conversation → Conversation
add message conv = record conv { messages = conv.messages ++ message ∷ [] }

abbrev pub clear : Conversation → Conversation
clear conv = record conv { messages = [] }

abbrev write_prompt : Option String → Action Json Unit
write_prompt none = pure tt
write_prompt (some prompt) = assign "system_prompt" (string prompt)

unfoldable pub write_message : Message → Action Json Unit
unfolding on_key push_back Message.to_json
write_message msg = on_key "messages" (push_back (Message.to_json msg null).1)

unfoldable pub to_json : Conversation → Action Json Unit
unfolding object_of on_key for_each write_message
to_json conv = do
  set (object_of (("messages", empty_array) ∷ []))
  write_prompt conv.system_prompt
  for_each conv.messages write_message

abbrev pub read_prompt : Json → Action Conversation Unit
read_prompt j = do
  prompt_json ← lift (at "system_prompt" j)
  prompt ← lift (get_string prompt_json)
  modify (set_system_prompt prompt)

-- `conv.add(msg_json.get<Message>())`
unfoldable pub read_message : Json → Action Conversation Unit
unfolding get_message
read_message msg_json = do msg ← lift (get_message msg_json); modify (add msg)

-- The messages are added behind those that `conv` has.
unfoldable pub from_json : Json → Action Conversation Unit
unfolding contains at read_message for_each
from_json j = do
  if contains "system_prompt" j then read_prompt j else pure tt
  messages_json ← lift (at "messages" j)
  xs ← lift (get_items messages_json)
  for_each (elements xs) read_message
