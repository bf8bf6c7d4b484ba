-- ===== src/Types/Message.antt =====
-- include/forgeant/types/message.hpp and src/types/message.cpp
use forgeant.Prelude.{String, List, [], ◌∷◌, ◌++◌}
use forgeant.Outcome.{Outcome, ok, throw}
use forgeant.Action.{Action, lift, modify, ◌>>=◌, ◌>>◌}
use forgeant.Json.{Json, null, empty_array, empty_object, elements, at, get_items}
use forgeant.Json.Update.{set, on_key, assign, push_back, for_each}
use forgeant.Types.Role
use forgeant.Types.Role.{Role}
use forgeant.Types.Content
use forgeant.Types.Content.{ContentBlock, text_block}

pub record Message : Type 0 where
  pub role : Role
  pub content : List ContentBlock

-- `Message()`
abbrev pub default : Message
default = record { role = Role.user; content = [] }

-- `Message(Role, std::string)`
abbrev pub of_text : Role → String → Message
of_text role text = record { role = role; content = text_block (record { text = text }) ∷ [] }

-- `Json block_json; to_json(block_json, block); content_arr.push_back(block_json);`
unfoldable pub push_block : ContentBlock → Action Json Unit
unfolding push_back Content.to_json
push_block block = push_back (Content.to_json block null).1

unfoldable pub to_json : Message → Action Json Unit
unfolding on_key push_block for_each Role.to_json
to_json msg = do
  set empty_object
  on_key "role" (Role.to_json msg.role)
  let content_arr = (for_each msg.content push_block empty_array).1
  assign "content" content_arr

-- `msg.content.push_back(block_json.get<ContentBlock>())`
unfoldable pub read_block : Json → Action Message Unit
unfolding Content.from_json
read_block block_json = do
  block ← lift (Content.from_json block_json)
  modify (λ msg. record msg { content = msg.content ++ block ∷ [] })

unfoldable pub from_json : Json → Action Message Unit
unfolding at Role.from_json read_block for_each
from_json j = do
  role_json ← lift (at "role" j)
  role ← lift (Role.from_json role_json)
  modify (λ msg. record msg { role = role })
  modify (λ msg. record msg { content = [] })
  content_json ← lift (at "content" j)
  xs ← lift (get_items content_json)
  for_each (elements xs) read_block

abbrev finish : Outcome (Unit {0}) × Message → Outcome Message
finish (ok _, msg) = ok msg
finish (throw e, msg) = throw e

-- `get<Message>()`
unfoldable pub get_message : Json → Outcome Message
unfolding from_json
get_message j = finish (from_json j default)
