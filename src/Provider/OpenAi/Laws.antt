-- ===== src/Provider/OpenAi/Laws.antt =====
-- What an OpenAI request carries: the entries of `messages`, for every message of a conversation.
use mathlib.Core.List.{append-nil, append_assoc}
use mathlib.Core.Path.{subst}
use forgeant.Double.{Double}
use forgeant.Prelude.{
  String, ◌≡◌, refl, sym, ◌∙◌, value_or, Option, none, some, List, [], ◌∷◌, ◌++◌, ◌==◌,
  if◌then◌else◌,
}
use forgeant.Prelude.Int.{ℤ}
use forgeant.Outcome.{ok}
use forgeant.Action.{continue, lift, ◌>>◌}
use forgeant.Platform.{Platform}
use forgeant.Json.{
  Json, null, string, array, object, items, Members, end, member, find, insert, object_of,
  empty_array,
}
use forgeant.Json.Lookup.{find-insert, append_item-items}
use forgeant.Json.Update.{on_key, for_each, assign, set, push_back}
use forgeant.Json.Update.Laws.{push_back-array, on_key-insert}
use forgeant.Json.Update.Preserves.{
  Holds, Preserves, Preserves-pure, Preserves-lift, Preserves-on_key, Preserves-bind,
  Preserves-for_each,
}
use forgeant.Types.Role
use forgeant.Types.Role.{Role}
use forgeant.Types.Content.{
  ContentBlock, ToolUseBlock, ToolResultBlock, text_block, tool_use_block, tool_result_block,
}
use forgeant.Types.Message.{Message}
use forgeant.Types.Texts.{texts, last, last_block_text, last-cons}
use forgeant.Json.Text.{dump}
use forgeant.Types.Conversation.{Conversation}
use forgeant.Tool.{ToolView}
use forgeant.Provider.{ProviderConfig, ChatRequest}
use forgeant.Provider.Wire.{close_schema}
use forgeant.Provider.OpenAi.Request.{
  write_result, push_results, serialize_call, push_calls, text_content, write_content,
  serialize_message, push_message, write_messages, push_tool, serialize_tool, write_tools,
  write_schema, write_lists, serialize_request,
}

-- The entry for a tool result: `is_error` is not in it.
abbrev pub result_json : ToolResultBlock → Json
result_json result = object (
    member "content" (string result.content)
      (member "role" (string "tool") (member "tool_call_id" (string result.tool_use_id) end)))

abbrev pub results : List ContentBlock → List Json
results [] = []
results (tool_result_block result ∷ blocks) = result_json result ∷ results blocks
results (text_block _ ∷ blocks) = results blocks
results (tool_use_block _ ∷ blocks) = results blocks

push_results-items :
    (blocks : List ContentBlock) (ys : List Json)
    → push_results blocks (array (items ys)) ≡ (ok tt, array (items (ys ++ results blocks)))
unfolding push_results write_result on_key insert
push_results-items [] ys = rw append-nil
push_results-items (text_block _ ∷ blocks) ys = push_results-items blocks ys
push_results-items (tool_use_block _ ∷ blocks) ys = push_results-items blocks ys
push_results-items (tool_result_block result ∷ blocks) ys =
    rw (append_item-items ys (result_json result))
      (push_results-items blocks (ys ++ result_json result ∷ []) ∙ rw append_assoc)

-- The text of a message after the loop over its blocks.
text_content-last :
    (blocks : List ContentBlock) (text : String)
    → text_content text blocks ≡ value_or (last (texts blocks)) text
unfolding text_content
text_content-last [] text = refl
text_content-last (text_block block ∷ blocks) text =
    text_content-last blocks block.text ∙ sym (last-cons block.text (texts blocks) text)
text_content-last (tool_use_block _ ∷ blocks) text = text_content-last blocks text
text_content-last (tool_result_block _ ∷ blocks) text = text_content-last blocks text

module _ (p : Platform) where
  -- The entry of `tool_calls` for a call, its input as a text.
  abbrev pub call_json : ToolUseBlock → Json
  call_json call = object (
      member "function"
        (object
          (member "arguments" (string (dump p call.input)) (member "name" (string call.name) end)))
        (member "id" (string call.id) (member "type" (string "function") end)))

  serialize_call-json : (call : ToolUseBlock) → serialize_call p call ≡ call_json call
  unfolding serialize_call object_of
  serialize_call-json call = refl

  abbrev pub calls : List ContentBlock → List Json
  calls [] = []
  calls (tool_use_block call ∷ blocks) = call_json call ∷ calls blocks
  calls (text_block _ ∷ blocks) = calls blocks
  calls (tool_result_block _ ∷ blocks) = calls blocks

  push_calls-items :
      (blocks : List ContentBlock) (ys : List Json)
      → push_calls p blocks (array (items ys)) ≡ (ok tt, array (items (ys ++ calls blocks)))
  unfolding push_calls
  push_calls-items [] ys = rw append-nil
  push_calls-items (text_block _ ∷ blocks) ys = push_calls-items blocks ys
  push_calls-items (tool_result_block _ ∷ blocks) ys = push_calls-items blocks ys
  push_calls-items (tool_use_block call ∷ blocks) ys =
      rw (serialize_call-json call, append_item-items ys (call_json call))
        (push_calls-items blocks (ys ++ call_json call ∷ []) ∙ rw append_assoc)

  abbrev pub role_name : Role → String
  role_name Role.system = "system"
  role_name Role.user = "user"
  role_name Role.assistant = "assistant"
  role_name Role.tool = "tool"

  abbrev pub message_members : List Json → String → String → Members
  message_members [] text role = member "content" (string text) (member "role" (string role) end)
  message_members (call ∷ rest) text role =
      member "content" (if text == "" then null else string text)
        (member "role" (string role) (member "tool_calls" (array (items (call ∷ rest))) end))

  -- The entry for a message that carries no tool results.
  abbrev pub message_json : Message → Json
  message_json msg =
      object
        (message_members (calls msg.content) (last_block_text msg.content) (role_name msg.role))

  write_content-members :
      (cs : List Json) (text role : String)
      → write_content (array (items cs)) text (object (member "role" (string role) end))
        ≡ (ok tt, object (message_members cs text role))
  unfolding on_key insert
  write_content-members [] text role = refl
  write_content-members (call ∷ rest) text role = refl

  pub serialize_message-json :
      (role : Role) (content : List ContentBlock)
      → serialize_message p (record { role = role; content = content }) null
        ≡ (ok tt, message_json (record { role = role; content = content }))
  unfolding serialize_message on_key insert find Role.to_json
  serialize_message-json role content =
      rw (push_calls-items content [], text_content-last content "") (go role)
    where
      go :
          (r : Role)
          → (do
            on_key "role" (Role.to_json r)
            write_content (array (items (calls content))) (last_block_text content))
              null
            ≡ (
              ok tt,
              object (message_members (calls content) (last_block_text content) (role_name r)),
            )
      go Role.system = write_content-members (calls content) (last_block_text content) "system"
      go Role.user = write_content-members (calls content) (last_block_text content) "user"
      go Role.assistant =
          write_content-members (calls content) (last_block_text content) "assistant"
      go Role.tool = write_content-members (calls content) (last_block_text content) "tool"

  -- The entries for a message.
  abbrev pub entries : Message → List Json
  entries msg = elim msg.role [ Role.tool ↦ results msg.content | _ ↦ message_json msg ∷ [] ]

  abbrev pub all_entries : List Message → List Json
  all_entries [] = []
  all_entries (msg ∷ msgs) = entries msg ++ all_entries msgs

  abbrev pub system_entry : Option String → List Json
  system_entry none = []
  system_entry (some prompt) =
      object (member "content" (string prompt) (member "role" (string "system") end)) ∷ []

  push_message-entries :
      (role : Role) (content : List ContentBlock) (ys : List Json)
      → push_message p (record { role = role; content = content }) (array (items ys))
        ≡ (ok tt, array (items (ys ++ entries (record { role = role; content = content }))))
  unfolding push_message push_back
  push_message-entries role content ys = go role
    where
      one :
          (r : Role)
          → push_back
              (serialize_message p (record { role = r; content = content }) null).1
              (array (items ys))
            ≡ (
              ok tt,
              array (items (ys ++ message_json (record { role = r; content = content }) ∷ [])),
            )
      one r = rw (serialize_message-json r content) (push_back-array ys _)

      go :
          (r : Role)
          → push_message p (record { role = r; content = content }) (array (items ys))
            ≡ (ok tt, array (items (ys ++ entries (record { role = r; content = content }))))
      go Role.system = one Role.system
      go Role.user = one Role.user
      go Role.assistant = one Role.assistant
      go Role.tool = push_results-items content ys

  for_each-push_message :
      (msgs : List Message) (ys : List Json)
      → for_each msgs (push_message p) (array (items ys))
        ≡ (ok tt, array (items (ys ++ all_entries msgs)))
  unfolding for_each
  for_each-push_message [] ys = rw append-nil
  for_each-push_message (msg ∷ msgs) ys =
      rw (push_message-entries msg.role msg.content ys)
        (for_each-push_message msgs (ys ++ entries msg) ∙ rw append_assoc)

  abbrev pub conversation_entries : Conversation → List Json
  conversation_entries conv = system_entry conv.system_prompt ++ all_entries conv.messages

  pub write_messages-entries :
      (prompt : Option String) (msgs : List Message)
      → write_messages p (record { system_prompt = prompt; messages = msgs }) (array (items [])) ≡ (
        ok tt,
        array (items (conversation_entries (record { system_prompt = prompt; messages = msgs }))),
      )
  unfolding write_messages object_of insert
  write_messages-entries none msgs = for_each-push_message msgs []
  write_messages-entries (some prompt) msgs =
      for_each-push_message msgs (system_entry (some prompt))

push_tool-Preserves : (tool : ToolView) → Preserves "messages" (push_tool tool)
unfolding push_tool
push_tool-Preserves tool =
    Preserves-on_key "messages" "tools" (push_back (serialize_tool tool)) refl

write_tools-Preserves : (tools : List ToolView) → Preserves "messages" (write_tools tools)
write_tools-Preserves [] = Preserves-pure "messages" tt
write_tools-Preserves (tool ∷ tools) =
    Preserves-bind "messages" (assign "tools" empty_array) (λ _. for_each (tool ∷ tools) push_tool)
      (Preserves-on_key "messages" "tools" (set empty_array) refl)
      (λ _. Preserves-for_each "messages" (tool ∷ tools) push_tool push_tool-Preserves)

write_schema-Preserves : (schema : Option Json) → Preserves "messages" (write_schema schema)
write_schema-Preserves none = Preserves-pure "messages" tt
write_schema-Preserves (some schema) =
    Preserves-bind "messages" (lift (close_schema schema)) _
      (Preserves-lift "messages" (close_schema schema))
      (λ c.
        Preserves-bind "messages" _ _ (Preserves-on_key "messages" "response_format" _ refl)
          (λ _. Preserves-on_key "messages" "response_format" _ refl))

write_lists-Holds :
    (p : Platform) (conv : Conversation) (request : ChatRequest) (ms : Members)
    → Holds "messages"
        (array (items (conversation_entries p conv)))
        (write_lists p conv request (object ms)).1
unfolding write_lists on_key write_messages
write_lists-Holds p conv request ms =
    subst
      (λ r.
        Holds "messages" (array (items (conversation_entries p conv)))
          (continue r.0 (λ _. write_tools request.tools >> write_schema request.output_schema)
            r.1).1)
      (sym (
        on_key-insert "messages" (write_messages p conv) _ _ ms
          (write_messages-entries p conv.system_prompt conv.messages)))
      ((Preserves-bind "messages" (write_tools request.tools)
          (λ _. write_schema request.output_schema) (write_tools-Preserves request.tools)
          (λ _. write_schema-Preserves request.output_schema)).at
        _ _
        (record {
          members = insert "messages" (array (items (conversation_entries p conv))) ms;
          is_object = refl;
          found = find-insert "messages" "messages" _ ms;
        }))

-- Whatever the configuration, the tools and the schema, `messages` of a request is: the system prompt
-- if there is one; then for each message in order, one entry per tool result where its role is `tool`
-- and else one entry, with its tool calls in order and the text of its last text block alone (null
-- where that is empty and there are calls). This holds also of what is left if the schema is refused.
pub serialize_request-entries :
    (p : Platform) (config : ProviderConfig) (conv : Conversation) (request : ChatRequest)
    → Holds "messages"
        (array (items (conversation_entries p conv)))
        (serialize_request p config conv request null).1
unfolding serialize_request
serialize_request-entries p config conv request = go config.max_tokens config.temperature
  where
    go :
        (tokens : Option ℤ) (temperature : Option Double)
        → Holds "messages"
            (array (items (conversation_entries p conv)))
            (serialize_request p
              (record config { max_tokens = tokens; temperature = temperature })
              conv
              request
              null).1
    go none none = write_lists-Holds p conv request _
    go none (some t) = write_lists-Holds p conv request _
    go (some n) none = write_lists-Holds p conv request _
    go (some n) (some t) = write_lists-Holds p conv request _
