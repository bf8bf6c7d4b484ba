-- ===== src/Provider/Anthropic/Laws.antt =====
-- What an Anthropic request carries, and what is read back from a response.
use mathlib.Core.Path.{fun_ext}
use forgeant.Double.{Double}
use forgeant.Prelude.{String, ◌≡◌, refl, ap, Option, none, some, List, [], ◌∷◌, map}
use forgeant.Prelude.Int.{ℤ, wrap_int}
use forgeant.Outcome.{Outcome, ok}
use forgeant.Action.{lift}
use forgeant.Json.{
  Json, null, string, integer, array, object, items, Members, end, member, insert, object_of,
  empty_array,
}
use forgeant.Json.Lookup.{find-insert, elements-items}
use forgeant.Json.Update.{for_each, assign, set, push_back}
use forgeant.Json.Update.Laws.{for_each-on_key}
use forgeant.Json.Update.Preserves.{
  Holds, Preserves, Preserves-pure, Preserves-lift, Preserves-on_key, Preserves-bind,
  Preserves-for_each,
}
use forgeant.Types.Role.{Role}
use forgeant.Types.Content
use forgeant.Types.Content.{ContentBlock, text_block, tool_use_block, tool_result_block}
use forgeant.Types.Message.{Message}
use forgeant.Types.Conversation.{Conversation}
use forgeant.Types.RoundTrip.{block_json}
use forgeant.Tool.{ToolView}
use forgeant.Provider.{ProviderConfig, ChatRequest}
use forgeant.Provider.Wire.{close_schema}
use forgeant.Provider.Anthropic.{serialize_tool, read_blocks, deserialize_response}
use forgeant.Provider.Anthropic.Request.{
  write_message, push_tool, write_tools, write_schema, write_lists, serialize_request,
}

push_tool-Preserves : (tool : ToolView) → Preserves "messages" (push_tool tool)
unfolding push_tool
push_tool-Preserves tool =
    Preserves-on_key "messages" "tools" (push_back (serialize_tool tool)) refl

write_tools-Preserves : (tools : List ToolView) → Preserves "messages" (write_tools tools)
write_tools-Preserves [] = Preserves-pure "messages" tt
write_tools-Preserves (tool ∷ tools) =
    Preserves-bind "messages" (assign "tools" empty_array) (λ _. for_each (tool ∷ tools) push_tool)
      (Preserves-on_key "messages" "tools" (set empty_array) refl)
      (λ _. Preserves-for_each "messages" (tool ∷ tools) push_tool push_tool-Preserves)

write_schema-Preserves : (schema : Option Json) → Preserves "messages" (write_schema schema)
write_schema-Preserves none = Preserves-pure "messages" tt
write_schema-Preserves (some schema) =
    Preserves-bind "messages" (lift (close_schema schema)) _
      (Preserves-lift "messages" (close_schema schema))
      (λ c.
        Preserves-bind "messages" _ _ (Preserves-on_key "messages" "output_config" _ refl)
          (λ _. Preserves-on_key "messages" "output_config" _ refl))

-- The JSON of a message in a request.
abbrev pub wire_message : Message → Json
wire_message msg = (write_message msg null).1

write_lists-Holds :
    (conv : Conversation) (request : ChatRequest) (ms : Members)
    → Holds "messages"
        (array (items (map wire_message conv.messages)))
        (write_lists conv request (object ms)).1
unfolding write_lists
write_lists-Holds conv request ms =
    rw (for_each-on_key wire_message "messages" conv.messages [] ms) (
      (Preserves-bind "messages" (write_tools request.tools)
          (λ _. write_schema request.output_schema) (write_tools-Preserves request.tools)
          (λ _. write_schema-Preserves request.output_schema)).at
        _ _
        (record {
          members = insert "messages" (array (items (map wire_message conv.messages))) ms;
          is_object = refl;
          found = find-insert "messages" "messages" _ ms;
        }))

-- The role of a message on the wire: `user` for tool results, and else its own name.
abbrev pub wire_role : Role → String
wire_role Role.system = "system"
wire_role Role.user = "user"
wire_role Role.assistant = "assistant"
wire_role Role.tool = "user"

abbrev pub wire_json : Message → Json
wire_json msg = object (
    member "content" (array (items (map block_json msg.content)))
      (member "role" (string (wire_role msg.role)) end))

wire_message-role :
    (role : Role) (content : List ContentBlock)
    → wire_message (record { role = role; content = content })
      ≡ wire_json (record { role = role; content = content })
unfolding write_message
wire_message-role role content = go role
  where
    second : Outcome (Unit {0}) × Json → Json
    second r = r.1

    role_member : String → Members
    role_member role = member "role" (string role) end

    go :
        (r : Role)
        → wire_message (record { role = r; content = content })
          ≡ wire_json (record { role = r; content = content })
    go Role.system =
        ap second (for_each-on_key block_json "content" content [] (role_member "system"))
    go Role.user = ap second (for_each-on_key block_json "content" content [] (role_member "user"))
    go Role.assistant =
        ap second (for_each-on_key block_json "content" content [] (role_member "assistant"))
    go Role.tool = ap second (for_each-on_key block_json "content" content [] (role_member "user"))

-- Whatever the configuration, the tools and the schema, `messages` of a request holds one entry for
-- each message, in order: its content blocks as `to_json` writes them, and its role, which is `user`
-- for a message of tool results. This holds also of the body that is left if the schema is refused.
pub serialize_request-messages :
    (config : ProviderConfig) (conv : Conversation) (request : ChatRequest)
    → Holds "messages"
        (array (items (map wire_json conv.messages)))
        (serialize_request config conv request null).1
unfolding serialize_request
serialize_request-messages config conv request =
    rw (← fun_ext (λ (msg : Message). wire_message-role msg.role msg.content))
      (go conv.system_prompt config.temperature)
  where
    go :
        (prompt : Option String) (temperature : Option Double)
        → Holds "messages"
            (array (items (map wire_message conv.messages)))
            (serialize_request
              (record config { temperature = temperature })
              (record conv { system_prompt = prompt })
              request
              null).1
    go none none = write_lists-Holds (record conv { system_prompt = none }) request _
    go none (some t) = write_lists-Holds (record conv { system_prompt = none }) request _
    go (some prompt) none =
        write_lists-Holds (record conv { system_prompt = some prompt }) request _
    go (some prompt) (some t) =
        write_lists-Holds (record conv { system_prompt = some prompt }) request _

-- The blocks that a model sends: tool results are not among them.
abbrev pub without_results : List ContentBlock → List ContentBlock
without_results [] = []
without_results (tool_result_block _ ∷ blocks) = without_results blocks
without_results (text_block block ∷ blocks) = text_block block ∷ without_results blocks
without_results (tool_use_block call ∷ blocks) = tool_use_block call ∷ without_results blocks

read_blocks-block_json :
    (blocks : List ContentBlock) → read_blocks (map block_json blocks) ≡ ok (without_results blocks)
unfolding read_blocks Content.to_json
read_blocks-block_json [] = refl
read_blocks-block_json (text_block block ∷ blocks) = rw (read_blocks-block_json blocks)
read_blocks-block_json (tool_use_block call ∷ blocks) = rw (read_blocks-block_json blocks)
read_blocks-block_json (tool_result_block _ ∷ blocks) = rw (read_blocks-block_json blocks)

-- A response whose content is written by `to_json` is read back: the text and tool-use blocks in
-- order, tool results dropped, the model, the stop reason, and the token counts cut to an `int`.
pub deserialize_response-content :
    (blocks : List ContentBlock) (model reason : String) (input output : ℤ)
    → deserialize_response (
        object_of (
          ("content", array (items (map block_json blocks)))
          ∷ ("model", string model)
          ∷ ("stop_reason", string reason)
          ∷ (
            "usage",
            object_of (("input_tokens", integer input) ∷ ("output_tokens", integer output) ∷ []),
          )
          ∷ []))
      ≡ ok (record {
        message = record { role = Role.assistant; content = without_results blocks };
        finish_reason = reason;
        usage = record { input_tokens = wrap_int input; output_tokens = wrap_int output };
        model = model;
      })
unfolding deserialize_response object_of
deserialize_response-content blocks model reason input output =
    rw elements-items (rw (read_blocks-block_json blocks))
