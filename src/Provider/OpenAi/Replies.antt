-- ===== src/Provider/OpenAi/Replies.antt =====
-- What is read back from an OpenAI response whose message is written as the requests write theirs.
use forgeant.Prelude.{
  String, ◌≡◌, refl, Bool-cases, inl, inr, List, [], ◌∷◌, ◌++◌, ◌==◌, if◌then◌else◌, All,
}
use forgeant.Prelude.Int.{ℤ, wrap_int}
use forgeant.Outcome.{Outcome, ok, throw, Outcome-cases}
use forgeant.Platform.{Platform}
use forgeant.Json.{Json, null, string, integer, array, object, items, object_of, end, member}
use forgeant.Json.Text.{dump, parse}
use forgeant.Json.Lookup.{elements-items}
use forgeant.Types.Role
use forgeant.Types.Content.{
  ContentBlock, ToolUseBlock, text_block, tool_use_block, tool_result_block,
}
use forgeant.Types.Message.{Message}
use forgeant.Provider.{LlmResponse}
use forgeant.Provider.OpenAi.{read_tool_call, read_tool_calls, deserialize_response}
use forgeant.Types.Texts.{last_block_text}
use forgeant.Provider.OpenAi.Request.{serialize_message}
use forgeant.Provider.OpenAi.Laws.{
  call_json, calls, message_json, message_members, role_name, serialize_message-json,
}

-- The input of a call is read back from its text.
abbrev pub Reparses : Platform → ContentBlock → Type 0
Reparses p (tool_use_block call) = parse p (dump p call.input) ≡ ok call.input
Reparses p (text_block _) = Unit
Reparses p (tool_result_block _) = Unit

-- The input of a call as it comes back: what its text parses to, or the text itself if it is refused.
abbrev pub parsed_or_raw : String → Outcome Json → Json
parsed_or_raw text (ok args) = args
parsed_or_raw text (throw _) = object (member "_raw" (string text) end)

abbrev pub reread : Platform → ToolUseBlock → ToolUseBlock
reread p call = record call {
  input = parsed_or_raw (dump p call.input) (parse p (dump p call.input));
}

-- The tool calls of a message, and as they come back.
abbrev pub tool_uses : List ContentBlock → List ContentBlock
tool_uses [] = []
tool_uses (tool_use_block call ∷ blocks) = tool_use_block call ∷ tool_uses blocks
tool_uses (text_block _ ∷ blocks) = tool_uses blocks
tool_uses (tool_result_block _ ∷ blocks) = tool_uses blocks

abbrev pub reread_uses : Platform → List ContentBlock → List ContentBlock
reread_uses p [] = []
reread_uses p (tool_use_block call ∷ blocks) = tool_use_block (reread p call) ∷ reread_uses p blocks
reread_uses p (text_block _ ∷ blocks) = reread_uses p blocks
reread_uses p (tool_result_block _ ∷ blocks) = reread_uses p blocks

-- No block for a text that is empty.
abbrev pub text_blocks : String → List ContentBlock
text_blocks text = if text == "" then [] else text_block (record { text = text }) ∷ []

module _ (p : Platform) where
  read_tool_call-call_json :
      (call : ToolUseBlock)
      → read_tool_call p (call_json p call) ≡ ok (tool_use_block (reread p call))
  unfolding read_tool_call object_of
  read_tool_call-call_json call = elim (Outcome-cases (parse p (dump p call.input))) [
    | inl (args, h) ↦ rw h refl
    | inr (e, h) ↦ rw h refl
  ]

  read_tool_calls-cons :
      (x : Json) (xs : List Json) (block : ContentBlock) (blocks : List ContentBlock)
      → read_tool_call p x ≡ ok block
      → read_tool_calls p xs ≡ ok blocks
      → read_tool_calls p (x ∷ xs) ≡ ok (block ∷ blocks)
  unfolding read_tool_calls
  read_tool_calls-cons x xs block blocks h t = rw (h, t) refl

  read_tool_calls-calls :
      (blocks : List ContentBlock) → read_tool_calls p (calls p blocks) ≡ ok (reread_uses p blocks)
  unfolding read_tool_calls
  read_tool_calls-calls [] = refl
  read_tool_calls-calls (text_block _ ∷ blocks) = read_tool_calls-calls blocks
  read_tool_calls-calls (tool_result_block _ ∷ blocks) = read_tool_calls-calls blocks
  read_tool_calls-calls (tool_use_block call ∷ blocks) =
      read_tool_calls-cons (call_json p call) (calls p blocks) _ _ (read_tool_call-call_json call)
        (read_tool_calls-calls blocks)

  -- Where each input is read back, the calls come back as they were.
  reread_uses-tool_uses :
      (blocks : List ContentBlock)
      → All (Reparses p) blocks
      → reread_uses p blocks ≡ tool_uses blocks
  reread_uses-tool_uses [] h = refl
  reread_uses-tool_uses (text_block _ ∷ blocks) h = reread_uses-tool_uses blocks h.1
  reread_uses-tool_uses (tool_result_block _ ∷ blocks) h = reread_uses-tool_uses blocks h.1
  reread_uses-tool_uses (tool_use_block call ∷ blocks) h =
      rw (h.0, reread_uses-tool_uses blocks h.1)

  no_uses : (uses : List ContentBlock) → read_tool_calls p [] ≡ ok uses → [] ≡ uses
  unfolding read_tool_calls
  no_uses uses h = cc

  abbrev pub response_json : Json → String → String → ℤ → ℤ → Json
  response_json message model reason input output = object_of (
      (
        "choices",
        array
            (items (object_of (("finish_reason", string reason) ∷ ("message", message) ∷ []) ∷ [])),
      )
      ∷ ("model", string model)
      ∷ (
        "usage",
        object_of (("prompt_tokens", integer input) ∷ ("completion_tokens", integer output) ∷ []),
      )
      ∷ [])

  deserialize_response-message_json :
      (msg : Message) (model reason : String) (input output : ℤ)
      → deserialize_response p (response_json (message_json p msg) model reason input output)
        ≡ ok (record {
          message = record {
            role = Role.assistant;
            content = reread_uses p msg.content ++ text_blocks (last_block_text msg.content);
          };
          finish_reason = reason;
          usage = record { input_tokens = wrap_int input; output_tokens = wrap_int output };
          model = model;
        })
  unfolding deserialize_response object_of
  deserialize_response-message_json msg model reason input output =
      go (calls p msg.content) (last_block_text msg.content) (read_tool_calls-calls msg.content)
    where
      expected : String → LlmResponse
      expected text = record {
        message = record {
          role = Role.assistant;
          content = reread_uses p msg.content ++ text_blocks text;
        };
        finish_reason = reason;
        usage = record { input_tokens = wrap_int input; output_tokens = wrap_int output };
        model = model;
      }

      response : List Json → String → Json
      response cs text = object_of (
          (
            "choices",
            array (
                items (
                  object_of (
                    ("finish_reason", string reason)
                    ∷ ("message", object (message_members p cs text (role_name p msg.role)))
                    ∷ [])
                  ∷ [])),
          )
          ∷ ("model", string model)
          ∷ (
            "usage",
            object_of
                (("prompt_tokens", integer input) ∷ ("completion_tokens", integer output) ∷ []),
          )
          ∷ [])

      go :
          (cs : List Json) (text : String)
          → read_tool_calls p cs ≡ ok (reread_uses p msg.content)
          → deserialize_response p (response cs text) ≡ ok (expected text)
      go [] text read = rw (← no_uses (reread_uses p msg.content) read)
      go (c ∷ cs) text read = elim (Bool-cases (text == "")) [
        | inl e ↦ rw (e, elements-items, read)
        | inr e ↦ rw (e, elements-items, read) (rw e)
      ]

  -- A response that carries a message as `serialize_message` writes it gives the tool calls of the
  -- message in order, each with what the text of its input parses to, or with that text under `_raw`
  -- where it is refused, and then the text of the message's last text block, unless that is empty, with
  -- the model, the finish reason, and the token counts cut to an `int`.
  pub deserialize_response-serialize_message :
      (msg : Message) (model reason : String) (input output : ℤ)
      → deserialize_response p
          (response_json (serialize_message p msg null).1 model reason input output)
        ≡ ok (record {
          message = record {
            role = Role.assistant;
            content = reread_uses p msg.content ++ text_blocks (last_block_text msg.content);
          };
          finish_reason = reason;
          usage = record { input_tokens = wrap_int input; output_tokens = wrap_int output };
          model = model;
        })
  deserialize_response-serialize_message msg model reason input output =
      rw (serialize_message-json p msg.role msg.content)
        (deserialize_response-message_json msg model reason input output)

  -- Where each input is read back, the tool calls of the message are those of the response.
  pub deserialize_response-tool_uses :
      (msg : Message) (model reason : String) (input output : ℤ)
      → All (Reparses p) msg.content
      → deserialize_response p
          (response_json (serialize_message p msg null).1 model reason input output)
        ≡ ok (record {
          message = record {
            role = Role.assistant;
            content = tool_uses msg.content ++ text_blocks (last_block_text msg.content);
          };
          finish_reason = reason;
          usage = record { input_tokens = wrap_int input; output_tokens = wrap_int output };
          model = model;
        })
  deserialize_response-tool_uses msg model reason input output h =
      rw (← reread_uses-tool_uses msg.content h)
        (deserialize_response-serialize_message msg model reason input output)
