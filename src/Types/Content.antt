-- ===== src/Types/Content.antt =====
-- include/forgeant/types/content.hpp and src/types/content.cpp
use forgeant.Prelude.{
  String, ◌<>◌, ◌≡◌, refl, Bool, false, ◌==◌, if◌then◌else◌, Option, none, some, [], ◌∷◌,
}
use forgeant.Outcome.{Outcome, ok, throw, invalid_argument, ◌>>=◌}
use forgeant.Action.{Action}
use forgeant.Json.{Json, boolean, string, object_of, at, value, get_string, get_boolean, get_json}
use forgeant.Json.Update.{set}

pub record TextBlock : Type 0 where
  pub text : String

pub record ToolUseBlock : Type 0 where
  pub id : String
  pub name : String
  pub input : Json

pub record ToolResultBlock : Type 0 where
  pub tool_use_id : String
  pub content : String
  pub is_error : Bool

-- `std::variant<TextBlock, ToolUseBlock, ToolResultBlock>`
pub data ContentBlock : Type 0 where
  text_block : TextBlock → ContentBlock
  tool_use_block : ToolUseBlock → ContentBlock
  tool_result_block : ToolResultBlock → ContentBlock

-- `std::get_if` at each alternative
abbrev pub as_text : ContentBlock → Option TextBlock
as_text (text_block b) = some b
as_text _ = none

abbrev pub as_tool_use : ContentBlock → Option ToolUseBlock
as_tool_use (tool_use_block b) = some b
as_tool_use _ = none

abbrev pub as_tool_result : ContentBlock → Option ToolResultBlock
as_tool_result (tool_result_block b) = some b
as_tool_result _ = none

unfoldable pub to_json_text : TextBlock → Action Json Unit
unfolding object_of
to_json_text b = set (object_of (("type", string "text") ∷ ("text", string b.text) ∷ []))

unfoldable pub from_json_text : Json → Outcome TextBlock
unfolding at
from_json_text j = do text ← get_string (← at "text" j); ok (record { text = text })

unfoldable pub to_json_tool_use : ToolUseBlock → Action Json Unit
unfolding object_of
to_json_tool_use b = set (
    object_of (
      ("type", string "tool_use")
      ∷ ("id", string b.id)
      ∷ ("name", string b.name)
      ∷ ("input", b.input)
      ∷ []))

unfoldable pub from_json_tool_use : Json → Outcome ToolUseBlock
unfolding at
from_json_tool_use j = do
  id ← get_string (← at "id" j)
  name ← get_string (← at "name" j)
  input ← get_json (← at "input" j)
  ok (record { id = id; name = name; input = input })

unfoldable pub to_json_tool_result : ToolResultBlock → Action Json Unit
unfolding object_of
to_json_tool_result b = set (
    object_of (
      ("type", string "tool_result")
      ∷ ("tool_use_id", string b.tool_use_id)
      ∷ ("content", string b.content)
      ∷ ("is_error", boolean b.is_error)
      ∷ []))

unfoldable pub from_json_tool_result : Json → Outcome ToolResultBlock
unfolding at value
from_json_tool_result j = do
  tool_use_id ← get_string (← at "tool_use_id" j)
  content ← get_string (← at "content" j)
  is_error ← value get_boolean "is_error" false j
  ok (record { tool_use_id = tool_use_id; content = content; is_error = is_error })

unfoldable pub to_json : ContentBlock → Action Json Unit
unfolding to_json_text to_json_tool_use to_json_tool_result
to_json (text_block b) = to_json_text b
to_json (tool_use_block b) = to_json_tool_use b
to_json (tool_result_block b) = to_json_tool_result b

unfoldable pub from_json : Json → Outcome ContentBlock
unfolding from_json_text from_json_tool_use from_json_tool_result
from_json j = do
  type ← get_string (← at "type" j)
  if type == "text"
      then (do b ← from_json_text j; ok (text_block b))
      else if type == "tool_use"
      then (do b ← from_json_tool_use j; ok (tool_use_block b))
      else if type == "tool_result"
      then (do b ← from_json_tool_result j; ok (tool_result_block b))
      else throw (invalid_argument ("unknown content block type: " <> type))

-- A content block is read back as it was written, whatever its fields hold.
pub from_json-to_json : (b : ContentBlock) (j : Json) → from_json (to_json b j).1 ≡ ok b
unfolding from_json to_json
from_json-to_json (text_block b) j = refl
from_json-to_json (tool_use_block b) j = refl
from_json-to_json (tool_result_block b) j = refl
