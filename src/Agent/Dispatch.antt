-- ===== src/Agent/Dispatch.antt =====
-- What `dispatch_tools` answers: one result for each tool call, in order, whatever the tools do.
use forgeant.Prelude.{String, ◌≡◌, refl, ap, ◌∙◌, false, List, [], ◌∷◌, All}
use forgeant.Outcome.{Outcome, ok, throw}
use forgeant.Platform.{Platform}
use forgeant.Types.Content.{
  ContentBlock, ToolUseBlock, text_block, tool_use_block, tool_result_block,
}
use forgeant.Json.{Json}
use forgeant.Tool.Registry
use forgeant.Tool.Registry.{ToolRegistry}
use forgeant.Agent.{has_tool_use_in, tool_result, dispatch_tools}

-- The ids of the tool calls of a message, and the ids that the blocks of a message answer.
abbrev pub call_ids : List ContentBlock → List String
call_ids [] = []
call_ids (tool_use_block call ∷ blocks) = call.id ∷ call_ids blocks
call_ids (text_block _ ∷ blocks) = call_ids blocks
call_ids (tool_result_block _ ∷ blocks) = call_ids blocks

abbrev pub result_ids : List ContentBlock → List String
result_ids [] = []
result_ids (tool_result_block result ∷ blocks) = result.tool_use_id ∷ result_ids blocks
result_ids (text_block _ ∷ blocks) = result_ids blocks
result_ids (tool_use_block _ ∷ blocks) = result_ids blocks

abbrev pub IsResult : ContentBlock → Type 0
IsResult (tool_result_block _) = Unit
IsResult _ = ⊥

pub call_ids-nil :
    (blocks : List ContentBlock) → has_tool_use_in blocks ≡ false → call_ids blocks ≡ []
unfolding has_tool_use_in
call_ids-nil [] h = refl
call_ids-nil (tool_use_block _ ∷ blocks) h = cc
call_ids-nil (text_block _ ∷ blocks) h = call_ids-nil blocks h
call_ids-nil (tool_result_block _ ∷ blocks) h = call_ids-nil blocks h

pub call_ids-results : (blocks : List ContentBlock) → All IsResult blocks → call_ids blocks ≡ []
call_ids-results [] h = refl
call_ids-results (tool_use_block _ ∷ blocks) h = absurd h.0
call_ids-results (text_block _ ∷ blocks) h = absurd h.0
call_ids-results (tool_result_block _ ∷ blocks) h = call_ids-results blocks h.1

module _ (p : Platform) (call : ToolUseBlock) where
  tool_result-IsResult : (r : Outcome Json) → IsResult (tool_result p call r)
  unfolding tool_result
  tool_result-IsResult (ok output) = tt
  tool_result-IsResult (throw e) = tt

  result_ids-result :
      (r : Outcome Json) (blocks : List ContentBlock)
      → result_ids (tool_result p call r ∷ blocks) ≡ call.id ∷ result_ids blocks
  unfolding tool_result
  result_ids-result (ok output) blocks = refl
  result_ids-result (throw e) blocks = refl

module _ {W : Type 0} (p : Platform) (registry : ToolRegistry W) where
  -- Every block that `dispatch_tools` gives is a tool result, and the ids that they answer are the
  -- ids of the tool calls, each once and in order, whether the tools are known, return or throw.
  pub dispatch_tools-ids :
      (blocks : List ContentBlock) (w : W)
      → All IsResult (dispatch_tools p registry blocks w).0
        × (result_ids (dispatch_tools p registry blocks w).0 ≡ call_ids blocks)
  unfolding dispatch_tools
  dispatch_tools-ids [] w = (tt, refl)
  dispatch_tools-ids (text_block _ ∷ blocks) w = dispatch_tools-ids blocks w
  dispatch_tools-ids (tool_result_block _ ∷ blocks) w = dispatch_tools-ids blocks w
  dispatch_tools-ids (tool_use_block call ∷ blocks) w =
      let (r, w') = Registry.execute call.name call.input registry w in
      let ih = dispatch_tools-ids blocks w' in
      (
        (tool_result-IsResult p call r, ih.0),
        result_ids-result p call r _ ∙ ap (λ ids. call.id ∷ ids) ih.1,
      )
