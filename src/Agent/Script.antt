-- ===== src/Agent/Script.antt =====
-- A run of the loop over the answers of a script, and agents of which only the tools were added.
use forgeant.Prelude.{
  Option, ◌+◌, ◌<◌, String, ◌≡◌, refl, sym, ◌∙◌, true, false, [], List, ◌∷◌, ◌++◌, All, length, ap,
  arith, Bool-cases, inl, inr, ◌==◌,
}
use forgeant.Prelude.Int.{pos, pos_part}
use forgeant.Platform.{Platform}
use forgeant.Json.{Json}
use forgeant.Types.Conversation
use forgeant.Types.Conversation.{Conversation}
use forgeant.Tool.{Tool}
use forgeant.Tool.Registry
use forgeant.Tool.Registry.Series.{add_all, first_named, call_tool, execute-add_all}
use forgeant.Provider.{LlmResponse, LlmProvider, Usage, no_usage, accumulate}
use forgeant.Provider.Wire.Closing.{is_refused}
use forgeant.Provider.Wire.Service.{Recites}
use forgeant.Agent.{
  Agent, AgentOptions, LoopResult, Run, returned, execute_loop, no_overrides, has_tool_use,
  request_of,
}
use forgeant.Agent.Turns.{
  State, Turns, at_start, one_more, answer, start, RunEnds, execute_loop_iff,
}
use forgeant.Agent.Transcript.{Extends, Turns-Extends}
use forgeant.Agent.Metering.{ToolsKeep, dispatch-keeps}

-- The usage after some responses.
abbrev pub used : List LlmResponse → Usage → Usage
used [] total = total
used (response ∷ rest) total = used rest (accumulate total response.usage)

-- What the loop returns whose last answer comes behind `before`.
abbrev pub final_loop : Conversation → List LlmResponse → LlmResponse → LoopResult
final_loop before calls final = record {
  conversation = Conversation.add final.message before;
  total_usage = accumulate (used calls no_usage) final.usage;
  iterations = pos (length calls + 1);
  finish_reason = final.finish_reason;
}

module _ {W : Type 0} (p : Platform) (left : W → List LlmResponse) where
  module _ (agent : Agent W) (schema : Option Json) (good : is_refused schema ≡ false)
      (recites : Recites left agent.provider) (keep : ToolsKeep agent left) where
    -- Each response with tool calls that is left is one turn of the loop.
    pub script-Turns :
        (calls later : List LlmResponse) (s : State W)
        → All (λ response. has_tool_use response.message ≡ true) calls
        → left s.world ≡ calls ++ later
        → (t : State W) × Turns p agent (request_of p agent schema) (length calls) s t
          × (left t.world ≡ later)
          × (t.usage ≡ used calls s.usage)
    script-Turns [] later s all h = (s, at_start, h, refl)
    script-Turns (response ∷ calls) later s all h =
        let chats =
          recites.at s.conversation (request_of p agent schema) s.world response (calls ++ later)
            good h in
        let rest =
          script-Turns calls later _ all.1
            (dispatch-keeps p agent left keep response.message.content chats.0 ∙ chats.2) in
        (
          rest.0,
          one_more
              (record {
                response = response;
                world = chats.0;
                answers = chats.1;
                calls = all.0;
                leads_to = refl;
              })
              rest.1,
          rest.2,
          rest.3,
        )

    -- A run of the loop over the script: each response but the last has tool calls.
    pub execute_loop-script :
        (working : Conversation) (calls : List LlmResponse) (final : LlmResponse) (w : W)
        → All (λ response. has_tool_use response.message ≡ true) calls
        → has_tool_use final.message ≡ false
        → length calls < pos_part agent.options.max_iterations
        → left w ≡ calls ++ final ∷ []
        → (before : Conversation) × (w' : W) × Extends working before
          × (left w' ≡ [])
          × (execute_loop p agent working no_overrides schema w
              ≡ (returned (final_loop before calls final), w'))
    execute_loop-script working calls final w all done enough h =
        let turns = script-Turns calls (final ∷ []) (start working w) all h in
        let t = turns.0 in
        let chats =
          recites.at t.conversation (request_of p agent schema) t.world final [] good turns.2 in
        let result : Run LoopResult × W =
          (returned (final_loop t.conversation calls final), chats.0) in
        let ends : RunEnds p agent working no_overrides schema w result =
          answer (length calls) t final chats.0 enough turns.1 chats.1 done
            (rw turns.3 (rw (let h : 0 + length calls ≡ length calls = omega arith in h) refl)) in
        (
          t.conversation,
          chats.0,
          Turns-Extends p agent (request_of p agent schema) turns.1,
          chats.2,
          sym ((execute_loop_iff p agent working no_overrides schema w result).0 ends),
        )

  -- What the tools keep, the registry keeps.
  call_tool-keeps :
      (tools : List (Tool W)) (name : String) (args : Json) (w : W)
      → All (λ tool. (args : Json) (w : W) → left (tool.execute args w).1 ≡ left w) tools
      → left (call_tool name (first_named name tools) args w).1 ≡ left w
  call_tool-keeps [] name args w keep = refl
  call_tool-keeps (tool ∷ tools) name args w keep = elim (Bool-cases (name == tool.name)) [
    | inl e ↦ rw e (keep.0 args w)
    | inr e ↦ rw e (call_tool-keeps tools name args w keep.1)
  ]

  -- An agent of which only the tools were added.
  abbrev pub equipped : LlmProvider W → AgentOptions → List (Tool W) → Agent W
  equipped provider options tools = record {
    provider = provider;
    registry = add_all tools Registry.empty;
    options = options;
  }

  pub equipped-ToolsKeep :
      (provider : LlmProvider W) (options : AgentOptions) (tools : List (Tool W))
      → All (λ tool. (args : Json) (w : W) → left (tool.execute args w).1 ≡ left w) tools
      → ToolsKeep (equipped provider options tools) left
  equipped-ToolsKeep provider options tools keep name args w =
      ap (λ r. left r.1) (execute-add_all name args tools w)
      ∙ call_tool-keeps tools name args w keep
