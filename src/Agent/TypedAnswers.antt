-- ===== src/Agent/TypedAnswers.antt =====
-- From `Agent::create` to the value of `run<T>`, over the wire format of each provider.
use mathlib.Core.Path.{subst}
use forgeant.Prelude.{
  ◌+◌, ◌<◌, String, ◌≡◌, refl, sym, true, false, some, [], List, ◌∷◌, ◌++◌, All, length,
}
use forgeant.Prelude.Int.{pos, pos_part, add_int}
use forgeant.Outcome.{Outcome, ok}
use forgeant.Platform.{Platform}
use forgeant.Json.{Json}
use forgeant.Types.Role
use forgeant.Types.Conversation
use forgeant.Types.Conversation.{Conversation}
use forgeant.Types.Texts.{texts, first}
use forgeant.Tool.{Tool}
use forgeant.Http.{HttpClient}
use forgeant.Provider.{LlmResponse, no_usage, accumulate}
use forgeant.Provider.Wire.Closing.{is_untyped}
use forgeant.Provider.Wire.Service.{Scripted}
use forgeant.Agent.{
  Agent, AgentOptions, AgentResult, returned, no_overrides, has_tool_use, prompt_conversation,
}
use forgeant.Agent.Create.{create, make_agent}
use forgeant.Agent.Transcript.{Extends}
use forgeant.Agent.Offers.{with_tools, with_tools-add_all}
use forgeant.Agent.LastText.{extract_last_text-add}
use forgeant.Agent.Typed.{parse_output, run_typed_prompt, execute_typed}
use forgeant.Agent.Answers.{Speaks, create-Recites}
use forgeant.Agent.Script.{used, equipped, equipped-ToolsKeep, execute_loop-script}

-- What a typed run returns after one attempt, whose last answer comes behind `before`; its sums start
-- at zero.
abbrev pub typed_result :
    {T : Type 0} → T → Conversation → List LlmResponse → LlmResponse → AgentResult T
typed_result value before calls final = record {
  output = value;
  conversation = Conversation.add final.message before;
  total_usage = accumulate no_usage (accumulate (used calls no_usage) final.usage);
  iterations = add_int (pos 0) (pos (length calls + 1));
  finish_reason = final.finish_reason;
}

module _ {W T : Type 0} (p : Platform) (left : W → List LlmResponse) (get : Json → Outcome T) where
  -- Over a service that answers each post with the next answer of a script, where the tools leave the
  -- script alone, an agent made by `create` for any of the three names returns the value that the
  -- text of the last answer is read as, without another attempt, if only the answers before it have
  -- tool calls, the cap allows a call for each, and the schema is no object whose `type` is no text.
  pub create-run_typed_prompt :
      (http : HttpClient W) (options : AgentOptions) (tools : List (Tool W)) (schema : Json)
      (prompt : String) (calls : List LlmResponse) (final : LlmResponse) (text : String) (value : T)
      (w : W) {name : String} {read : Json → Outcome LlmResponse}
      → Speaks p name read
      → Scripted left p http read
      → All (λ tool. (args : Json) (w : W) → left (tool.execute args w).1 ≡ left w) tools
      → is_untyped schema ≡ false
      → All (λ response. has_tool_use response.message ≡ true) calls
      → has_tool_use final.message ≡ false
      → final.message.role ≡ Role.assistant
      → first (texts final.message.content) ≡ some text
      → parse_output p get text ≡ ok value
      → length calls < pos_part options.max_iterations
      → left w ≡ calls ++ final ∷ []
      → (agent : Agent W) × (create p (ok http) name options ≡ ok agent)
        × ((before : Conversation) × (w' : W) × Extends
              (prompt_conversation p (with_tools tools agent) prompt no_overrides)
              before
            × (left w' ≡ [])
            × (run_typed_prompt p get (with_tools tools agent) schema prompt no_overrides w
                ≡ (returned (typed_result value before calls final), w')))
  unfolding run_typed_prompt execute_typed
  create-run_typed_prompt http options tools schema prompt calls final text value w speaks service
        keep good all done role says reads enough h =
      let made = create-Recites p left http options speaks service in
      let agent = equipped p left made.0 options tools in
      let kept = equipped-ToolsKeep p left made.0 options tools keep in
      let working = prompt_conversation p agent prompt no_overrides in
      let loop =
        execute_loop-script p left agent (some schema) good made.2 kept working calls final w all
          done enough h in
      let last = extract_last_text-add loop.0 final.message text role says in
      (
        make_agent made.0 options,
        made.1,
        subst
            (λ (ready : Agent W).
              (before : Conversation) × (w' : W) × Extends
                (prompt_conversation p ready prompt no_overrides) before
              × (left w' ≡ [])
              × (run_typed_prompt p get ready schema prompt no_overrides w
                  ≡ (returned (typed_result value before calls final), w')))
            (sym (with_tools-add_all tools (make_agent made.0 options)))
            (loop.0, loop.1, loop.2, loop.3, rw loop.4 (rw last (rw reads refl))),
      )
