-- ===== src/Agent/Answers.antt =====
-- From `Agent::create` to the result of `run`, over the wire format of each provider.
use mathlib.Core.Path.{subst}
use forgeant.Prelude.{
  ◌+◌, ◌<◌, String, ◌≡◌, refl, sym, true, false, none, [], List, ◌∷◌, ◌++◌, All, length,
}
use forgeant.Prelude.Int.{pos, pos_part}
use forgeant.Outcome.{Outcome, ok}
use forgeant.Platform.{Platform}
use forgeant.Json.{Json}
use forgeant.Types.Conversation
use forgeant.Types.Conversation.{Conversation}
use forgeant.Tool.{Tool}
use forgeant.Http.{HttpClient}
use forgeant.Provider.{LlmResponse, LlmProvider, no_usage, accumulate}
use forgeant.Provider.Wire.Service.{Scripted, Recites}
use forgeant.Provider.Anthropic
use forgeant.Provider.Anthropic.Request as AnthropicRequest
use forgeant.Provider.Anthropic.Script as AnthropicScript
use forgeant.Provider.OpenAi
use forgeant.Provider.OpenAi.Request as OpenAiRequest
use forgeant.Provider.OpenAi.Script as OpenAiScript
use forgeant.Agent.{
  Agent, AgentOptions, AgentResult, returned, no_overrides, has_tool_use, execute_text, run_prompt,
  prompt_conversation, extract_last_text,
}
use forgeant.Agent.Create.{create, make_agent, config_of, local_config}
use forgeant.Agent.Transcript.{Extends}
use forgeant.Agent.Metering.{ToolsKeep}
use forgeant.Agent.Offers.{with_tools, with_tools-add_all}
use forgeant.Agent.LastText.{IsLastText, extract_last_text-IsLastText}
use forgeant.Agent.Script.{used, execute_loop-script, equipped, equipped-ToolsKeep}

-- The names that `create` knows, each with the reader of its wire format.
pub data Speaks (p : Platform) : String → (Json → Outcome LlmResponse) → Type 0 where
  anthropic : Speaks p "anthropic" Anthropic.deserialize_response
  openai : Speaks p "openai" (OpenAi.deserialize_response p)
  ollama : Speaks p "ollama" (OpenAi.deserialize_response p)

-- What a run returns with `text` whose last answer comes behind `before`.
abbrev pub final_result :
    String → Conversation → List LlmResponse → LlmResponse → AgentResult String
final_result text before calls final = record {
  output = text;
  conversation = Conversation.add final.message before;
  total_usage = accumulate (used calls no_usage) final.usage;
  iterations = pos (length calls + 1);
  finish_reason = final.finish_reason;
}

module _ {W : Type 0} (p : Platform) (left : W → List LlmResponse) where
  -- A run over the script: each response but the last has tool calls.
  execute_text-script :
      (agent : Agent W) (working : Conversation) (calls : List LlmResponse) (final : LlmResponse)
      (w : W)
      → Recites left agent.provider
      → ToolsKeep agent left
      → All (λ response. has_tool_use response.message ≡ true) calls
      → has_tool_use final.message ≡ false
      → length calls < pos_part agent.options.max_iterations
      → left w ≡ calls ++ final ∷ []
      → (before : Conversation) × (text : String) × (w' : W) × Extends working before
        × IsLastText (before.messages ++ final.message ∷ []) text
        × (left w' ≡ [])
        × (execute_text p agent working no_overrides w
            ≡ (returned (final_result text before calls final), w'))
  unfolding execute_text
  execute_text-script agent working calls final w recites keep all done enough h =
      let t =
        execute_loop-script p left agent none refl recites keep working calls final w all done
          enough h in
      let conversation = Conversation.add final.message t.0 in
      (
        t.0,
        extract_last_text conversation,
        t.1,
        t.2,
        extract_last_text-IsLastText conversation,
        t.3,
        rw t.4 refl,
      )

  -- Each name makes a provider that gives the script.
  pub create-Recites :
      (http : HttpClient W) (options : AgentOptions) {name : String}
      {read : Json → Outcome LlmResponse}
      → Speaks p name read
      → Scripted left p http read
      → (provider : LlmProvider W) × (create p (ok http) name options
          ≡ ok (make_agent provider options))
        × Recites left provider
  unfolding create
  create-Recites http options anthropic service = (
    AnthropicRequest.provider p http (config_of options),
    refl,
    AnthropicScript.provider-Recites p http left service (config_of options),
  )
  create-Recites http options openai service = (
    OpenAiRequest.provider p http (config_of options),
    refl,
    OpenAiScript.provider-Recites p http left service (config_of options),
  )
  create-Recites http options ollama service = (
    OpenAiRequest.provider p http (local_config (config_of options)),
    refl,
    OpenAiScript.provider-Recites p http left service (local_config (config_of options)),
  )

  -- Over a service that answers each post with the next answer of a script, where the tools leave the
  -- script alone, `create` gives an agent for each of the three names, and once tools are added, its
  -- run of a prompt returns, if every answer but the last has tool calls and the cap allows a call
  -- for each. The script is used up, and the result has the last answer behind a conversation that
  -- extends the prompt, with the finish reason of that answer, the usage of all answers, and one
  -- iteration for each. Its output is the first text block of the last assistant message of this
  -- conversation that has one, and empty if none has.
  pub create-run_prompt :
      (http : HttpClient W) (options : AgentOptions) (tools : List (Tool W)) (prompt : String)
      (calls : List LlmResponse) (final : LlmResponse) (w : W) {name : String}
      {read : Json → Outcome LlmResponse}
      → Speaks p name read
      → Scripted left p http read
      → All (λ tool. (args : Json) (w : W) → left (tool.execute args w).1 ≡ left w) tools
      → All (λ response. has_tool_use response.message ≡ true) calls
      → has_tool_use final.message ≡ false
      → length calls < pos_part options.max_iterations
      → left w ≡ calls ++ final ∷ []
      → (agent : Agent W) × (create p (ok http) name options ≡ ok agent)
        × ((before : Conversation) × (text : String) × (w' : W) × Extends
              (prompt_conversation p (with_tools tools agent) prompt no_overrides)
              before
            × IsLastText (before.messages ++ final.message ∷ []) text
            × (left w' ≡ [])
            × (run_prompt p (with_tools tools agent) prompt no_overrides w
                ≡ (returned (final_result text before calls final), w')))
  unfolding run_prompt
  create-run_prompt http options tools prompt calls final w speaks service keep all done enough h =
      let made = create-Recites http options speaks service in
      let bare = make_agent made.0 options in
      let agent = equipped p left made.0 options tools in
      let kept = equipped-ToolsKeep p left made.0 options tools keep in
      (
        bare,
        made.1,
        subst
            (λ (ready : Agent W).
              (before : Conversation) × (text : String) × (w' : W) × Extends
                (prompt_conversation p ready prompt no_overrides) before
              × IsLastText (before.messages ++ final.message ∷ []) text
              × (left w' ≡ [])
              × (run_prompt p ready prompt no_overrides w
                  ≡ (returned (final_result text before calls final), w')))
            (sym (with_tools-add_all tools bare))
            (execute_text-script agent (prompt_conversation p agent prompt no_overrides) calls final
              w made.2 kept all done enough h),
      )
