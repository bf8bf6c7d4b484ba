-- ===== src/Agent/BrokenRuns.antt =====
-- From `Agent::create` to the error of `run`, where the service refuses a request.
use mathlib.Core.List.{append-nil}
use mathlib.Core.Path.{subst}
use forgeant.Prelude.{
  ◌+◌, ◌<◌, String, ◌≡◌, refl, sym, ap, ◌∙◌, true, none, [], List, All, length, arith,
}
use forgeant.Prelude.Int.{pos, pos_part}
use forgeant.Outcome.{Outcome, Exception, ok}
use forgeant.Platform.{Platform, what}
use forgeant.Json.{Json}
use forgeant.Types.Conversation.{Conversation}
use forgeant.Tool.{Tool}
use forgeant.Http.{HttpClient, HttpResponse}
use forgeant.Provider.{LlmResponse, LlmProvider, no_usage}
use forgeant.Provider.Wire.Errors.{Says, bad_status, error_message-Says}
use forgeant.Provider.Wire.Service.{Scripted, Recites, Breaks, BreaksWith}
use forgeant.Provider.Anthropic.Request as AnthropicRequest
use forgeant.Provider.Anthropic.Script as AnthropicScript
use forgeant.Provider.OpenAi.Request as OpenAiRequest
use forgeant.Provider.OpenAi.Script as OpenAiScript
use forgeant.Agent.{
  Agent, AgentOptions, AgentRunError, LoopResult, Run, failed, provider_error, execute_loop,
  no_overrides, has_tool_use, execute_text, run_prompt, prompt_conversation, request_of,
}
use forgeant.Agent.Create.{create, make_agent, config_of, local_config}
use forgeant.Agent.Turns.{broken, start, RunEnds, execute_loop_iff}
use forgeant.Agent.Transcript.{Extends, Turns-Extends}
use forgeant.Agent.Metering.{ToolsKeep}
use forgeant.Agent.Offers.{with_tools, with_tools-add_all}
use forgeant.Agent.Answers.{Speaks, anthropic, openai, ollama}
use forgeant.Agent.Script.{used, script-Turns, equipped, equipped-ToolsKeep}

-- What the provider that a name stands for calls itself in an error.
abbrev pub title :
    {p : Platform} {name : String} {read : Json → Outcome LlmResponse} → Speaks p name read → String
title anthropic = "Anthropic"
title openai = "OpenAI"
title ollama = "OpenAI"

-- The exception of the provider that a name stands for.
abbrev refusal_of :
    {p : Platform} {name : String} {read : Json → Outcome LlmResponse}
    → Speaks p name read
    → HttpResponse
    → Exception
refusal_of {p} anthropic response = AnthropicScript.refusal p response
refusal_of {p} openai response = OpenAiScript.refusal p response
refusal_of {p} ollama response = OpenAiScript.refusal p response

refusal-Says :
    {p : Platform} {name : String} {read : Json → Outcome LlmResponse} (speaks : Speaks p name read)
    (bad : HttpResponse)
    → (detail : String) × Says p bad.body detail
      × (what p (refusal_of speaks bad) ≡ bad_status (title speaks) bad.status_code detail)
refusal-Says {p} anthropic bad = error_message-Says p "Anthropic" bad
refusal-Says {p} openai bad = error_message-Says p "OpenAI" bad
refusal-Says {p} ollama bad = error_message-Says p "OpenAI" bad

-- The error of a run whose call of the provider behind `before` fails.
abbrev pub run_error : String → Conversation → List LlmResponse → AgentRunError
run_error text before calls = record {
  kind = provider_error;
  message = text;
  conversation = before;
  usage = used calls no_usage;
  iterations = pos (length calls + 1);
  finish_reason = "error";
}

module _ {W : Type 0} (p : Platform) (left : W → List LlmResponse) where
  execute_loop-broken :
      (agent : Agent W) (working : Conversation) (calls : List LlmResponse) (e : Exception) (w : W)
      → Recites left agent.provider
      → BreaksWith left e agent.provider
      → ToolsKeep agent left
      → All (λ response. has_tool_use response.message ≡ true) calls
      → length calls < pos_part agent.options.max_iterations
      → left w ≡ calls
      → (before : Conversation) × (w' : W) × Extends working before
        × (execute_loop p agent working no_overrides none w
            ≡ (failed (run_error (what p e) before calls), w'))
  execute_loop-broken agent working calls e w recites breaks keep all enough h =
      let turns =
        script-Turns p left agent none refl recites keep calls [] (start working w) all
          (h ∙ sym (append-nil calls)) in
      let t = turns.0 in
      let chats = breaks.at t.conversation (request_of p agent none) t.world refl turns.2 in
      let result : Run LoopResult × W =
        (failed (run_error (what p e) t.conversation calls), chats.0) in
      let ends : RunEnds p agent working no_overrides none w result =
        broken (length calls) t e chats.0 enough turns.1 chats.1
          (rw turns.3 (rw (let h : 0 + length calls ≡ length calls = omega arith in h) refl)) in
      (
        t.conversation,
        chats.0,
        Turns-Extends p agent (request_of p agent none) turns.1,
        sym ((execute_loop_iff p agent working no_overrides none w result).0 ends),
      )

  execute_text-broken :
      (agent : Agent W) (working : Conversation) (calls : List LlmResponse) (e : Exception) (w : W)
      → Recites left agent.provider
      → BreaksWith left e agent.provider
      → ToolsKeep agent left
      → All (λ response. has_tool_use response.message ≡ true) calls
      → length calls < pos_part agent.options.max_iterations
      → left w ≡ calls
      → (before : Conversation) × (w' : W) × Extends working before
        × (execute_text p agent working no_overrides w
            ≡ (failed (run_error (what p e) before calls), w'))
  unfolding execute_text
  execute_text-broken agent working calls e w recites breaks keep all enough h =
      let t = execute_loop-broken agent working calls e w recites breaks keep all enough h in
      (t.0, t.1, t.2, rw t.3 refl)

  create-BreaksWith :
      (http : HttpClient W) (options : AgentOptions) (bad : HttpResponse) {name : String}
      {read : Json → Outcome LlmResponse} (speaks : Speaks p name read)
      → Scripted left p http read
      → Breaks left http bad
      → (provider : LlmProvider W) × (create p (ok http) name options
          ≡ ok (make_agent provider options))
        × Recites left provider
        × BreaksWith left (refusal_of speaks bad) provider
  unfolding create
  create-BreaksWith http options bad anthropic service breaks = (
    AnthropicRequest.provider p http (config_of options),
    refl,
    AnthropicScript.provider-Recites p http left service (config_of options),
    AnthropicScript.provider-BreaksWith p http left bad breaks (config_of options),
  )
  create-BreaksWith http options bad openai service breaks = (
    OpenAiRequest.provider p http (config_of options),
    refl,
    OpenAiScript.provider-Recites p http left service (config_of options),
    OpenAiScript.provider-BreaksWith p http left bad breaks (config_of options),
  )
  create-BreaksWith http options bad ollama service breaks = (
    OpenAiRequest.provider p http (local_config (config_of options)),
    refl,
    OpenAiScript.provider-Recites p http left service (local_config (config_of options)),
    OpenAiScript.provider-BreaksWith p http left bad breaks (local_config (config_of options)),
  )

  -- Over a service that gives a script of answers with tool calls and then a response with a bad
  -- status, where the tools leave the script alone and the cap allows a call for each answer and one
  -- more, the run of an agent made by `create` for any of the three names fails with a provider error.
  -- Its message names the service and the status, followed by the `message` of the `error` of the body
  -- where that is a text, by the whole body where the body is no JSON or that message is no text, and
  -- by nothing where the body is empty or has no such message. Its conversation extends the prompt,
  -- its usage is that of the answers, and its iterations count the failed call.
  pub create-run_error :
      (http : HttpClient W) (options : AgentOptions) (tools : List (Tool W)) (prompt : String)
      (calls : List LlmResponse) (bad : HttpResponse) (w : W) {name : String}
      {read : Json → Outcome LlmResponse} (speaks : Speaks p name read)
      → Scripted left p http read
      → Breaks left http bad
      → All (λ tool. (args : Json) (w : W) → left (tool.execute args w).1 ≡ left w) tools
      → All (λ response. has_tool_use response.message ≡ true) calls
      → length calls < pos_part options.max_iterations
      → left w ≡ calls
      → (agent : Agent W) × (create p (ok http) name options ≡ ok agent)
        × ((detail : String) × (before : Conversation) × (w' : W) × Says p bad.body detail
            × Extends (prompt_conversation p (with_tools tools agent) prompt no_overrides) before
            × (run_prompt p (with_tools tools agent) prompt no_overrides w ≡ (
              failed (run_error (bad_status (title speaks) bad.status_code detail) before calls),
              w',
            )))
  unfolding run_prompt
  create-run_error http options tools prompt calls bad w speaks service breaks keep all enough h =
      let made = create-BreaksWith http options bad speaks service breaks in
      let agent = equipped p left made.0 options tools in
      let kept = equipped-ToolsKeep p left made.0 options tools keep in
      let refusal = refusal_of speaks bad in
      let message = refusal-Says speaks bad in
      let run =
        execute_text-broken agent (prompt_conversation p agent prompt no_overrides) calls refusal w
          made.2 made.3 kept all enough h in
      (
        make_agent made.0 options,
        made.1,
        subst
            (λ (ready : Agent W).
              (detail : String) × (before : Conversation) × (w' : W) × Says p bad.body detail
              × Extends (prompt_conversation p ready prompt no_overrides) before
              × (run_prompt p ready prompt no_overrides w ≡ (
                failed (run_error (bad_status (title speaks) bad.status_code detail) before calls),
                w',
              )))
            (sym (with_tools-add_all tools (make_agent made.0 options)))
            (
              message.0,
              run.0,
              run.1,
              message.1,
              run.2,
              run.3 ∙ ap (λ text. (failed (run_error text run.0 calls), run.1)) message.2,
            ),
      )
