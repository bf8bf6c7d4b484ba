-- ===== src/Agent.antt =====
-- include/forgeant/agent and src/agent: the dispatch of tool calls, the system prompt, and the loop
-- that `run` drives. `Agent.Data` has the data, `Agent.Typed` `run<T>` for a structured output.
pub mod Data
pub mod Typed
pub mod Turns
pub mod Dispatch
pub mod Transcript
pub mod Accounting
pub mod Metering
pub mod Prompt
pub mod LastText
pub mod Create
pub mod Script
pub mod Answers
pub mod TypedAnswers
pub mod BrokenRuns
pub mod Runs
pub mod Offers
use mathlib.Core.List.{reverse}
use forgeant.Prelude.{
  ℕ, zero, suc, ◌+◌, String, Bool, true, false, Option, none, some, List, [], ◌∷◌, ◌++◌, ◌||◌, ◌==◌,
  value_or, if◌then◌else◌, is_some,
}
use forgeant.Prelude.Int.{ℤ, pos, pos_part}
use forgeant.Double.{Double}
use forgeant.Outcome.{Outcome, ok, throw}
use forgeant.Action.{Action}
use forgeant.Platform.{Platform, what}
use forgeant.Json.{Json}
use forgeant.Json.Text.{dump}
use forgeant.Types.Role
use forgeant.Types.Role.{Role}
use forgeant.Types.Content.{
  ContentBlock, TextBlock, ToolUseBlock, text_block, tool_use_block, tool_result_block, as_tool_use,
  as_text,
}
use forgeant.Types.Message
use forgeant.Types.Message.{Message}
use forgeant.Types.Conversation
use forgeant.Types.Conversation.{Conversation}
use forgeant.Tool.{Tool}
use forgeant.Tool.Registry
use forgeant.Tool.Registry.{ToolRegistry}
use forgeant.Provider.{Usage, no_usage, accumulate, LlmResponse, ChatRequest, LlmProvider}
pub use forgeant.Agent.Data.{
  AgentOptions, default_options, RunOverrides, no_overrides, Kind, provider_error, max_iterations,
  structured_parse, AgentRunError, Run, returned, failed, AgentResult, LoopResult, Agent,
}

unfoldable pub add_tool : {W : Type 0} → Tool W → Agent W → Agent W
unfolding Registry.add
add_tool tool agent = record agent { registry = Registry.add tool agent.registry }

unfoldable pub has_tool_use_in : List ContentBlock → Bool
has_tool_use_in [] = false
has_tool_use_in (block ∷ blocks) = is_some (as_tool_use block) || has_tool_use_in blocks

unfoldable pub has_tool_use : Message → Bool
unfolding has_tool_use_in
has_tool_use message = has_tool_use_in message.content

abbrev apply_default : String → Conversation → Conversation
apply_default prompt working =
    if prompt == "" then working else Conversation.set_system_prompt prompt working

abbrev apply_override : Option String → String → Conversation → Conversation
apply_override (some prompt) default working = Conversation.set_system_prompt prompt working
apply_override none default working = apply_default default working

unfoldable pub apply_system_prompt : AgentOptions → RunOverrides → Conversation → Conversation
apply_system_prompt options overrides working =
    if is_some working.system_prompt
    then working
    else apply_override overrides.system_prompt options.system_prompt working

abbrev or_text : Option TextBlock → Option String → Option String
or_text none rest = rest
or_text (some block) rest = some block.text

-- The first text block of a message.
unfoldable pub first_text : List ContentBlock → Option String
first_text [] = none
first_text (block ∷ blocks) = or_text (as_text block) (first_text blocks)

abbrev is_assistant : Role → Bool
is_assistant Role.assistant = true
is_assistant _ = false

-- The loop of `extract_last_text` over the messages, the last one first.
unfoldable pub last_text : List Message → String
unfolding first_text
last_text [] = ""
last_text (msg ∷ earlier) =
    let rest = last_text earlier in
    if is_assistant msg.role then value_or (first_text msg.content) rest else rest

unfoldable pub extract_last_text : Conversation → String
unfolding last_text
extract_last_text conv = last_text (reverse conv.messages)

-- The block that answers one tool call, from what the call returned or threw.
unfoldable pub tool_result : Platform → ToolUseBlock → Outcome Json → ContentBlock
unfolding dump
tool_result p call (ok output) =
    tool_result_block (record { tool_use_id = call.id; content = dump p output; is_error = false })
tool_result p call (throw e) =
    tool_result_block (record { tool_use_id = call.id; content = what p e; is_error = true })

module _ {W : Type 0} (p : Platform) where
  -- The blocks of `dispatch_tools`, with the world that the handlers leave.
  unfoldable pub dispatch_tools : ToolRegistry W → List ContentBlock → W → List ContentBlock × W
  unfolding tool_result Registry.execute
  dispatch_tools registry [] w = ([], w)
  dispatch_tools registry (tool_use_block call ∷ blocks) w =
      let (r, w') = Registry.execute call.name call.input registry w in
      let (results, w'') = dispatch_tools registry blocks w' in
      (tool_result p call r ∷ results, w'')
  dispatch_tools registry (text_block _ ∷ blocks) w = dispatch_tools registry blocks w
  dispatch_tools registry (tool_result_block _ ∷ blocks) w = dispatch_tools registry blocks w

  -- One round of the loop, from what the provider returned or threw; `next` is the rest of the loop
  -- and `iteration` counts the rounds before this one.
  unfoldable pub round :
      ToolRegistry W
      → (Conversation → Usage → W → Run LoopResult × W)
      → ℕ
      → Conversation
      → Usage
      → Outcome LlmResponse × W
      → Run LoopResult × W
  unfolding dispatch_tools has_tool_use accumulate
  round registry next iteration working accumulated (throw e, w) = (
    failed (record {
      kind = provider_error;
      message = what p e;
      conversation = working;
      usage = accumulated;
      iterations = pos (iteration + 1);
      finish_reason = "error";
    }),
    w,
  )
  round registry next iteration working accumulated (ok response, w) =
      let total = accumulate accumulated response.usage in
      let answered = Conversation.add response.message working in
      elim (has_tool_use response.message) [
        | false ↦ (
          returned (record {
            conversation = answered;
            total_usage = total;
            iterations = pos (iteration + 1);
            finish_reason = response.finish_reason;
          }),
          w,
        )
        | true ↦
            let (results, w') = dispatch_tools registry response.message.content w in
            next (Conversation.add (record { role = Role.tool; content = results }) answered) total
              w'
      ]

  -- `remaining` is `max_iterations - iteration`, or 0 where that is negative.
  unfoldable pub loop :
      Agent W → ChatRequest → ℤ → ℕ → ℕ → Conversation → Usage → W → Run LoopResult × W
  unfolding round
  loop agent request max zero iteration working accumulated w = (
    failed (record {
      kind = max_iterations;
      message = "max_iterations reached without a terminal response";
      conversation = working;
      usage = accumulated;
      iterations = max;
      finish_reason = "max_iterations";
    }),
    w,
  )
  loop agent request max (suc remaining) iteration working accumulated w =
      round agent.registry (loop agent request max remaining (iteration + 1)) iteration working
        accumulated (agent.provider.chat working request w)

  abbrev pub request_of : Agent W → Option Json → ChatRequest
  request_of agent output_schema = record {
    tools = Registry.tools p agent.registry;
    output_schema = output_schema;
  }

  abbrev pub iteration_cap : Agent W → RunOverrides → ℤ
  iteration_cap agent overrides = value_or overrides.max_iterations agent.options.max_iterations

  unfoldable pub execute_loop :
      Agent W → Conversation → RunOverrides → Option Json → W → Run LoopResult × W
  unfolding loop Registry.tools
  execute_loop agent working overrides output_schema =
      let max = iteration_cap agent overrides in
      loop agent (request_of agent output_schema) max (pos_part max) 0 working no_usage

  abbrev pub text_result : Run LoopResult × W → Run (AgentResult String) × W
  text_result (failed e, w) = (failed e, w)
  text_result (returned result, w) = (
    returned (record {
      output = extract_last_text result.conversation;
      conversation = result.conversation;
      total_usage = result.total_usage;
      iterations = result.iterations;
      finish_reason = result.finish_reason;
    }),
    w,
  )

  -- `execute<std::string>`
  unfoldable pub execute_text :
      Agent W → Conversation → RunOverrides → W → Run (AgentResult String) × W
  unfolding execute_loop extract_last_text
  execute_text agent working overrides w = text_result (execute_loop agent working overrides none w)

  -- `run(prompt)` starts a conversation with one user turn.
  abbrev pub prompt_conversation : Agent W → String → RunOverrides → Conversation
  prompt_conversation agent prompt overrides =
      Conversation.add (Message.of_text Role.user prompt)
        (apply_system_prompt agent.options overrides Conversation.empty)

  unfoldable pub run_prompt : Agent W → String → RunOverrides → W → Run (AgentResult String) × W
  unfolding execute_text apply_system_prompt
  run_prompt agent prompt overrides =
      execute_text agent (prompt_conversation agent prompt overrides) overrides

  unfoldable pub run_conversation :
      Agent W → Conversation → RunOverrides → W → Run (AgentResult String) × W
  unfolding execute_text apply_system_prompt
  run_conversation agent conversation overrides =
      execute_text agent (apply_system_prompt agent.options overrides conversation) overrides
