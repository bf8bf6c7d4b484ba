-- ===== src/Agent/Typed.antt =====
-- include/forgeant/agent/agent.hpp: `execute<T>` for a structured output, with its retries, and
-- `run<T>`. `ParamSchema<T>::schema()` and `get<T>()` are arguments.
pub mod Retries
pub mod Accepted
pub mod Cost
use forgeant.Prelude.{ℕ, zero, suc, ◌+◌, String, ◌<>◌, none, some, ltb, if◌then◌else◌}
use forgeant.Prelude.Int.{ℤ, pos, add_int}
use forgeant.Prelude.Decimal.{to_string}
use forgeant.Outcome.{Outcome, ok, throw, ◌>>=◌}
use forgeant.Platform.{Platform, what}
use forgeant.Json.{Json}
use forgeant.Json.Text.{parse}
use forgeant.Types.Role
use forgeant.Types.Message
use forgeant.Types.Message.{Message}
use forgeant.Types.Conversation
use forgeant.Types.Conversation.{Conversation}
use forgeant.Provider.{Usage, no_usage, accumulate}
use forgeant.Agent.{
  Agent, AgentResult, AgentRunError, LoopResult, Run, returned, failed, RunOverrides,
  structured_parse, execute_loop, extract_last_text, apply_system_prompt, prompt_conversation,
}

-- `StructuredConfig{}.max_retries`
abbrev pub default_retries : ℕ
default_retries = 2

-- The user turn that asks for another attempt.
abbrev pub corrective : String → Message
corrective last_error = Message.of_text Role.user (
    "Your response did not match the required schema: "
    <> (last_error <> ". Please respond with valid JSON matching the schema."))

-- The message of the error after the last attempt.
unfoldable pub gave_up : ℕ → String → String
unfolding to_string
gave_up max_retries last_error =
    "structured output failed after "
    <> (to_string (pos (max_retries + 1)) <> (" attempts: " <> last_error))

-- `Json::parse(text)` and then `get<T>()`
unfoldable pub parse_output : {T : Type 0} → Platform → (Json → Outcome T) → String → Outcome T
unfolding parse
parse_output p get text = do json ← parse p text; get json

module _ {W T : Type 0} (p : Platform) (get : Json → Outcome T) where
  -- One attempt, from what the loop returned or threw; `next` is the rest of the attempts.
  unfoldable pub attempt_round :
      (Conversation → Usage → ℤ → String → String → W → Run (AgentResult T) × W)
      → ℕ
      → Usage
      → ℤ
      → Run LoopResult × W
      → Run (AgentResult T) × W
  unfolding parse_output extract_last_text accumulate add_int
  attempt_round next attempt accumulated iterations (failed e, w) = (failed e, w)
  attempt_round next attempt accumulated iterations (returned result, w) =
      let working = result.conversation in
      let total = accumulate accumulated result.total_usage in
      let rounds = add_int iterations result.iterations in
      elim (parse_output p get (extract_last_text working)) [
        | ok output ↦ (
          returned (record {
            output = output;
            conversation = working;
            total_usage = total;
            iterations = rounds;
            finish_reason = result.finish_reason;
          }),
          w,
        )
        | throw e ↦
            let corrected =
              if ltb attempt default_retries
              then Conversation.add (corrective (what p e)) working
              else working in
            next corrected total rounds result.finish_reason (what p e) w
      ]

  -- `remaining` is `max_retries + 1 - attempt`.
  unfoldable pub attempts :
      Agent W
      → RunOverrides
      → Json
      → ℕ
      → ℕ
      → Conversation
      → Usage
      → ℤ
      → String
      → String
      → W
      → Run (AgentResult T) × W
  unfolding attempt_round execute_loop gave_up
  attempts agent overrides schema zero attempt working accumulated iterations reason last_error w =
      (
        failed (record {
          kind = structured_parse;
          message = gave_up default_retries last_error;
          conversation = working;
          usage = accumulated;
          iterations = iterations;
          finish_reason = reason;
        }),
        w,
      )
  attempts agent overrides schema (suc remaining) attempt working accumulated iterations _ _ w =
      attempt_round (attempts agent overrides schema remaining (attempt + 1)) attempt accumulated
        iterations (execute_loop p agent working overrides (some schema) w)

  unfoldable pub execute_typed :
      Agent W → Json → Conversation → RunOverrides → W → Run (AgentResult T) × W
  unfolding attempts
  execute_typed agent schema working overrides =
      attempts agent overrides schema (suc default_retries) 0 working no_usage (pos 0) "" ""

  unfoldable pub run_typed_prompt :
      Agent W → Json → String → RunOverrides → W → Run (AgentResult T) × W
  unfolding execute_typed apply_system_prompt
  run_typed_prompt agent schema prompt overrides =
      execute_typed agent schema (prompt_conversation p agent prompt overrides) overrides

  unfoldable pub run_typed_conversation :
      Agent W → Json → Conversation → RunOverrides → W → Run (AgentResult T) × W
  unfolding execute_typed apply_system_prompt
  run_typed_conversation agent schema conversation overrides =
      execute_typed agent schema (apply_system_prompt agent.options overrides conversation)
        overrides
