-- ===== src/Tests/AgentTests.antt =====
-- Runs of the agent loop with the scripted provider.
use forgeant.Agent.{no_overrides}
use forgeant.Prelude.{
  ℕ, zero, suc, ◌+◌, ◌-◌, ◌≡◌, refl, true, false, none, some, [], ◌∷◌, ◌++◌, ◌↔◌, arith,
}
use forgeant.Prelude.Int.{pos, negsuc, pos_part, add_int, wrap_int, ◌+ℤ◌}
use forgeant.Types.Role
use forgeant.Types.Content.{tool_result_block}
use forgeant.Types.Message
use forgeant.Types.Message.{Message}
use forgeant.Tool.Registry
use forgeant.Agent.{
  Run, returned, LoopResult, execute_loop, extract_last_text, apply_system_prompt, default_options,
  run_prompt, run_conversation,
}
use forgeant.Agent.Turns.{RunEnds, execute_loop_iff}
use forgeant.Agent.Transcript.{
  Extends, IsPaired, conversation_of, execute_loop-Extends, execute_loop-IsPaired,
}
use forgeant.Agent.Accounting.{Counted, iterations_of, execute_loop-Counted}
use forgeant.Agent.Metering.{
  ToolsKeep, ChatReports, FailureKeeps, usage_of, execute_loop-calls, execute_loop-usage,
}
use forgeant.Agent.Prompt.{apply_system_prompt_lem, or_else, nonempty}
use forgeant.Agent.Runs.{transcript, run-Extends}
use forgeant.Agent.LastText.{IsLastText, extract_last_text-IsLastText}
use forgeant.Tests.Data.{platform, agent, question, call_message, final_response}

abbrev answers : Message
answers = record {
  role = Role.tool;
  content =
      tool_result_block (record { tool_use_id = "c1"; content = "\"done\""; is_error = false })
      ∷ tool_result_block (record { tool_use_id = "c2"; content = "broken tool"; is_error = true })
      ∷ [];
}

abbrev answered : Run LoopResult × ℕ
answered = (
  returned (record {
    conversation = record question {
      messages =
          question.messages ++ call_message ∷ answers ∷ (final_response "hello").message ∷ [];
    };
    total_usage = record { input_tokens = pos 20; output_tokens = pos 4 };
    iterations = pos 2;
    finish_reason = "stop";
  }),
  2,
)

loop_runs : execute_loop platform agent question no_overrides none 0 ≡ answered
unfolding execute_loop add_int wrap_int ◌+ℤ◌
loop_runs = refl

-- With a cap of one the tool calls are answered and the run fails.
capped :
    iterations_of
      (execute_loop platform agent question
        (record no_overrides { max_iterations = some (pos 1) })
        none
        0).0
    ≡ pos 1
unfolding execute_loop
capped = refl

negative_cap :
    (execute_loop platform agent question
      (record no_overrides { max_iterations = some (negsuc 0) })
      none
      0).1
    ≡ 0
unfolding execute_loop
negative_cap = refl

execute_loop_iff_example :
    RunEnds platform agent question no_overrides none 0 answered
    ↔ (answered ≡ execute_loop platform agent question no_overrides none 0)
execute_loop_iff_example = execute_loop_iff platform agent question no_overrides none 0 answered

execute_loop-Extends_run :
    Extends question (conversation_of (execute_loop platform agent question no_overrides none 0).0)
execute_loop-Extends_run = execute_loop-Extends platform agent question no_overrides none 0

execute_loop-IsPaired_example :
    IsPaired (conversation_of (execute_loop platform agent question no_overrides none 0).0).messages
execute_loop-IsPaired_example =
    execute_loop-IsPaired platform agent question no_overrides none 0 refl

execute_loop-Counted_example :
    Counted (execute_loop platform agent question no_overrides none 0).0 1 (pos 10)
execute_loop-Counted_example = execute_loop-Counted platform agent question no_overrides none 0

-- The tools of the tests leave the world alone.
tools_keep : ToolsKeep agent (λ w. w)
unfolding Registry.execute
tools_keep name args w = ground arith

execute_loop-calls_example :
    (execute_loop platform agent question no_overrides none 0).1
    ≡ 0 + pos_part (iterations_of (execute_loop platform agent question no_overrides none 0).0)
execute_loop-calls_example =
    execute_loop-calls platform agent (λ w. w) tools_keep (λ conv request w. refl) question
      no_overrides none 0

apply_system_prompt_run :
    apply_system_prompt default_options
      (record no_overrides { system_prompt = some "override" })
      question
    ≡ record question {
      system_prompt = or_else (some "be brief") (or_else (some "override") (nonempty ""));
    }
apply_system_prompt_run =
    apply_system_prompt_lem default_options
      (record no_overrides { system_prompt = some "override" }) question

-- From a conversation with a prompt, and from a user's prompt.
run-Extends_example :
    Extends
      (record question { system_prompt = or_else (some "be brief") (nonempty "") })
      (transcript (run_conversation platform agent question no_overrides 0).0)
    × Extends
        (record { system_prompt = nonempty ""; messages = Message.of_text Role.user "Who?" ∷ [] })
        (transcript (run_prompt platform agent "Who?" no_overrides 0).0)
run-Extends_example = run-Extends platform agent no_overrides 0 question "Who?"

extract_last_text-IsLastText_example : IsLastText question.messages (extract_last_text question)
extract_last_text-IsLastText_example = extract_last_text-IsLastText question

-- What the scripted provider has spent after some calls: three of them answer.
abbrev spent : ℕ → ℕ → ℕ
spent per_call zero = 0
spent per_call (suc zero) = per_call
spent per_call (suc (suc zero)) = per_call + per_call
spent per_call (suc (suc (suc n))) = per_call + per_call + per_call

spent_keep : (k : ℕ) → ToolsKeep agent (spent k)
unfolding Registry.execute
spent_keep k name args w = ground arith

input_reports : ChatReports agent (λ u. u.input_tokens) (spent 10)
input_reports conv request zero response w' e = (10, ground arith, ground arith)
input_reports conv request (suc zero) response w' e = (10, ground arith, ground arith)
input_reports conv request (suc (suc zero)) response w' e = (10, ground arith, ground arith)
input_reports conv request (suc (suc (suc n))) response w' e = cc

output_reports : ChatReports agent (λ u. u.output_tokens) (spent 2)
output_reports conv request zero response w' e = (2, ground arith, ground arith)
output_reports conv request (suc zero) response w' e = (2, ground arith, ground arith)
output_reports conv request (suc (suc zero)) response w' e = (2, ground arith, ground arith)
output_reports conv request (suc (suc (suc n))) response w' e = cc

failures_keep : (k : ℕ) → FailureKeeps agent (spent k)
failures_keep k conv request zero x w' e = cc
failures_keep k conv request (suc zero) x w' e = cc
failures_keep k conv request (suc (suc zero)) x w' e = cc
failures_keep k conv request (suc (suc (suc n))) x w' e = ground arith

execute_loop-usage_example :
    ((usage_of (execute_loop platform agent question no_overrides none 0).0).input_tokens
      ≡ pos (spent 10 (execute_loop platform agent question no_overrides none 0).1 - 0))
    × ((usage_of (execute_loop platform agent question no_overrides none 0).0).output_tokens
        ≡ pos (spent 2 (execute_loop platform agent question no_overrides none 0).1 - 0))
unfolding execute_loop
execute_loop-usage_example =
    execute_loop-usage platform agent (spent 10) (spent 2) (spent_keep 10) (spent_keep 2)
      input_reports output_reports (failures_keep 10) (failures_keep 2) question no_overrides none 0
      (omega arith) (omega arith)
