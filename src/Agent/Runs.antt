-- ===== src/Agent/Runs.antt =====
-- The conversation that `run` leaves, from a prompt or from a conversation.
use forgeant.Prelude.{String, none, [], ◌∷◌}
use forgeant.Platform.{Platform}
use forgeant.Types.Role
use forgeant.Types.Message
use forgeant.Types.Conversation
use forgeant.Types.Conversation.{Conversation}
use forgeant.Agent.{
  Agent, LoopResult, AgentResult, Run, returned, failed, RunOverrides, execute_loop, execute_text,
  run_prompt, run_conversation, text_result,
}
use forgeant.Agent.Prompt.{or_else, nonempty, apply_system_prompt_lem}
use forgeant.Agent.Transcript.{Extends, conversation_of, execute_loop-Extends}

abbrev pub transcript : Run (AgentResult String) → Conversation
transcript (returned result) = result.conversation
transcript (failed e) = e.conversation

module _ {W : Type 0} (p : Platform) (agent : Agent W) (overrides : RunOverrides) (w : W) where
  execute_text-Extends :
      (working : Conversation)
      → Extends working (transcript (execute_text p agent working overrides w).0)
  unfolding execute_text
  execute_text-Extends working =
      go (execute_loop p agent working overrides none w)
        (execute_loop-Extends p agent working overrides none w)
    where
      go :
          (r : Run LoopResult × W)
          → Extends working (conversation_of r.0)
          → Extends working (transcript (text_result p r).0)
      go (returned result, w') h = h
      go (failed e, w') h = h

  -- In a result and in an error, the transcript of a run is the conversation or the user's prompt with
  -- messages added behind it. Its system prompt is the one of the conversation, or else the override
  -- of the call, or else the prompt of the agent unless that is empty.
  pub run-Extends :
      (conv : Conversation) (prompt : String)
      → let default = or_else overrides.system_prompt (nonempty agent.options.system_prompt) in
        Extends
          (record conv { system_prompt = or_else conv.system_prompt default })
          (transcript (run_conversation p agent conv overrides w).0)
        × Extends
            (record { system_prompt = default; messages = Message.of_text Role.user prompt ∷ [] })
            (transcript (run_prompt p agent prompt overrides w).0)
  unfolding run_conversation run_prompt
  run-Extends conv prompt = (
    rw (apply_system_prompt_lem agent.options overrides conv) (execute_text-Extends _),
    rw (apply_system_prompt_lem agent.options overrides Conversation.empty)
        (execute_text-Extends _),
  )
