-- ===== src/Agent/Prompt.antt =====
-- `apply_system_prompt`: which of the three prompts a run uses, and what `run` hands to the loop.
use forgeant.Prelude.{String, ◌≡◌, Option, none, some, ◌==◌, if◌then◌else◌, arith}
use forgeant.Types.Conversation.{Conversation}
use forgeant.Agent.{AgentOptions, RunOverrides, apply_system_prompt}

-- The first prompt that is there.
abbrev pub or_else : Option String → Option String → Option String
or_else (some prompt) _ = some prompt
or_else none other = other

-- An empty text stands for no prompt.
abbrev pub nonempty : String → Option String
nonempty prompt = if prompt == "" then none else some prompt

-- The prompt of the conversation wins over the override, which wins over the agent's own unless that
-- is empty; the messages stay.
pub apply_system_prompt_lem :
    (options : AgentOptions) (overrides : RunOverrides) (conv : Conversation)
    → apply_system_prompt options overrides conv ≡ record conv {
      system_prompt =
          or_else conv.system_prompt
            (or_else overrides.system_prompt (nonempty options.system_prompt));
    }
unfolding apply_system_prompt
apply_system_prompt_lem options overrides conv = ground arith
