-- ===== src/Agent/Data.antt =====
-- include/forgeant/agent: options, overrides, results, errors and the agent itself.
use forgeant.Prelude.{String, Option, none}
use forgeant.Prelude.Int.{ℤ, pos}
use forgeant.Double.{Double}
use forgeant.Types.Conversation.{Conversation}
use forgeant.Tool.Registry.{ToolRegistry}
use forgeant.Provider.{Usage, LlmProvider}

pub record AgentOptions : Type 0 where
  pub api_key : String
  pub model : String
  pub base_url : String
  pub system_prompt : String
  pub max_iterations : ℤ
  pub max_tokens : Option ℤ
  pub temperature : Option Double

-- `AgentOptions{}`
abbrev pub default_options : AgentOptions
default_options = record {
  api_key = "";
  model = "";
  base_url = "";
  system_prompt = "";
  max_iterations = pos 10;
  max_tokens = none;
  temperature = none;
}

pub record RunOverrides : Type 0 where
  pub system_prompt : Option String
  pub max_iterations : Option ℤ

-- `RunOverrides{}`
abbrev pub no_overrides : RunOverrides
no_overrides = record { system_prompt = none; max_iterations = none }

-- `AgentRunError::Kind`
pub data Kind : Type 0 where
  provider_error max_iterations structured_parse : Kind

pub record AgentRunError : Type 0 where
  pub kind : Kind
  pub message : String
  pub conversation : Conversation
  pub usage : Usage
  pub iterations : ℤ
  pub finish_reason : String

-- What a run returns, or the `AgentRunError` that it throws.
pub data Run (A : Type 0) : Type 0 where
  returned : A → Run A
  failed : AgentRunError → Run A

pub record AgentResult (T : Type 0) : Type 0 where
  pub output : T
  pub conversation : Conversation
  pub total_usage : Usage
  pub iterations : ℤ
  pub finish_reason : String

pub record LoopResult : Type 0 where
  pub conversation : Conversation
  pub total_usage : Usage
  pub iterations : ℤ
  pub finish_reason : String

pub record Agent (W : Type 0) : Type 0 where
  pub provider : LlmProvider W
  pub registry : ToolRegistry W
  pub options : AgentOptions
