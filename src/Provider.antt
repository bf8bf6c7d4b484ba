-- ===== src/Provider.antt =====
-- include/forgeant/provider: the data that an agent and a provider exchange, and the interface.
pub mod Wire
pub mod Anthropic
pub mod OpenAi
pub mod Posting
use forgeant.Prelude.{String, Option, List}
use forgeant.Prelude.Int.{ℤ, pos, add_int}
use forgeant.Double.{Double}
use forgeant.Action.{Action}
use forgeant.Json.{Json}
use forgeant.Types.Message.{Message}
use forgeant.Types.Conversation.{Conversation}
use forgeant.Tool.{ToolView}

pub record ProviderConfig : Type 0 where
  pub api_key : String
  pub model : String
  pub base_url : String
  pub max_tokens : Option ℤ
  pub temperature : Option Double

pub record Usage : Type 0 where
  pub input_tokens : ℤ
  pub output_tokens : ℤ

abbrev pub no_usage : Usage
no_usage = record { input_tokens = pos 0; output_tokens = pos 0 }

-- `accumulated.input_tokens += usage.input_tokens`, and the same for the output tokens
unfoldable pub accumulate : Usage → Usage → Usage
accumulate accumulated usage = record {
  input_tokens = add_int accumulated.input_tokens usage.input_tokens;
  output_tokens = add_int accumulated.output_tokens usage.output_tokens;
}

pub record LlmResponse : Type 0 where
  pub message : Message
  pub finish_reason : String
  pub usage : Usage
  pub model : String

pub record ChatRequest : Type 0 where
  pub tools : List ToolView
  pub output_schema : Option Json

-- The class `LlmProvider`: one call, which may change the outside world and may throw.
pub record LlmProvider (W : Type 0) : Type 0 where
  pub chat : Conversation → ChatRequest → Action W LlmResponse
