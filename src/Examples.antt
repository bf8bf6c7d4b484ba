-- ===== src/Examples.antt =====
-- The programs of examples/: what they share. A program reads environment variables, makes an agent,
-- runs it and prints; `C` is the console with the outside world of the agent beside it.
pub mod Movies
pub mod Weather
pub mod Chats
pub mod Exits
use forgeant.Prelude.{String, ◌<>◌, ℕ, Option, none, some, value_or, List, [], ◌∷◌, ◌++◌}
use forgeant.Prelude.Int.{ℤ, pos}
use forgeant.Outcome.{Outcome, ok, throw}
use forgeant.Platform.{Platform, what}
use forgeant.Http.{HttpClient}
use forgeant.Agent.{
  Agent, AgentOptions, AgentResult, Run, RunOverrides, returned, failed, default_options,
}
use forgeant.Agent.Create.{create}

-- What was printed, one text for each `std::endl`, and the world.
pub record Console (W : Type 0) : Type 0 where
  pub out : List String
  pub err : List String
  pub world : W

-- The three environment variables.
pub record Environment : Type 0 where
  pub provider : Option String
  pub model : Option String
  pub api_key : Option String

abbrev pub provider_name : Environment → String
provider_name env = value_or env.provider "ollama"

-- The options that a program writes out, with its system prompt.
abbrev pub options_of : Environment → String → AgentOptions
options_of env prompt = record default_options {
  api_key = value_or env.api_key "";
  model = value_or env.model "llama3";
  system_prompt = prompt;
}

abbrev pub print_all : {W : Type 0} → List String → Console W → Console W
print_all lines c = record c { out = c.out ++ lines }

-- A program that is to be run on a console, and the exit code that it returns.
abbrev pub Program : Type 0 → Type 0
Program W = Console W → ℕ × Console W

module _ {W : Type 0} where
  -- `std::cerr << "Error: " << e.what()` and `return 1`
  abbrev pub fail : String → Program W
  fail text c = (1, record c { err = c.err ++ ("Error: " <> text) ∷ [] })

  -- What a program prints last, and `return 0`.
  abbrev pub done : List String → Program W
  done lines c = (0, print_all lines c)

  -- A run on the world of the console: what follows it, or the handler of `main`.
  abbrev pub after_run :
      {A : Type 0} → Run (AgentResult A) × W → (AgentResult A → Program W) → Program W
  after_run (returned result, w) next c = next result (record c { world = w })
  after_run (failed e, w) next c = fail e.message (record c { world = w })

  abbrev pub after_create : Platform → Outcome (Agent W) → (Agent W → Program W) → Program W
  after_create p (ok agent) next = next agent
  after_create p (throw e) next = fail (what p e)

  -- `Agent::create` with the environment's provider and the options, inside the `try` of `main`.
  abbrev pub with_agent :
      Platform → Outcome (HttpClient W) → Environment → String → (Agent W → Program W) → Program W
  with_agent p client env prompt next =
      after_create p (create p client (provider_name env) (options_of env prompt)) next
