-- ===== src/Agent/Create.antt =====
-- `Agent::create` and `Agent::Agent`: an agent for one of the built-in providers. The client is what
-- the constructor of `CurlHttpClient` gives, or the exception that it throws.
use forgeant.Prelude.{arith, String, ◌<>◌, ◌≡◌, refl, ◌==◌, if◌then◌else◌}
use forgeant.Outcome.{Outcome, ok, throw, invalid_argument, ◌>>=◌}
use forgeant.Platform.{Platform}
use forgeant.Tool.Registry
use forgeant.Http.{HttpClient}
use forgeant.Provider.{ProviderConfig, LlmProvider}
use forgeant.Provider.Anthropic.Request as Anthropic
use forgeant.Provider.OpenAi.Request as OpenAi
use forgeant.Agent.{Agent, AgentOptions}

abbrev pub config_of : AgentOptions → ProviderConfig
config_of options = record {
  api_key = options.api_key;
  model = options.model;
  base_url = options.base_url;
  max_tokens = options.max_tokens;
  temperature = options.temperature;
}

-- `http://localhost:11434` for a base URL that is empty
unfoldable pub local_config : ProviderConfig → ProviderConfig
local_config config =
    if config.base_url == "" then record config { base_url = "http://localhost:11434" } else config

abbrev pub with_base_url : String → AgentOptions → AgentOptions
with_base_url url options = record options { base_url = url }

abbrev pub local_url : String → String
local_url url = if url == "" then "http://localhost:11434" else url

module _ {W : Type 0} where
  -- `Agent(provider, options)`
  abbrev pub make_agent : LlmProvider W → AgentOptions → Agent W
  make_agent provider options = record {
    provider = provider;
    registry = Registry.empty;
    options = options;
  }

  unfoldable pub provider_of :
      Platform → HttpClient W → String → ProviderConfig → Outcome (LlmProvider W)
  unfolding local_config
  provider_of p http name config =
      if name == "anthropic"
      then ok (Anthropic.provider p http config)
      else if name == "openai"
      then ok (OpenAi.provider p http config)
      else if name == "ollama"
      then ok (OpenAi.provider p http (local_config config))
      else throw (invalid_argument ("unknown provider: " <> name))

  unfoldable pub create :
      Platform → Outcome (HttpClient W) → String → AgentOptions → Outcome (Agent W)
  unfolding provider_of
  create p client name options = do
    http ← client
    provider ← provider_of p http name (config_of options)
    ok (make_agent provider options)

  abbrev pub keep_options : AgentOptions → Agent W → Agent W
  keep_options options agent = record agent { options = options }

  -- An agent for "ollama" is the agent for "openai" with the base URL given, or with the local one
  -- in place of an empty one; its options are the caller's. It fails where the client does.
  pub create-ollama :
      (p : Platform) (client : Outcome (HttpClient W)) (options : AgentOptions)
      → create p client "ollama" options ≡ (
          create p client "openai" (with_base_url (local_url options.base_url) options) >>= λ agent.
          ok (keep_options options agent))
  unfolding create
  create-ollama p client options = go client options.base_url
    where
      go :
          (client : Outcome (HttpClient W)) (url : String)
          → create p client "ollama" (with_base_url url options) ≡ (
              create p client "openai" (with_base_url (local_url url) options) >>= λ agent.
              ok (keep_options (with_base_url url options) agent))
      go (throw e) url = refl
      go (ok http) url = ground arith
