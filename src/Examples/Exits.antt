-- ===== src/Examples/Exits.antt =====
-- How the example programs end: one `try` around the whole of `main`.
use mathlib.Core.List.{append_assoc, append-nil}
use forgeant.Agent.{no_overrides}
use forgeant.Prelude.{ℕ, ◌<>◌, String, ◌≡◌, refl, ◌∙◌, List, [], ◌∷◌, ◌++◌}
use forgeant.Outcome.{Outcome, ok, throw}
use forgeant.Platform.{Platform, what}
use forgeant.Http.{HttpClient}
use forgeant.Agent.{
  Agent, AgentResult, Run, returned, failed, add_tool, run_prompt, run_conversation,
}
use forgeant.Agent.Typed.{run_typed_prompt}
use forgeant.Agent.Create.{create}
use forgeant.Examples.{
  Console, Environment, Program, print_all, after_run, after_create, provider_name, options_of,
}
use forgeant.Examples.Movies.{main_movie, shown_review, get_movie, param_movie, movie_question}
use forgeant.Examples.Weather.{main_weather, shown_answer, weather_tool, helpful, weather_question}
use forgeant.Examples.Chats.{
  main_chat, main_turns, turns, first_turn, second_turn, shown_tokens, shown_turns, concise,
  capital_question, alice, name_question, count_question, opening, to_second, to_third, ask_more,
}

-- Code 0 and nothing on `std::cerr`, or code 1 and one message there. What was printed stays.
pub data Exits {W : Type 0} (c : Console W) (r : ℕ × Console W) : Type 0 where
  success :
      (lines : List String) (w : W)
      → r ≡ (0, record { out = c.out ++ lines; err = c.err; world = w })
      → Exits c r
  failure :
      (lines : List String) (text : String) (w : W)
      → r ≡ (1, record { out = c.out ++ lines; err = c.err ++ ("Error: " <> text) ∷ []; world = w })
      → Exits c r

module _ {W : Type 0} where
  Exits-print_all :
      (lines : List String) (c : Console W) (r : ℕ × Console W)
      → Exits (print_all lines c) r
      → Exits c r
  Exits-print_all lines c r (success more w e) = success (lines ++ more) w (e ∙ rw append_assoc)
  Exits-print_all lines c r (failure more text w e) =
      failure (lines ++ more) text w (e ∙ rw append_assoc)

  Exits-world :
      (w : W) (c : Console W) (r : ℕ × Console W) → Exits (record c { world = w }) r → Exits c r
  Exits-world w c r (success lines w' e) = success lines w' e
  Exits-world w c r (failure lines text w' e) = failure lines text w' e

  after_run-Exits :
      {A : Type 0} (x : Run (AgentResult A) × W) (next : AgentResult A → Program W) (c : Console W)
      → ((result : AgentResult A) (c : Console W) → Exits c (next result c))
      → Exits c (after_run x next c)
  after_run-Exits (returned result, w) next c h =
      Exits-world w c _ (h result (record c { world = w }))
  after_run-Exits (failed e, w) next c h = failure [] e.message w (rw append-nil)

  after_create-Exits :
      (p : Platform) (x : Outcome (Agent W)) (next : Agent W → Program W) (c : Console W)
      → ((agent : Agent W) (c : Console W) → Exits c (next agent c))
      → Exits c (after_create p x next c)
  after_create-Exits p (ok agent) next c h = h agent c
  after_create-Exits p (throw e) next c h = failure [] (what p e) c.world (rw append-nil)

module _ {W : Type 0} (p : Platform) (client : Outcome (HttpClient W)) (env : Environment) where
  chat-Exits : (c : Console W) → Exits c (main_chat p client env c)
  unfolding main_chat
  chat-Exits c =
      after_create-Exits p (create p client (provider_name env) (options_of env concise)) _ c
        (λ agent. λ c.
          after_run-Exits (run_prompt p agent capital_question no_overrides c.world) _ c
            (λ result. λ c. success (shown_tokens result) c.world refl))

  movie-Exits : (c : Console W) → Exits c (main_movie p client env c)
  unfolding main_movie
  movie-Exits c =
      after_create-Exits p (create p client (provider_name env) (options_of env "")) _ c (λ agent.
        λ c.
          after_run-Exits
            (run_typed_prompt p get_movie agent param_movie.schema movie_question no_overrides
              c.world)
            _ c (λ result. λ c. success (shown_review result) c.world refl))

  weather-Exits : (c : Console W) → Exits c (main_weather p client env c)
  unfolding main_weather
  weather-Exits c =
      after_create-Exits p (create p client (provider_name env) (options_of env helpful)) _ c
        (λ agent. λ c.
          after_run-Exits
            (run_prompt p (add_tool weather_tool agent) weather_question no_overrides c.world) _ c
            (λ result. λ c. success (shown_answer result) c.world refl))

module _ {W : Type 0} (p : Platform) (agent : Agent W) where
  second_turn-Exits :
      (result : AgentResult String) (c : Console W) → Exits c (second_turn p agent result c)
  unfolding second_turn
  second_turn-Exits result c = Exits-print_all (to_third result) c _ (
      after_run-Exits
        (run_conversation p agent (ask_more result count_question) no_overrides c.world) _ _
        (λ third. λ c. success (shown_turns third) c.world refl))

  first_turn-Exits :
      (result : AgentResult String) (c : Console W) → Exits c (first_turn p agent result c)
  unfolding first_turn
  first_turn-Exits result c = Exits-print_all (to_second result) c _ (
      after_run-Exits
        (run_conversation p agent (ask_more result name_question) no_overrides c.world) _ _
        (second_turn-Exits))

  turns-Exits : (c : Console W) → Exits c (turns p agent c)
  unfolding turns
  turns-Exits c =
      Exits-print_all opening c _
        (after_run-Exits (run_prompt p agent alice no_overrides c.world) _ _ first_turn-Exits)

module _ {W : Type 0} (p : Platform) (client : Outcome (HttpClient W)) (env : Environment) where
  -- Whatever the environment, the provider and the tools do, each of the four programs exits with
  -- code 0 and prints nothing to `std::cerr`, or exits with code 1 after one message there that starts
  -- with "Error: "; what was printed to `std::cout` before stays.
  pub examples-Exits :
      (c : Console W)
      → Exits c (main_chat p client env c)
        × Exits c (main_turns p client env c)
        × Exits c (main_movie p client env c)
        × Exits c (main_weather p client env c)
  unfolding main_turns
  examples-Exits c = (
    chat-Exits p client env c,
    after_create-Exits p (create p client (provider_name env) (options_of env concise)) _ c
        (λ agent. turns-Exits p agent),
    movie-Exits p client env c,
    weather-Exits p client env c,
  )
