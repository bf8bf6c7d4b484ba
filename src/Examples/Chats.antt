-- ===== src/Examples/Chats.antt =====
-- examples/basic_chat.cpp and examples/multi_turn.cpp
use forgeant.Agent.{no_overrides}
use forgeant.Prelude.{◌<>◌, String, List, [], ◌∷◌, length}
use forgeant.Prelude.Int.{pos}
use forgeant.Prelude.Decimal.{to_string}
use forgeant.Outcome.{Outcome}
use forgeant.Platform.{Platform}
use forgeant.Types.Role
use forgeant.Types.Message
use forgeant.Types.Conversation
use forgeant.Types.Conversation.{Conversation}
use forgeant.Http.{HttpClient}
use forgeant.Agent.{Agent, AgentResult, run_prompt, run_conversation}
use forgeant.Examples.{Environment, Program, print_all, done, after_run, with_agent}

abbrev pub concise : String
concise = "You are a helpful assistant. Be concise."

abbrev pub capital_question : String
capital_question = "What is the capital of France? Answer in one sentence."

abbrev pub shown_tokens : AgentResult String → List String
shown_tokens result =
    ("Response: " <> result.output)
    ∷ ("Tokens: "
        <> (to_string result.total_usage.input_tokens
            <> (" in, " <> (to_string result.total_usage.output_tokens <> " out"))))
    ∷ ("Iterations: " <> to_string result.iterations)
    ∷ []

unfoldable pub main_chat :
    {W : Type 0} → Platform → Outcome (HttpClient W) → Environment → Program W
unfolding run_prompt to_string
main_chat p client env = with_agent p client env concise (λ agent. λ c.
    after_run (run_prompt p agent capital_question no_overrides c.world)
      (λ result. done (shown_tokens result)) c)

-- The conversation of a result with another question.
abbrev pub ask_more : AgentResult String → String → Conversation
ask_more result question = Conversation.add (Message.of_text Role.user question) result.conversation

abbrev pub alice : String
alice = "My name is Alice. Remember that."

abbrev pub name_question : String
name_question = "What is my name?"

abbrev pub count_question : String
count_question = "How many messages have we exchanged so far?"

-- What is printed before each of the three runs.
abbrev pub opening : List String
opening = "=== Turn 1 ===" ∷ "User: My name is Alice. Remember that." ∷ []

abbrev pub to_second : AgentResult String → List String
to_second result =
    ("Assistant: " <> result.output) ∷ "\n=== Turn 2 ===" ∷ "User: What is my name?" ∷ []

abbrev pub to_third : AgentResult String → List String
to_third result =
    ("Assistant: " <> result.output)
    ∷ "\n=== Turn 3 ==="
    ∷ "User: How many messages have we exchanged so far?"
    ∷ []

abbrev pub shown_turns : AgentResult String → List String
shown_turns result =
    ("Assistant: " <> result.output)
    ∷ ("\nConversation has "
        <> (to_string (pos (length result.conversation.messages)) <> " messages"))
    ∷ []

module _ {W : Type 0} (p : Platform) (agent : Agent W) where
  unfoldable pub second_turn : AgentResult String → Program W
  unfolding run_conversation to_string
  second_turn result c =
      let c' = print_all (to_third result) c in
      after_run (run_conversation p agent (ask_more result count_question) no_overrides c'.world)
        (λ result. done (shown_turns result)) c'

  unfoldable pub first_turn : AgentResult String → Program W
  unfolding run_conversation second_turn
  first_turn result c =
      let c' = print_all (to_second result) c in
      after_run (run_conversation p agent (ask_more result name_question) no_overrides c'.world)
        second_turn c'

  unfoldable pub turns : Program W
  unfolding run_prompt first_turn
  turns c =
      let c' = print_all opening c in
      after_run (run_prompt p agent alice no_overrides c'.world) first_turn c'

unfoldable pub main_turns :
    {W : Type 0} → Platform → Outcome (HttpClient W) → Environment → Program W
unfolding turns
main_turns p client env = with_agent p client env concise (λ agent. turns p agent)
