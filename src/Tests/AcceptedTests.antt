-- ===== src/Tests/AcceptedTests.antt =====
-- A typed run for a review: the first answer is no JSON, and the second one is a review.
use forgeant.Agent.{no_overrides}
use forgeant.Prelude.{ℕ, zero, suc, String, ◌≡◌, refl, some, [], ◌==◌, if◌then◌else◌, arith}
use forgeant.Prelude.Int.{pos, wrap_int, add_int, ◌+ℤ◌}
use forgeant.Double
use forgeant.Outcome.{Outcome, ok, throw, runtime_error}
use forgeant.Platform.{Platform, Generic, GenericMembers, ReadResult}
use forgeant.Json.{Json, string, integer, object, member, end}
use forgeant.Json.Text.{parse}
use forgeant.Types.Conversation
use forgeant.Provider.{LlmResponse}
use forgeant.Agent.{Agent, LoopResult, returned, execute_loop, extract_last_text, default_options}
use forgeant.Agent.Typed.{execute_typed, parse_output, run_typed_prompt}
use forgeant.Agent.Typed.Retries.{Progress, no_retry, retry_then, fresh, after_attempt}
use forgeant.Agent.Typed.Accepted.{result_at, execute_typed-accepted}
use forgeant.Schema.Conforms.{Accepts}
use forgeant.Examples.Movies.{MovieReview, param_movie, get_movie, movie_question}
use forgeant.Examples.Movies.Laws.{get_movie_iff}
use forgeant.Examples.Movies.Reviews.{ReviewEnds, run_typed_prompt-ReviewEnds}
use forgeant.Tests.Data.{platform, question, final_response}

abbrev review_text : String
review_text = "{\"rating\":9,\"summary\":\"red pill\",\"title\":\"The Matrix\"}"

abbrev review_generic : Generic
review_generic = Generic.object (
    GenericMembers.member "rating" (Generic.number (Double.of_integer (pos 9))) (
      GenericMembers.member "summary" (Generic.string "red pill")
        (GenericMembers.member "title" (Generic.string "The Matrix") GenericMembers.end)))

abbrev reader : Platform
reader = record platform {
  read_json =
      λ s. if s == review_text then ReadResult.value review_generic else ReadResult.error "no";
}

abbrev script : ℕ → Outcome LlmResponse
script zero = ok (final_response "hello")
script (suc n) = ok (final_response review_text)

abbrev critic : Agent ℕ
critic = record {
  provider = record { chat = λ conv request w. (script w, suc w) };
  registry = record { tools = [] };
  options = default_options;
}

abbrev json : Json
json = object (
    member "rating" (integer (pos 9))
      (member "summary" (string "red pill") (member "title" (string "The Matrix") end)))

abbrev review : MovieReview
review = record { title = "The Matrix"; rating = pos 9; summary = "red pill" }

abbrev first : LoopResult
first = record {
  conversation = Conversation.add (final_response "hello").message question;
  total_usage = record { input_tokens = pos 10; output_tokens = pos 2 };
  iterations = pos 1;
  finish_reason = "stop";
}

abbrev second_start : Progress ℕ
second_start =
    after_attempt reader get_movie critic no_overrides param_movie.schema 0 (fresh question 0) first
      (runtime_error "Json::parse: no") 1

abbrev second : LoopResult
second = record first {
  conversation = Conversation.add (final_response review_text).message second_start.conversation;
}

first_returns :
    execute_loop reader critic question no_overrides (some param_movie.schema) 0
    ≡ (returned first, 1)
unfolding execute_loop add_int wrap_int ◌+ℤ◌
first_returns = refl

first_unreadable :
    parse_output reader get_movie (extract_last_text first.conversation)
    ≡ throw (runtime_error "Json::parse: no")
unfolding parse_output extract_last_text
first_unreadable = refl

second_returns :
    execute_loop reader critic second_start.conversation no_overrides (some param_movie.schema) 1
    ≡ (returned second, 2)
unfolding execute_loop add_int wrap_int ◌+ℤ◌
second_returns = refl

second_parses : parse reader (extract_last_text second.conversation) ≡ ok json
unfolding parse extract_last_text Double.of_integer Double.round_53 Double.one
second_parses = refl

json_accepted : Accepts param_movie.schema json
unfolding get_movie wrap_int
json_accepted = (get_movie_iff json).0 (review, refl)

execute_typed-accepted_run :
    (output : MovieReview) × (get_movie json ≡ ok output)
    × (execute_typed reader get_movie critic param_movie.schema question no_overrides 0 ≡ (
      returned (
          result_at reader get_movie critic no_overrides param_movie.schema second_start second
            output),
      2,
    ))
execute_typed-accepted_run =
    execute_typed-accepted reader get_movie param_movie.schema get_movie_iff critic no_overrides
      question 0 1 second_start second json 2 (omega arith)
      (retry_then
        (record {
          result = first;
          error = runtime_error "Json::parse: no";
          world = 1;
          returns = first_returns;
          unreadable = first_unreadable;
          leads_to = refl;
        })
        no_retry)
      second_returns second_parses json_accepted

run_typed_prompt-ReviewEnds_example :
    ReviewEnds reader critic no_overrides
      (run_typed_prompt reader get_movie critic param_movie.schema movie_question no_overrides 0).0
run_typed_prompt-ReviewEnds_example =
    run_typed_prompt-ReviewEnds reader critic no_overrides movie_question 0
