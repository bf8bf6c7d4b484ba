-- ===== src/Examples/Movies.antt =====
-- examples/structured_output.cpp
pub mod Laws
pub mod Reviews
use forgeant.Agent.{no_overrides}
use forgeant.Prelude.{◌<>◌, String, List, [], ◌∷◌}
use forgeant.Prelude.Int.{ℤ, pos}
use forgeant.Prelude.Decimal.{to_string}
use forgeant.Outcome.{Outcome, ok, throw}
use forgeant.Action.{Action, pure, lift, modify, continue, ◌>>=◌, ◌>>◌}
use forgeant.Json.{Json, at, get_string, get_int}
use forgeant.Platform.{Platform}
use forgeant.Http.{HttpClient}
use forgeant.Agent.{AgentResult}
use forgeant.Agent.Typed.{run_typed_prompt}
use forgeant.Examples.{Environment, Program, done, after_run, with_agent}
use forgeant.Schema.{
  SchemaBuilder, ParamSchema, builder, description, property, required, build, string_schema,
  integer_schema, object_schema,
}

pub record MovieReview : Type 0 where
  pub title : String
  pub rating : ℤ
  pub summary : String

-- `MovieReview{}`
abbrev pub no_review : MovieReview
no_review = record { title = ""; rating = pos 0; summary = "" }

-- `Schema::...().description(...).build()`
abbrev pub described : SchemaBuilder → String → Json
described b text = (description text b.schema).1

abbrev pub schema : Action Json Unit
schema = do
  property "title" (described string_schema "Movie title")
  property "rating" (described integer_schema "Rating from 1 to 10")
  property "summary" (described string_schema "One sentence summary")
  required ("title" ∷ "rating" ∷ "summary" ∷ [])

unfoldable pub param_movie : ParamSchema MovieReview
unfolding builder description property required
param_movie = record { schema = (schema object_schema.schema).1 }

unfoldable pub from_json : Json → Action MovieReview Unit
unfolding at
from_json j = do
  title_json ← lift (at "title" j)
  title ← lift (get_string title_json)
  modify (λ review. record review { title = title })
  rating_json ← lift (at "rating" j)
  rating ← lift (get_int rating_json)
  modify (λ review. record review { rating = rating })
  summary_json ← lift (at "summary" j)
  summary ← lift (get_string summary_json)
  modify (λ review. record review { summary = summary })

-- `get<MovieReview>()`
abbrev result_of : Outcome (Unit {0}) × MovieReview → Outcome MovieReview
result_of (ok _, review) = ok review
result_of (throw e, review) = throw e

unfoldable pub get_movie : Json → Outcome MovieReview
unfolding from_json
get_movie j = result_of (from_json j no_review)

abbrev pub shown_review : AgentResult MovieReview → List String
shown_review result =
    ("Title: " <> result.output.title)
    ∷ ("Rating: " <> (to_string result.output.rating <> "/10"))
    ∷ ("Summary: " <> result.output.summary)
    ∷ []

abbrev pub movie_question : String
movie_question = "Review the movie 'The Matrix' (1999)."

unfoldable pub main_movie :
    {W : Type 0} → Platform → Outcome (HttpClient W) → Environment → Program W
unfolding run_typed_prompt get_movie param_movie to_string
main_movie p client env = with_agent p client env "" (λ agent. λ c.
    after_run
      (run_typed_prompt p get_movie agent param_movie.schema movie_question no_overrides c.world)
      (λ result. done (shown_review result)) c)
