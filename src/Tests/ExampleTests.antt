-- ===== src/Tests/ExampleTests.antt =====
-- The example programs at concrete environments, replies and arguments.
use forgeant.Prelude.{String, ◌≡◌, ◌↔◌, ◌<>◌, refl, none, some, [], inl, inr}
use forgeant.Prelude.Int.{pos, wrap_int}
use forgeant.Outcome.{ok, throw, runtime_error}
use forgeant.Json.{Json, string, integer, object, member, end, Members}
use forgeant.Http.{HttpClient}
use forgeant.Schema.Conforms.{Accepts}
use forgeant.Examples.{Console, Environment}
use forgeant.Examples.Movies.{MovieReview, param_movie, get_movie, main_movie}
use forgeant.Examples.Movies.Laws.{get_movie_iff}
use forgeant.Examples.Weather.{get_weather, weather_tool, main_weather}
use forgeant.Examples.Weather.Laws.{params_of, IsUnit, weather_tool-Accepts}
use forgeant.Examples.Chats.{main_chat, main_turns}
use forgeant.Examples.Exits.{Exits, examples-Exits}
use forgeant.Tests.Data.{platform}

abbrev matrix : Json
matrix = object (
    member "rating" (integer (pos 9))
      (member "summary" (string "red pill") (member "title" (string "The Matrix") end)))

get_movie_iff_example :
    ((r : MovieReview) × (get_movie matrix ≡ ok r)) ↔ Accepts param_movie.schema matrix
get_movie_iff_example = get_movie_iff matrix

matrix_read :
    get_movie matrix ≡ ok (record { title = "The Matrix"; rating = pos 9; summary = "red pill" })
unfolding get_movie wrap_int
matrix_read = refl

abbrev denver : Members
denver = member "city" (string "Denver") (member "unit" (string "celsius") end)

denver_accepted : Accepts (weather_tool {W = String}).parameters (object denver)
unfolding weather_tool
denver_accepted = (
  (((tt, (refl, tt))), (((tt, (tt, (inr (inl refl), (refl, tt)))), tt))),
  ((refl, tt), (refl, tt)),
)

weather_tool-Accepts_example :
    (get_weather (object denver) ≡ ok (params_of denver))
    × IsUnit (params_of denver).unit
    × ((weather_tool {W = String}).execute (object denver) "w"
        ≡ (ok (string ("72°F and sunny in " <> (params_of denver).city)), "w"))
weather_tool-Accepts_example = weather_tool-Accepts denver "w" denver_accepted

-- A client that answers every post with a failure, and an environment that names a provider.
abbrev client : HttpClient String
client = record {
  post = λ url headers body w.
      (ok (record { status_code = pos 503; headers = []; body = "busy" }), url);
  async_post = λ url headers body w. (throw (runtime_error "unused"), w);
  post_stream = λ url headers body on_chunk w. (throw (runtime_error "unused"), w);
}

abbrev environment : Environment
environment = record { provider = some "openai"; model = none; api_key = some "k" }

abbrev console : Console String
console = record { out = []; err = []; world = "" }

examples-Exits_example :
    Exits console (main_chat platform (ok client) environment console)
    × Exits console (main_turns platform (ok client) environment console)
    × Exits console (main_movie platform (ok client) environment console)
    × Exits console (main_weather platform (ok client) environment console)
examples-Exits_example = examples-Exits platform (ok client) environment console
