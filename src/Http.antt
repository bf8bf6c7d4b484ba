-- ===== src/Http.antt =====
-- include/forgeant/http: the response, the headers and the interface of an HTTP client. What the
-- network does is the outside world.
pub mod Bytes
pub mod Curl
use forgeant.Prelude.{String, Bool, List}
use forgeant.Prelude.Int.{ℤ}
use forgeant.Outcome.{Outcome}
use forgeant.Action.{Action}

-- `std::unordered_map<std::string, std::string>`, in the order in which the code writes it.
abbrev pub HttpHeaders : Type 0
HttpHeaders = List (String × String)

pub record HttpResponse : Type 0 where
  pub status_code : ℤ
  pub headers : HttpHeaders
  pub body : String

-- It is given a chunk, and tells whether to go on.
abbrev pub StreamCallback : Type 0 → Type 0
StreamCallback W = String → W → Bool × W

-- The class `HttpClient`, of which the providers use `post`. A future is what its `get` will give.
pub record HttpClient (W : Type 0) : Type 0 where
  pub post : String → HttpHeaders → String → Action W HttpResponse
  pub async_post : String → HttpHeaders → String → Action W (Outcome HttpResponse)
  pub post_stream : String → HttpHeaders → String → StreamCallback W → Action W HttpResponse
