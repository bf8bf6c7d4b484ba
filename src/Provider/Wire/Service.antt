-- ===== src/Provider/Wire/Service.antt =====
-- A service behind an HTTP client that gives its answers in the order of a script.
use forgeant.Prelude.{String, true, false, ◌≡◌, refl, List, [], ◌∷◌}
use forgeant.Outcome.{Outcome, Exception, ok, throw, runtime_error}
use forgeant.Action.{lift, ◌>>=◌}
use forgeant.Platform.{Platform}
use forgeant.Json.{Json}
use forgeant.Types.Conversation.{Conversation}
use forgeant.Http.{HttpClient, HttpHeaders, HttpResponse}
use forgeant.Provider.{ChatRequest, LlmResponse, LlmProvider}
use forgeant.Provider.Wire.{is_failure, error_message, read_reply}
use forgeant.Provider.Wire.Closing.{is_refused}
use forgeant.Provider.Wire.Replies.{Accepted, read_reply_iff}

module _ {W : Type 0} (left : W → List LlmResponse) where
  -- Each post takes the first answer that is left, with a response that `read` reads as this answer.
  pub record Scripted (p : Platform) (http : HttpClient W) (read : Json → Outcome LlmResponse)
      : Type 0 where
    pub response : W → HttpResponse
    pub world : String → HttpHeaders → String → W → W
    pub posts :
        (url : String) (headers : HttpHeaders) (body : String) (w : W) (answer : LlmResponse)
        (later : List LlmResponse)
        → left w ≡ answer ∷ later
        → http.post url headers body w ≡ (ok (response w), world url headers body w)
    pub accepted :
        (w : W) (answer : LlmResponse) (later : List LlmResponse)
        → left w ≡ answer ∷ later
        → Accepted p read (response w) answer
    pub takes :
        (url : String) (headers : HttpHeaders) (body : String) (w : W) (answer : LlmResponse)
        (later : List LlmResponse)
        → left w ≡ answer ∷ later
        → left (world url headers body w) ≡ later

  -- Once no answer is left, each post gives `response`, whose status is a failure.
  pub record Breaks (http : HttpClient W) (response : HttpResponse) : Type 0 where
    pub failure : is_failure response.status_code ≡ true
    pub posts :
        (url : String) (headers : HttpHeaders) (body : String) (w : W)
        → left w ≡ []
        → (w' : W) × (http.post url headers body w ≡ (ok response, w'))

  -- The provider gives the first answer that is left, unless it refuses the schema.
  pub record Recites (provider : LlmProvider W) : Type 0 where
    pub at :
        (conv : Conversation) (request : ChatRequest) (w : W) (answer : LlmResponse)
        (later : List LlmResponse)
        → is_refused request.output_schema ≡ false
        → left w ≡ answer ∷ later
        → (w' : W) × (provider.chat conv request w ≡ (ok answer, w')) × (left w' ≡ later)

  -- The provider throws `e` once no answer is left, unless it refuses the schema.
  pub record BreaksWith (e : Exception) (provider : LlmProvider W) : Type 0 where
    pub at :
        (conv : Conversation) (request : ChatRequest) (w : W)
        → is_refused request.output_schema ≡ false
        → left w ≡ []
        → (w' : W) × (provider.chat conv request w ≡ (throw e, w'))

module _ {W : Type 0} (p : Platform) (http : HttpClient W) (read : Json → Outcome LlmResponse)
    (left : W → List LlmResponse) (service : Scripted left p http read) where
  -- What `chat` makes of a post.
  pub read_reply-script :
      (name url : String) (headers : HttpHeaders) (body : String) (w : W) (answer : LlmResponse)
      (later : List LlmResponse)
      → left w ≡ answer ∷ later
      → (w' : W) × ((http.post url headers body >>= λ response.
              lift (read_reply p name read response))
            w
          ≡ (ok answer, w'))
        × (left w' ≡ later)
  read_reply-script name url headers body w answer later h =
      let accepts = read_reply_iff p name read (service.response w) answer in
      (
        service.world url headers body w,
        rw (service.posts url headers body w answer later h)
            (rw (accepts.1 (service.accepted w answer later h)) refl),
        service.takes url headers body w answer later h,
      )

module _ {W : Type 0} (p : Platform) (http : HttpClient W) (read : Json → Outcome LlmResponse)
    (left : W → List LlmResponse) (bad : HttpResponse) (service : Breaks left http bad) where
  pub read_reply-broken :
      (name url : String) (headers : HttpHeaders) (body : String) (w : W)
      → left w ≡ []
      → (w' : W) × ((http.post url headers body >>= λ response.
              lift (read_reply p name read response))
            w
          ≡ (throw (runtime_error (error_message p name bad)), w'))
  unfolding read_reply
  read_reply-broken name url headers body w h =
      let post = service.posts url headers body w h in (post.0, rw post.1 (rw service.failure refl))
