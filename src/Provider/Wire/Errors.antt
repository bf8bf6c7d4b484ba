-- ===== src/Provider/Wire/Errors.antt =====
-- The message for a response with a bad status against what the body of the response is.
use text.Mathlib.TextLemmas.{append-nil}
use forgeant.Prelude.{
  String, ◌<>◌, ◌≡◌, ◌≢◌, refl, sym, Bool-cases, inl, inr, Option, none, some, ◌==◌, eq_iff,
  if◌then◌else◌,
}
use forgeant.Prelude.Int.{ℤ}
use forgeant.Prelude.Decimal.{to_string}
use forgeant.Outcome.{Outcome, Exception, ok, throw, ◌>>=◌}
use forgeant.Platform.{Platform}
use forgeant.Json.{
  Json, null, boolean, integer, number, string, array, object, find, contains, index, get_string,
}
use forgeant.Json.Text.{parse}
use forgeant.Http.{HttpResponse}
use forgeant.Provider.Wire.{error_detail, error_message, or_body}

-- What an object has under a key; nothing else has one.
abbrev pub entry : String → Json → Option Json
entry k (object ms) = find k ms
entry k _ = none

-- What a body says of the error, as it stands behind the status in the message.
pub data Says (p : Platform) (body : String) : String → Type 0 where
  silent : body ≡ "" → Says p body ""
  no_json : {x : Exception} → body ≢ "" → parse p body ≡ throw x → Says p body (": " <> body)
  no_error : {j : Json} → body ≢ "" → parse p body ≡ ok j → entry "error" j ≡ none → Says p body ""
  no_message :
      {j err : Json}
      → body ≢ ""
      → parse p body ≡ ok j
      → entry "error" j ≡ some err
      → entry "message" err ≡ none
      → Says p body ""
  has_text :
      {j err : Json} {message : String}
      → body ≢ ""
      → parse p body ≡ ok j
      → entry "error" j ≡ some err
      → entry "message" err ≡ some (string message)
      → Says p body (": " <> message)
  no_text :
      {j err message : Json}
      → body ≢ ""
      → parse p body ≡ ok j
      → entry "error" j ≡ some err
      → entry "message" err ≡ some message
      → ((s : String) → message ≢ string s)
      → Says p body (": " <> body)

-- The message: the name of the provider, the status, and what the body says.
abbrev pub bad_status : String → ℤ → String → String
bad_status name status detail =
    (name <> (" API error (HTTP " <> (to_string status <> ")"))) <> detail

module _ (p : Platform) (body : String) where
  abbrev Adds : Outcome String → Type 0
  Adds r = (detail : String) × Says p body detail × (or_body body r ≡ detail)

  abbrev text_of : Json → Outcome String
  text_of m = do text ← get_string m; ok (": " <> text)

  abbrev of_error : Json → Outcome String
  of_error err = if contains "message" err then (do m ← index "message" err; text_of m) else ok ""

  abbrev of_json : Json → Outcome String
  of_json j = if contains "error" j then (do err ← index "error" j; of_error err) else ok ""

  module _ (full : body ≢ "") where
    module _ {j : Json} (parsed : parse p body ≡ ok j) where
      text_of-Adds :
          {err : Json} (m : Json)
          → entry "error" j ≡ some err
          → entry "message" err ≡ some m
          → Adds (text_of m)
      text_of-Adds (string s) e h = (": " <> s, has_text full parsed e h, refl)
      text_of-Adds null e h = (": " <> body, no_text full parsed e h (λ s d. cc), refl)
      text_of-Adds (boolean b) e h = (": " <> body, no_text full parsed e h (λ s d. cc), refl)
      text_of-Adds (integer n) e h = (": " <> body, no_text full parsed e h (λ s d. cc), refl)
      text_of-Adds (number d) e h = (": " <> body, no_text full parsed e h (λ s d. cc), refl)
      text_of-Adds (array xs) e h = (": " <> body, no_text full parsed e h (λ s d. cc), refl)
      text_of-Adds (object ms) e h = (": " <> body, no_text full parsed e h (λ s d. cc), refl)

      of_error-Adds : (err : Json) → entry "error" j ≡ some err → Adds (of_error err)
      unfolding contains index
      of_error-Adds (object ms) e = go (find "message" ms) refl
        where
          go : (o : Option Json) → find "message" ms ≡ o → Adds (of_error (object ms))
          go none h = rw h ("", no_message full parsed e h, refl)
          go (some m) h = rw h (text_of-Adds m e h)
      of_error-Adds null e = ("", no_message full parsed e refl, refl)
      of_error-Adds (boolean b) e = ("", no_message full parsed e refl, refl)
      of_error-Adds (integer n) e = ("", no_message full parsed e refl, refl)
      of_error-Adds (number d) e = ("", no_message full parsed e refl, refl)
      of_error-Adds (string s) e = ("", no_message full parsed e refl, refl)
      of_error-Adds (array xs) e = ("", no_message full parsed e refl, refl)

    of_json-Adds : (j : Json) → parse p body ≡ ok j → Adds (of_json j)
    unfolding contains index
    of_json-Adds (object ms) parsed = go (find "error" ms) refl
      where
        go : (o : Option Json) → find "error" ms ≡ o → Adds (of_json (object ms))
        go none h = rw h ("", no_error full parsed h, refl)
        go (some err) h = rw h (of_error-Adds parsed err h)
    of_json-Adds null parsed = ("", no_error full parsed refl, refl)
    of_json-Adds (boolean b) parsed = ("", no_error full parsed refl, refl)
    of_json-Adds (integer n) parsed = ("", no_error full parsed refl, refl)
    of_json-Adds (number d) parsed = ("", no_error full parsed refl, refl)
    of_json-Adds (string s) parsed = ("", no_error full parsed refl, refl)
    of_json-Adds (array xs) parsed = ("", no_error full parsed refl, refl)

    error_detail-Adds : Adds (error_detail p body)
    unfolding error_detail
    error_detail-Adds = go (parse p body) refl
      where
        go : (r : Outcome Json) → parse p body ≡ r → Adds (r >>= of_json)
        go (ok j) h = of_json-Adds j h
        go (throw x) h = (": " <> body, no_json full h, refl)

pub error_message-Says :
    (p : Platform) (name : String) (response : HttpResponse)
    → (detail : String) × Says p response.body detail
      × (error_message p name response ≡ bad_status name response.status_code detail)
unfolding error_message
error_message-Says p name response = elim (Bool-cases (response.body == "")) [
  | inl e ↦ rw e ("", silent ((eq_iff response.body "").0 e), sym (append-nil _))
  | inr e ↦
      (let adds =
          error_detail-Adds p response.body (λ same. cc (e, (eq_iff response.body "").1 same)) in
        rw e (adds.0, adds.1, rw adds.2 refl))
]
