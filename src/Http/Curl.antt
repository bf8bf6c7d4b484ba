-- ===== src/Http/Curl.antt =====
-- src/http/curl_client.cpp and include/forgeant/http/curl_client.hpp: the callbacks that libcurl runs
-- during a transfer, and the post around it. libcurl is a parameter.
pub mod Scan
pub mod HeaderLine
pub mod Transfer
pub mod Handles
use forgeant.Prelude.{
  ℕ, ◌+◌, ◌-◌, ◌%◌, ◌^◌, String, ◌<>◌, Bool, true, false, Option, none, some, List, [], ◌∷◌, ◌++◌,
  eqb, length, if◌then◌else◌,
}
use forgeant.Prelude.Int.{ℤ, wrap_int}
use forgeant.Outcome.{Outcome, ok, throw, runtime_error}
use forgeant.Action.{Action, pure, lift, ◌>>=◌, ◌>>◌}
use forgeant.Http.Bytes.{Bytes, find, find_first_not_of, find_last_not_of, substr}

-- `std::unordered_map<std::string, std::string>`, in the order of insertion.
abbrev pub ByteHeaders : Type 0
ByteHeaders = List (Bytes × Bytes)

abbrev pub same_bytes : Bytes → Bytes → Bool
same_bytes [] [] = true
same_bytes [] (_ ∷ _) = false
same_bytes (_ ∷ _) [] = false
same_bytes (x ∷ xs) (y ∷ ys) = let rest = same_bytes xs ys in if eqb x y then rest else false

-- `emplace` keeps a value that is there.
unfoldable pub emplace : Bytes → Bytes → ByteHeaders → ByteHeaders
emplace key value [] = (key, value) ∷ []
emplace key value ((k, v) ∷ headers) =
    let rest = emplace key value headers in
    if same_bytes k key then (k, v) ∷ headers else (k, v) ∷ rest

-- `a - b + 1` on `size_t`
abbrev pub span : ℕ → ℕ → ℕ
span a b = (a + (2 ^ 64 - b) + 1) % 2 ^ 64

-- The body of the outer `if` of `header_callback`.
abbrev pub add_value : Bytes → Bytes → Option ℕ → Option ℕ → Action ByteHeaders Unit
add_value line key (some value_start) (some value_end) = do
  value ← lift (substr value_start (span value_end value_start) line)
  λ headers. (ok tt, emplace key value headers)
add_value line key none _ = pure tt
add_value line key (some _) none = pure tt

abbrev pub add_header : Bytes → Option ℕ → Action ByteHeaders Unit
add_header line none = pure tt
add_header line (some colon) = do
  key ← lift (substr 0 colon line)
  add_value line key (find_first_not_of 32 (colon + 1) line) (find_last_not_of line)

unfoldable pub header_callback : Bytes → Action ByteHeaders ℕ
unfolding find_last_not_of substr emplace find
header_callback line = do add_header line (find 58 line); pure (length line)

pub record Config : Type 0 where
  pub connect_timeout : ℤ
  pub transfer_timeout : ℤ

-- What is set on the handle after `curl_easy_reset`.
pub record Setup : Type 0 where
  pub url : Bytes
  pub post_fields : Bytes
  pub post_field_size : ℕ
  pub connect_timeout : ℤ
  pub timeout : ℤ
  pub http_header : List Bytes

-- `WriteContext` and the headers of the response, which the callbacks write to.
pub record Received : Type 0 where
  pub body : Bytes
  pub aborted : Bool
  pub headers : ByteHeaders

-- `CURLE_OK`, or another code with the text of `curl_easy_strerror`
pub data CurlCode : Type 0 where
  success : CurlCode
  failure : String → CurlCode

abbrev pub is_success : CurlCode → Bool
is_success success = true
is_success (failure _) = false

abbrev pub error_text : CurlCode → String
error_text success = ""
error_text (failure text) = text

abbrev pub Callback : Type 0 → Type 0
Callback W = Bytes → Action (Received × W) ℕ

pub record Curl (W : Type 0) : Type 0 where
  -- `curl_easy_perform`, with the callbacks for the body and for the headers
  pub perform : Setup → Callback W → Callback W → Action (Received × W) CurlCode
  -- `curl_easy_getinfo` with `CURLINFO_RESPONSE_CODE`
  pub response_code : W → ℤ
  -- the order in which a `std::unordered_map` of headers iterates
  pub bucket_order : ByteHeaders → ByteHeaders

abbrev pub StreamCallback : Type 0 → Type 0
StreamCallback W = Bytes → W → Bool × W

pub record ByteResponse : Type 0 where
  pub status_code : ℤ
  pub headers : ByteHeaders
  pub body : Bytes

-- What a C function reads from `c_str()`: the bytes before the first zero.
unfoldable pub c_string : Bytes → Bytes
c_string [] = []
c_string (b ∷ bs) = let rest = c_string bs in if eqb b 0 then [] else b ∷ rest

unfoldable pub header_lines : ByteHeaders → List Bytes
unfolding c_string
header_lines [] = []
header_lines ((key, value) ∷ headers) = c_string (key ++ 58 ∷ 32 ∷ value) ∷ header_lines headers

abbrev pub nothing_received : Received
nothing_received = record { body = []; aborted = false; headers = [] }

module _ {W : Type 0} where
  abbrev pub after_chunk : ℕ → Received → Bool × W → Outcome ℕ × (Received × W)
  after_chunk total received (false, w) = (ok 0, (record received { aborted = true }, w))
  after_chunk total received (true, w) = (ok total, (received, w))

  unfoldable pub write_callback : Option (StreamCallback W) → Callback W
  write_callback (some on_chunk) chunk (received, w) =
      after_chunk (length chunk) received (on_chunk chunk w)
  write_callback none chunk (received, w) =
      (ok (length chunk), (record received { body = received.body ++ chunk }, w))

  abbrev keep_world : W → Received → Outcome ℕ × ByteHeaders → Outcome ℕ × (Received × W)
  keep_world w received (r, headers) = (r, (record received { headers = headers }, w))

  -- `header_callback` on the headers of the response.
  unfoldable pub on_header : Callback W
  unfolding header_callback
  on_header line (received, w) = keep_world w received (header_callback line received.headers)

  abbrev body_of : Option (StreamCallback W) → Received → Bytes
  body_of none received = received.body
  body_of (some _) received = []

  -- `perform_post` from the result of `curl_easy_perform` on.
  abbrev pub finish :
      Curl W
      → Option (StreamCallback W)
      → Outcome CurlCode × (Received × W)
      → Outcome ByteResponse × W
  finish curl on_chunk (throw e, (received, w)) = (throw e, w)
  finish curl on_chunk (ok code, (received, w)) =
      let response : ByteResponse = record {
        status_code = wrap_int (curl.response_code w);
        headers = received.headers;
        body = body_of on_chunk received;
      } in
      let kept = if received.aborted then true else is_success code in
      (
        if kept
            then ok response
            else throw (runtime_error ("HTTP request failed: " <> error_text code)),
        w,
      )

  abbrev pub setup_of : Curl W → Config → Bytes → ByteHeaders → Bytes → Setup
  setup_of curl config url headers body = record {
    url = c_string url;
    post_fields = body;
    post_field_size = length body;
    connect_timeout = config.connect_timeout;
    timeout = config.transfer_timeout;
    http_header = header_lines (curl.bucket_order headers);
  }

  unfoldable pub perform_post :
      Curl W
      → Config
      → Bytes
      → ByteHeaders
      → Bytes
      → Option (StreamCallback W)
      → Action W ByteResponse
  unfolding write_callback on_header header_lines c_string wrap_int
  perform_post curl config url headers body on_chunk w = finish curl on_chunk (
      curl.perform (setup_of curl config url headers body) (write_callback on_chunk) on_header
        (nothing_received, w))

  abbrev pub post : Curl W → Config → Bytes → ByteHeaders → Bytes → Action W ByteResponse
  post curl config url headers body = perform_post curl config url headers body none

  abbrev pub post_stream :
      Curl W → Config → Bytes → ByteHeaders → Bytes → StreamCallback W → Action W ByteResponse
  post_stream curl config url headers body on_chunk =
      perform_post curl config url headers body (some on_chunk)

  -- What the future of `async_post` holds. The client is a new one with the same settings: `made` is
  -- what its constructor gives or throws, and `w` is the world in which the thread runs.
  unfoldable pub async_post :
      Outcome (Curl W) → Config → Bytes → ByteHeaders → Bytes → Action W ByteResponse
  unfolding perform_post
  async_post made config url headers body = do curl ← lift made; post curl config url headers body
