-- ===== src/Http/Curl/Transfer.antt =====
-- A post over a libcurl that hands the parts of a response to the callbacks in order.
use mathlib.Core.List.{append-nil, append_assoc}
use forgeant.Prelude.{
  ℕ, ◌^◌, ◌<◌, ◌<>◌, ◌≡◌, refl, ◌∙◌, Bool, true, false, not, none, some, List, [], ◌∷◌, ◌++◌, eqb,
  length, All, if◌then◌else◌, arith,
}
use forgeant.Prelude.Int.{wrap_int}
use forgeant.Outcome.{Outcome, ok, throw, runtime_error}
use forgeant.Action.{Action, pure, continue, ◌>>=◌}
use forgeant.Http.Bytes.{Bytes}
use forgeant.Http.Curl.{
  ByteHeaders, Config, Setup, Received, CurlCode, success, failure, is_success, error_text,
  Callback, Curl, StreamCallback, ByteResponse, nothing_received, write_callback, on_header, finish,
  setup_of, after_chunk, perform_post, post, post_stream,
}
use forgeant.Http.Curl.HeaderLine.{parse_line, header_callback-parse_line}
use forgeant.Http.Curl.Scan.{at_colon}

pub data Event : Type 0 where
  header_line body_chunk : Bytes → Event

abbrev call : {W : Type 0} → Callback W → Callback W → Event → Action (Received × W) ℕ
call write header (header_line line) = header line
call write header (body_chunk chunk) = write chunk

abbrev size_of : Event → ℕ
size_of (header_line line) = length line
size_of (body_chunk chunk) = length chunk

-- The callbacks on the parts in turn, until one takes less than it is given.
unfoldable pub deliver :
    {W : Type 0} → Callback W → Callback W → List Event → Action (Received × W) Bool
deliver write header [] = pure true
deliver write header (e ∷ es) = do
  n ← call write header e
  λ s. (let rest = deliver write header es s in if eqb n (size_of e) then rest else (ok false, s))

abbrev pub code_of : CurlCode → Bool → CurlCode
code_of code true = code
code_of code false = failure "Failed writing received data to the application"

-- What libcurl documents: it runs the callbacks on the parts of the response, in order; a callback
-- that takes less than it is given ends the transfer with `CURLE_WRITE_ERROR`, and else `code` is
-- the result. The network takes the world from `w` to `w'` before the first part arrives.
pub record Delivers {W : Type 0} (curl : Curl W) (setup : Setup) (w w' : W) (events : List Event)
    (code : CurlCode) : Type 0 where
  pub performs :
      (write header : Callback W) (received : Received)
      → curl.perform setup write header (received, w)
        ≡ (do complete ← deliver write header events; pure (code_of code complete)) (received, w')

-- A header line has a size.
abbrev pub IsShort : Event → Type 0
IsShort (header_line line) = length line < 2 ^ 64
IsShort (body_chunk chunk) = Unit

-- The response's body and headers, from its parts.
abbrev pub body_bytes : List Event → Bytes
body_bytes [] = []
body_bytes (header_line _ ∷ es) = body_bytes es
body_bytes (body_chunk chunk ∷ es) = chunk ++ body_bytes es

abbrev pub parse_headers : List Event → ByteHeaders → ByteHeaders
parse_headers [] headers = headers
parse_headers (header_line line ∷ es) headers =
    parse_headers es (parse_line (at_colon line) headers)
parse_headers (body_chunk _ ∷ es) headers = parse_headers es headers

eqb_refl : (n : ℕ) → eqb n n ≡ true
eqb_refl n = ground arith

deliver-body_bytes :
    {W : Type 0} (events : List Event) (received : Received) (w : W)
    → All IsShort events
    → deliver (write_callback none) on_header events (received, w) ≡ (
      ok true,
      (
        record received {
          body = received.body ++ body_bytes events;
          headers = parse_headers events received.headers;
        },
        w,
      ),
    )
unfolding deliver write_callback on_header
deliver-body_bytes [] received w h = rw append-nil
deliver-body_bytes (header_line line ∷ es) received w h =
    rw (header_callback-parse_line line received.headers h.0) (
      rw (eqb_refl (length line)) (
        deliver-body_bytes es
          (record received { headers = parse_line (at_colon line) received.headers }) w h.1))
deliver-body_bytes (body_chunk chunk ∷ es) received w h = rw (eqb_refl (length chunk)) (
    deliver-body_bytes es (record received { body = received.body ++ chunk }) w h.1
    ∙ rw append_assoc)

-- The result of `post` from the parts of the response and the code.
abbrev pub reply : {W : Type 0} → Curl W → List Event → CurlCode → W → Outcome ByteResponse
reply curl events success w = ok (record {
  status_code = wrap_int (curl.response_code w);
  headers = parse_headers events [];
  body = body_bytes events;
})
reply curl events (failure text) w = throw (runtime_error ("HTTP request failed: " <> text))

module _ {W : Type 0} (curl : Curl W) (config : Config) (url : Bytes) (headers : ByteHeaders)
    (body : Bytes) (w w' : W) (events : List Event) (code : CurlCode) where
  -- Where libcurl hands the parts of a response to the callbacks in order and then reports success,
  -- `post` returns the status, all the chunks of the body joined in order, and the headers of all the
  -- lines, the first one of each name; where libcurl reports a failure, `post` throws its text.
  pub post-reply :
      Delivers curl (setup_of curl config url headers body) w w' events code
      → All IsShort events
      → post curl config url headers body w ≡ (reply curl events code w', w')
  unfolding perform_post
  post-reply d short =
      rw (d.performs (write_callback none) on_header nothing_received)
        (rw (deliver-body_bytes events nothing_received w' short) (go code))
    where
      go :
          (code : CurlCode)
          → finish curl none (
            ok code,
            (
              record nothing_received {
                body = body_bytes events;
                headers = parse_headers events [];
              },
              w',
            ),
          )
            ≡ (reply curl events code w', w')
      go success = refl
      go (failure text) = refl

-- What a stream's callback sees, until it asks to stop: whether it did, the headers so far, and the
-- world that it leaves.
abbrev pub watch :
    {W : Type 0} → StreamCallback W → List Event → ByteHeaders → W → Bool × ByteHeaders × W
watch f [] headers w = (false, headers, w)
watch f (header_line line ∷ es) headers w = watch f es (parse_line (at_colon line) headers) w
watch f (body_chunk chunk ∷ es) headers w =
    let (more, w') = f chunk w in
    let rest = watch f es headers w' in if more then rest else (true, headers, w')

-- A chunk has a byte.
abbrev pub IsProper : Event → Type 0
IsProper (header_line line) = length line < 2 ^ 64
IsProper (body_chunk chunk) = 0 < length chunk

abbrev watched : {W : Type 0} → Bool × ByteHeaders × W → Outcome Bool × (Received × W)
watched (stopped, headers, w) =
    (ok (not stopped), (record { body = []; aborted = stopped; headers = headers }, w))

empty_differs : (n : ℕ) → 0 < n → eqb 0 n ≡ false
empty_differs n h = ground arith

deliver-watch :
    {W : Type 0} (f : StreamCallback W) (events : List Event) (headers : ByteHeaders) (w : W)
    → All IsProper events
    → deliver
        (write_callback (some f))
        on_header
        events
        (record { body = []; aborted = false; headers = headers }, w)
      ≡ watched (watch f events headers w)
unfolding deliver write_callback on_header
deliver-watch f [] headers w h = refl
deliver-watch f (header_line line ∷ es) headers w h =
    rw (header_callback-parse_line line headers h.0)
      (rw (eqb_refl (length line)) (deliver-watch f es (parse_line (at_colon line) headers) w h.1))
deliver-watch {W = W} f (body_chunk chunk ∷ es) headers w h =
    go (λ w'. deliver-watch f es headers w' h.1) (f chunk w)
  where
    so_far : Received
    so_far = record { body = []; aborted = false; headers = headers }

    go :
        ((w' : W)
          → deliver (write_callback (some f)) on_header es (so_far, w')
            ≡ watched (watch f es headers w'))
        → (r : Bool × W)
        → continue
            (after_chunk (length chunk) so_far r).0
            (λ n s.
              if eqb n (length chunk)
              then deliver (write_callback (some f)) on_header es s
              else (ok false, s))
            (after_chunk (length chunk) so_far r).1
          ≡ watched (if r.0 then watch f es headers r.1 else (true, headers, r.1))
    go ih (false, w') = rw (empty_differs (length chunk) h.0)
    go ih (true, w') = rw (eqb_refl (length chunk)) (ih w')

-- The result of `post_stream` from what the callback saw and the code.
abbrev pub stream_reply :
    {W : Type 0} → Curl W → CurlCode → Bool × ByteHeaders × W → Outcome ByteResponse × W
stream_reply curl code (stopped, headers, w) =
    let kept = if stopped then true else is_success code in
    (
      if kept
          then ok (record {
            status_code = wrap_int (curl.response_code w);
            headers = headers;
            body = [];
          })
          else throw (runtime_error ("HTTP request failed: " <> error_text code)),
      w,
    )

module _ {W : Type 0} (curl : Curl W) (config : Config) (url : Bytes) (headers : ByteHeaders)
    (body : Bytes) (f : StreamCallback W) (w w' : W) (events : List Event) (code : CurlCode) where
  -- Where libcurl hands the parts of a response to the callbacks in order, none of the chunks empty,
  -- the callback of `post_stream` sees the chunks in order up to the first that it refuses, and no
  -- body is kept. A refusal is no failure: the response is returned then with the headers so far, and
  -- else as the code of libcurl says.
  pub post_stream-reply :
      Delivers curl (setup_of curl config url headers body) w w' events code
      → All IsProper events
      → post_stream curl config url headers body f w ≡ stream_reply curl code (watch f events [] w')
  unfolding perform_post
  post_stream-reply d proper =
      rw (d.performs (write_callback (some f)) on_header nothing_received)
        (rw (deliver-watch f events [] w' proper) (go (watch f events [] w')))
    where
      go :
          (r : Bool × ByteHeaders × W)
          → finish curl (some f) (
            ok (code_of code (not r.0)),
            (record { body = []; aborted = r.0; headers = r.1 }, r.2),
          )
            ≡ stream_reply curl code r
      go (true, hs, w'') = refl
      go (false, hs, w'') = refl
