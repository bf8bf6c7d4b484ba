-- ===== src/Tests/HttpTests.antt =====
-- Posts over a libcurl that delivers a short response.
use forgeant.Prelude.{ℕ, suc, ◌≡◌, refl, List, [], ◌∷◌, length, ltb, arith}
use forgeant.Prelude.Int.{pos}
use forgeant.Outcome.{ok}
use forgeant.Action.{pure, ◌>>=◌}
use forgeant.Http.Bytes.{Bytes, first_not_of}
use forgeant.Http.Curl.{
  Config, CurlCode, success, Curl, StreamCallback, header_callback, setup_of, perform_post, post,
  post_stream,
}
use forgeant.Http.Curl.HeaderLine.{parse_line, header_callback-parse_line}
use forgeant.Http.Curl.Scan.{at_colon}
use forgeant.Http.Curl.Transfer.{
  Event, header_line, body_chunk, deliver, code_of, Delivers, watch, reply, stream_reply,
  post-reply, post_stream-reply,
}

-- "Key:  v \r\n"
abbrev line : Bytes
line = 75 ∷ 101 ∷ 121 ∷ 58 ∷ 32 ∷ 32 ∷ 118 ∷ 32 ∷ 13 ∷ 10 ∷ []

line_runs : header_callback line [] ≡ (ok 10, ((75 ∷ 101 ∷ 121 ∷ [], 118 ∷ 32 ∷ []) ∷ []))
unfolding header_callback first_not_of
line_runs = refl

-- A value that is empty is kept where a line end stands behind the spaces.
empty_value : header_callback (75 ∷ 58 ∷ 32 ∷ 13 ∷ 10 ∷ []) [] ≡ (ok 5, (75 ∷ [], []) ∷ [])
unfolding header_callback first_not_of
empty_value = refl

header_callback-parse_line_example :
    header_callback line [] ≡ (ok (length line), parse_line (at_colon line) [])
header_callback-parse_line_example = header_callback-parse_line line [] (omega arith)

abbrev events : List Event
events = header_line line ∷ body_chunk (1 ∷ 2 ∷ []) ∷ body_chunk (3 ∷ []) ∷ []

abbrev curl : CurlCode → Curl ℕ
curl code = record {
  perform = λ setup write header. (do
    complete ← deliver write header events
    pure (code_of code complete));
  response_code = λ w. pos 200;
  bucket_order = λ headers. headers;
}

abbrev config : Config
config = record { connect_timeout = pos 30; transfer_timeout = pos 300 }

delivers :
    (code : CurlCode) → Delivers (curl code) (setup_of (curl code) config [] [] []) 0 0 events code
delivers code = record { performs = λ write header received. refl }

post-reply_example :
    post (curl success) config [] [] [] 0 ≡ (reply (curl success) events success 0, 0)
post-reply_example =
    post-reply (curl success) config [] [] [] 0 0 events success (delivers success)
      (omega arith, (tt, (tt, tt)))

-- The callback takes one chunk and refuses the next.
abbrev once : StreamCallback ℕ
once chunk seen = (ltb seen 1, suc seen)

post_stream-reply_example :
    post_stream (curl success) config [] [] [] once 0
    ≡ stream_reply (curl success) success (watch once events [] 0)
post_stream-reply_example =
    post_stream-reply (curl success) config [] [] [] once 0 0 events success (delivers success)
      (omega arith, (omega arith, (omega arith, tt)))

stream_runs : post_stream (curl success) config [] [] [] once 0 ≡ (
  ok (record {
    status_code = pos 200;
    headers = (75 ∷ 101 ∷ 121 ∷ [], 118 ∷ 32 ∷ []) ∷ [];
    body = [];
  }),
  2,
)
unfolding deliver header_callback perform_post first_not_of
stream_runs = refl
