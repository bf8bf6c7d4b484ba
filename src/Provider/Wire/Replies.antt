-- ===== src/Provider/Wire/Replies.antt =====
-- When the two providers take a response, and what they throw for one that they refuse.
use forgeant.Prelude.{String, ◌≡◌, refl, ◌↔◌, Bool, true, false, if◌then◌else◌, arith}
use forgeant.Prelude.Int.{ℤ, pos, ◌≤ℤ◌}
use forgeant.Outcome.{Outcome, ok, throw, runtime_error, ◌>>=◌}
use forgeant.Platform.{Platform}
use forgeant.Json.{Json}
use forgeant.Json.Text.{parse}
use forgeant.Http.{HttpResponse}
use forgeant.Provider.Wire.{is_failure, error_message, read_reply}

-- A status of the two hundreds.
abbrev pub IsSuccess : ℤ → Type 0
IsSuccess status = (pos 200 ≤ℤ status) × (status ≤ℤ pos 299)

IsSuccess-is_failure : (status : ℤ) → is_failure status ≡ false → IsSuccess status
IsSuccess-is_failure status h = ground arith

is_failure-IsSuccess : (status : ℤ) → IsSuccess status → is_failure status ≡ false
is_failure-IsSuccess status h = ground arith

pub record Accepted {A : Type 0} (p : Platform) (deserialize : Json → Outcome A)
    (response : HttpResponse) (a : A) : Type 0 where
  pub json : Json
  pub success : IsSuccess response.status_code
  pub parses : parse p response.body ≡ ok json
  pub reads : deserialize json ≡ ok a

bind_ok :
    {A : Type 0} (m : Outcome Json) (f : Json → Outcome A) (a : A)
    → (m >>= f) ≡ ok a
    → (j : Json) × (m ≡ ok j) × (f j ≡ ok a)
bind_ok (ok j) f a h = (j, refl, h)
bind_ok (throw e) f a h = cc

-- A response is taken exactly if its status is one of the two hundreds and its body parses to a JSON
-- that `deserialize` reads.
pub read_reply_iff :
    {A : Type 0} (p : Platform) (name : String) (deserialize : Json → Outcome A)
    (response : HttpResponse) (a : A)
    → (read_reply p name deserialize response ≡ ok a) ↔ Accepted p deserialize response a
unfolding read_reply
read_reply_iff {A = A} p name deserialize response a = (
  go (is_failure response.status_code) refl,
  λ t. rw (is_failure-IsSuccess response.status_code t.success, t.parses, t.reads),
)
  where
    reply : Bool → Outcome A
    reply failed =
        if failed
        then throw (runtime_error (error_message p name response))
        else (do json ← parse p response.body; deserialize json)

    go :
        (failed : Bool)
        → is_failure response.status_code ≡ failed
        → reply failed ≡ ok a
        → Accepted p deserialize response a
    go true e h = cc
    go false e h =
        let t = bind_ok (parse p response.body) deserialize a h in
        record {
          json = t.0;
          success = IsSuccess-is_failure response.status_code e;
          parses = t.1;
          reads = t.2;
        }
