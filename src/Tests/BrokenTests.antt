-- ===== src/Tests/BrokenTests.antt =====
-- An agent for "anthropic" over a service that asks for a tool and is then too busy.
use mathlib.Core.Path.{subst}
use forgeant.Prelude.{ℕ, zero, suc, String, ◌≡◌, refl, List, [], ◌∷◌, arith}
use forgeant.Prelude.Int.{pos}
use forgeant.Outcome.{ok}
use forgeant.Types.Conversation.{Conversation}
use forgeant.Http.{HttpClient, HttpResponse}
use forgeant.Provider.{LlmResponse}
use forgeant.Provider.Wire.Replies.{Accepted}
use forgeant.Provider.Wire.Errors.{Says, bad_status}
use forgeant.Provider.Wire.Service.{Scripted, Breaks}
use forgeant.Provider.Anthropic.{deserialize_response}
use forgeant.Agent.{Agent, failed, no_overrides, run_prompt, prompt_conversation, default_options}
use forgeant.Agent.Create.{create}
use forgeant.Agent.Transcript.{Extends}
use forgeant.Agent.Offers.{with_tools}
use forgeant.Agent.Answers.{Speaks, anthropic}
use forgeant.Agent.BrokenRuns.{run_error, create-run_error}
use forgeant.Tests.Data.{echo}
use forgeant.Tests.AnswerTests.{reader, call, response, call_accepted, calls_tool}

abbrev busy : HttpResponse
busy = record { status_code = pos 503; headers = []; body = "" }

-- The world counts the posts.
abbrev left : ℕ → List LlmResponse
left zero = call ∷ []
left (suc n) = []

abbrev reply : ℕ → HttpResponse
reply zero = response 0
reply (suc n) = busy

abbrev service : HttpClient ℕ
service = record {
  post = λ url headers body n. (ok (reply n), suc n);
  async_post = λ url headers body n. (ok (ok (reply n)), suc n);
  post_stream = λ url headers body on_chunk n. (ok (reply n), suc n);
}

accepted :
    (n : ℕ) (answer : LlmResponse) (later : List LlmResponse)
    → left n ≡ answer ∷ later
    → Accepted reader deserialize_response (reply n) answer
accepted zero answer later h =
    let first : call ≡ answer = cc in
    subst (Accepted reader deserialize_response (response 0)) first call_accepted
accepted (suc n) answer later h = cc

takes :
    (n : ℕ) (answer : LlmResponse) (later : List LlmResponse)
    → left n ≡ answer ∷ later
    → left (suc n) ≡ later
takes zero answer later h = cc
takes (suc n) answer later h = cc

scripted : Scripted left reader service deserialize_response
scripted = record {
  response = reply;
  world = λ url headers body n. suc n;
  posts = λ url headers body n answer later h. refl;
  accepted = accepted;
  takes = λ url headers body n answer later h. takes n answer later h;
}

busy_after : (n : ℕ) → left n ≡ [] → (m : ℕ) × (service.post "" [] "" n ≡ (ok busy, m))
busy_after zero h = cc
busy_after (suc n) h = (suc (suc n), refl)

breaks : Breaks left service busy
breaks = record { failure = refl; posts = λ url headers body n h. busy_after n h }

abbrev speaks : Speaks reader "anthropic" deserialize_response
speaks = anthropic

create-run_error_example :
    (agent : Agent ℕ) × (create reader (ok service) "anthropic" default_options ≡ ok agent)
    × ((detail : String) × (before : Conversation) × (n : ℕ) × Says reader busy.body detail
        × Extends
            (prompt_conversation reader (with_tools (echo ∷ []) agent) "What now?" no_overrides)
            before
        × (run_prompt reader (with_tools (echo ∷ []) agent) "What now?" no_overrides 0
            ≡ (failed (run_error (bad_status "Anthropic" (pos 503) detail) before (call ∷ [])), n)))
create-run_error_example =
    create-run_error reader left service default_options (echo ∷ []) "What now?" (call ∷ []) busy 0
      speaks scripted breaks ((λ args n. refl), tt) (calls_tool, tt) (omega arith) refl
