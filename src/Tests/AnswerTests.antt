-- ===== src/Tests/AnswerTests.antt =====
-- An agent for "anthropic" over a service that asks for a tool and then answers.
use forgeant.Prelude.{
  some, ◌++◌, ℕ, zero, suc, String, ◌≡◌, refl, true, false, List, [], ◌∷◌, arith, ◌==◌,
  if◌then◌else◌,
}
use forgeant.Prelude.Int.{pos}
use mathlib.Core.Path.{subst}
use forgeant.Outcome.{ok}
use forgeant.Platform.{Platform, Generic, GenericItems, GenericMembers, ReadResult}
use forgeant.Json.{
  Json, string, array, object, nil, cons, member, end, empty_object, find, get_json,
}
use forgeant.Json.Text.{parse}
use forgeant.Types.Role
use forgeant.Types.Content.{tool_use_block}
use forgeant.Types.Message
use forgeant.Types.Conversation.{Conversation}
use forgeant.Http.{HttpClient, HttpResponse}
use forgeant.Provider.{LlmResponse, no_usage}
use forgeant.Provider.Wire.Replies.{Accepted}
use forgeant.Provider.Wire.Service.{Scripted}
use forgeant.Provider.Anthropic.{deserialize_response}
use forgeant.Agent.{
  Agent, returned, no_overrides, has_tool_use, run_prompt, prompt_conversation, default_options,
}
use forgeant.Agent.Create.{create}
use forgeant.Agent.Transcript.{Extends}
use forgeant.Agent.Offers.{with_tools}
use forgeant.Agent.Typed.{parse_output, run_typed_prompt}
use forgeant.Agent.TypedAnswers.{typed_result, create-run_typed_prompt}
use forgeant.Provider.Wire.Closing.{is_untyped}
use forgeant.Types.Texts.{texts, first}
use forgeant.Agent.LastText.{IsLastText}
use forgeant.Agent.Answers.{anthropic, final_result, create-run_prompt}
use forgeant.Tests.Data.{platform, echo}

-- The two bodies, as glaze reads them and as `Json`.
abbrev reply_with : GenericMembers → String → Generic
reply_with block reason = Generic.object (
    GenericMembers.member "content"
      (Generic.array (GenericItems.cons (Generic.object block) GenericItems.nil))
      (GenericMembers.member "stop_reason" (Generic.string reason) GenericMembers.end))

abbrev call_reply : Generic
call_reply =
    reply_with
      (GenericMembers.member "id" (Generic.string "c1") (
        GenericMembers.member "input" (Generic.object GenericMembers.end) (
          GenericMembers.member "name" (Generic.string "echo")
            (GenericMembers.member "type" (Generic.string "tool_use") GenericMembers.end))))
      "tool_use"

abbrev text_reply : Generic
text_reply =
    reply_with
      (GenericMembers.member "text" (Generic.string "Paris.")
        (GenericMembers.member "type" (Generic.string "text") GenericMembers.end))
      "end_turn"

abbrev pub reader : Platform
reader = record platform {
  read_json = λ s. ReadResult.value (if s == "call" then call_reply else text_reply);
}

abbrev call_json : Json
call_json = object (
    member "content"
      (array (
        cons
          (object (
            member "id" (string "c1") (
              member "input" empty_object
                (member "name" (string "echo") (member "type" (string "tool_use") end)))))
          nil))
      (member "stop_reason" (string "tool_use") end))

abbrev text_json : Json
text_json = object (
    member "content"
      (array
        (cons (object (member "text" (string "Paris.") (member "type" (string "text") end))) nil))
      (member "stop_reason" (string "end_turn") end))

abbrev pub call : LlmResponse
call = record {
  message = record {
    role = Role.assistant;
    content = tool_use_block (record { id = "c1"; name = "echo"; input = empty_object }) ∷ [];
  };
  finish_reason = "tool_use";
  usage = no_usage;
  model = "";
}

abbrev text : LlmResponse
text = record {
  message = Message.of_text Role.assistant "Paris.";
  finish_reason = "end_turn";
  usage = no_usage;
  model = "";
}

-- The world counts the posts.
abbrev left : ℕ → List LlmResponse
left zero = call ∷ text ∷ []
left (suc zero) = text ∷ []
left (suc (suc n)) = []

abbrev pub response : ℕ → HttpResponse
response n = record {
  status_code = pos 200;
  headers = [];
  body = elim n [ zero ↦ "call" | _ ↦ "text" ];
}

abbrev service : HttpClient ℕ
service = record {
  post = λ url headers body n. (ok (response n), suc n);
  async_post = λ url headers body n. (ok (ok (response n)), suc n);
  post_stream = λ url headers body on_chunk n. (ok (response n), suc n);
}

call_parses : parse reader "call" ≡ ok call_json
unfolding parse
call_parses = refl

text_parses : parse reader "text" ≡ ok text_json
unfolding parse
text_parses = refl

call_reads : deserialize_response call_json ≡ ok call
unfolding deserialize_response
call_reads = refl

text_reads : deserialize_response text_json ≡ ok text
unfolding deserialize_response
text_reads = refl

pub call_accepted : Accepted reader deserialize_response (response 0) call
call_accepted = record {
  json = call_json;
  success = (omega arith, omega arith);
  parses = call_parses;
  reads = call_reads;
}

text_accepted : Accepted reader deserialize_response (response 1) text
text_accepted = record {
  json = text_json;
  success = (omega arith, omega arith);
  parses = text_parses;
  reads = text_reads;
}

accepted :
    (n : ℕ) (answer : LlmResponse) (later : List LlmResponse)
    → left n ≡ answer ∷ later
    → Accepted reader deserialize_response (response n) answer
accepted zero answer later h =
    let first : call ≡ answer = cc in
    subst (Accepted reader deserialize_response (response 0)) first call_accepted
accepted (suc zero) answer later h =
    let first : text ≡ answer = cc in
    subst (Accepted reader deserialize_response (response 1)) first text_accepted
accepted (suc (suc n)) answer later h = cc

takes :
    (n : ℕ) (answer : LlmResponse) (later : List LlmResponse)
    → left n ≡ answer ∷ later
    → left (suc n) ≡ later
takes zero answer later h = cc
takes (suc zero) answer later h = cc
takes (suc (suc n)) answer later h = cc

scripted : Scripted left reader service deserialize_response
scripted = record {
  response = response;
  world = λ url headers body n. suc n;
  posts = λ url headers body n answer later h. refl;
  accepted = accepted;
  takes = λ url headers body n answer later h. takes n answer later h;
}

pub calls_tool : has_tool_use call.message ≡ true
unfolding has_tool_use
calls_tool = refl

calls_none : has_tool_use text.message ≡ false
unfolding has_tool_use
calls_none = refl

create-run_prompt_example :
    (agent : Agent ℕ) × (create reader (ok service) "anthropic" default_options ≡ ok agent)
    × ((before : Conversation) × (output : String) × (n : ℕ) × Extends
          (prompt_conversation reader (with_tools (echo ∷ []) agent) "What now?" no_overrides)
          before
        × IsLastText (before.messages ++ text.message ∷ []) output
        × (left n ≡ [])
        × (run_prompt reader (with_tools (echo ∷ []) agent) "What now?" no_overrides 0
            ≡ (returned (final_result output before (call ∷ []) text), n)))
create-run_prompt_example =
    create-run_prompt reader left service default_options (echo ∷ []) "What now?" (call ∷ []) text 0
      anthropic scripted ((λ args n. refl), tt) (calls_tool, tt) calls_none (omega arith) refl

-- The same service, with a schema; the reader takes any `Json`.
abbrev schema : Json
schema = object (member "type" (string "object") end)

reads_text : parse_output reader get_json "Paris." ≡ ok text_json
unfolding parse_output
reads_text = refl

typed_schema : is_untyped schema ≡ false
unfolding find
typed_schema = refl

first_is_text : first (texts text.message.content) ≡ some "Paris."
first_is_text = refl

create-run_typed_prompt_example :
    (agent : Agent ℕ) × (create reader (ok service) "anthropic" default_options ≡ ok agent)
    × ((before : Conversation) × (n : ℕ) × Extends
          (prompt_conversation reader (with_tools (echo ∷ []) agent) "What now?" no_overrides)
          before
        × (left n ≡ [])
        × (run_typed_prompt reader get_json
              (with_tools (echo ∷ []) agent)
              schema
              "What now?"
              no_overrides
              0
            ≡ (returned (typed_result text_json before (call ∷ []) text), n)))
create-run_typed_prompt_example =
    create-run_typed_prompt reader left get_json service default_options (echo ∷ []) schema
      "What now?" (call ∷ []) text "Paris." text_json 0 anthropic scripted ((λ args n. refl), tt)
      typed_schema (calls_tool, tt) calls_none refl first_is_text reads_text (omega arith) refl
