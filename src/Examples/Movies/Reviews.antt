-- ===== src/Examples/Movies/Reviews.antt =====
-- `run<MovieReview>` of examples/structured_output.cpp: what its result says of the last text.
use forgeant.Prelude.{suc, ◌≡◌, refl, sym, ◌∙◌, ap, some, String}
use mathlib.Core.Path.{subst}
use forgeant.Outcome.{Outcome, Exception, ok, throw}
use forgeant.Platform.{Platform}
use forgeant.Json.{Json, null, boolean, integer, number, string, array, object, Members}
use forgeant.Json.Text.{parse}
use forgeant.Types.Conversation.{Conversation}
use forgeant.Schema.Conforms.{Accepts}
use forgeant.Agent.{
  Agent, AgentResult, AgentRunError, Run, returned, failed, RunOverrides, structured_parse,
  execute_loop, extract_last_text, prompt_conversation,
}
use forgeant.Agent.LastText.{IsLastText, extract_last_text-IsLastText}
use forgeant.Agent.Typed.{default_retries, parse_output, run_typed_prompt}
use forgeant.Agent.Typed.Retries.{
  Progress, Retry, no_retry, retry_then, TypedEnds, readable, aborted, unread,
  execute_typed-TypedEnds,
}
use forgeant.Agent.Typed.Accepted.{parse_output-parse, parse_output-throw}
use forgeant.Examples.Movies.{MovieReview, no_review, param_movie, get_movie, from_json}
use forgeant.Examples.Movies.Laws.{
  HasFields, HasFields-get_movie, IsOk-HasFields, result_of-IsOk, get_movie_iff,
}

ok_injective : (r s : MovieReview) → ok r ≡ ok s → r ≡ s
ok_injective r s h = cc

-- What a JSON is read as has the fields of the JSON.
get_movie-HasFields :
    (j : Json) (r : MovieReview)
    → get_movie j ≡ ok r
    → (ms : Members) × (j ≡ object ms) × HasFields ms r
unfolding get_movie
get_movie-HasFields (object ms) r h =
    let fields = IsOk-HasFields ms (result_of-IsOk (from_json (object ms) no_review) r h) in
    (
      ms,
      refl,
      subst (HasFields ms) (ok_injective _ _ (sym (HasFields-get_movie ms fields.0 fields.1) ∙ h))
          fields.1,
    )
get_movie-HasFields null r h = cc
get_movie-HasFields (boolean b) r h = cc
get_movie-HasFields (integer n) r h = cc
get_movie-HasFields (number d) r h = cc
get_movie-HasFields (string s) r h = cc
get_movie-HasFields (array xs) r h = cc

module _ {W : Type 0} (p : Platform) (agent : Agent W) (overrides : RunOverrides) where
  pub data ReviewEnds : Run (AgentResult MovieReview) → Type 0 where
    -- the review is in the last text
    reviewed :
        {result : AgentResult MovieReview} {text : String} {ms : Members}
        → IsLastText result.conversation.messages text
        → parse p text ≡ ok (object ms)
        → HasFields ms result.output
        → ReviewEnds (returned result)
    -- the last text is no JSON that the schema accepts
    unreviewed :
        {e : AgentRunError} {text : String}
        → e.kind ≡ structured_parse
        → IsLastText e.conversation.messages text
        → ((j : Json) → parse p text ≡ ok j → Accepts param_movie.schema j → ⊥)
        → ReviewEnds (failed e)
    -- a loop failed, and its error is the one of the run
    passed_on :
        {e : AgentRunError} (conv : Conversation) (w w' : W)
        → execute_loop p agent conv overrides (some param_movie.schema) w ≡ (failed e, w')
        → ReviewEnds (failed e)

  text_of :
      (text : String) (r : MovieReview)
      → parse_output p get_movie text ≡ ok r
      → (ms : Members) × (parse p text ≡ ok (object ms)) × HasFields ms r
  text_of text r h = go (parse p text) refl
    where
      go :
          (o : Outcome Json)
          → parse p text ≡ o
          → (ms : Members) × (parse p text ≡ ok (object ms)) × HasFields ms r
      go (ok j) e =
          let fields =
            get_movie-HasFields j r (sym (parse_output-parse p get_movie text j e) ∙ h) in
          (fields.0, e ∙ ap ok fields.1, fields.2)
      go (throw x) e =
          let d : throw x ≡ ok r = sym (parse_output-throw p get_movie text x e) ∙ h in cc

  not_accepted :
      (text : String) (x : Exception)
      → parse_output p get_movie text ≡ throw x
      → (j : Json) → parse p text ≡ ok j
      → Accepts param_movie.schema j
      → ⊥
  not_accepted text x h j e accepted =
      let read = (get_movie_iff j).1 accepted in
      let d : ok read.0 ≡ throw x =
        sym read.1 ∙ sym (parse_output-parse p get_movie text j e) ∙ h in
      cc

  -- The conversation behind the third attempt is the one that its loop left.
  unread-ReviewEnds :
      (s t : Progress W) (e : AgentRunError)
      → Retry p get_movie agent overrides param_movie.schema 2 s t
      → e.kind ≡ structured_parse
      → e.conversation ≡ t.conversation
      → ReviewEnds (failed e)
  unread-ReviewEnds s t e last kind same =
      let left = same ∙ ap (λ (u : Progress W). u.conversation) last.leads_to in
      unreviewed kind
        (subst
          (λ (conv : Conversation).
            IsLastText conv.messages (extract_last_text last.result.conversation))
          (sym left) (extract_last_text-IsLastText last.result.conversation))
        (not_accepted (extract_last_text last.result.conversation) last.error last.unreadable)

  TypedEnds-ReviewEnds :
      (s : Progress W) (r : Run (AgentResult MovieReview) × W)
      → TypedEnds p get_movie agent overrides param_movie.schema (suc default_retries) 0 s r
      → ReviewEnds r.0
  TypedEnds-ReviewEnds s r (readable n t result output w lt retries loop parsed e) =
      let found = text_of (extract_last_text result.conversation) output parsed in
      rw e (reviewed (extract_last_text-IsLastText result.conversation) found.1 found.2)
  TypedEnds-ReviewEnds s r (aborted n t x w lt retries loop e) =
      rw e (passed_on t.conversation t.world w loop)
  TypedEnds-ReviewEnds s r (unread t (retry_then a (retry_then b (retry_then c no_retry))) e) =
      rw e (unread-ReviewEnds _ t _ c refl refl)

  -- A run for a review ends in one of three ways. It returns a review whose title, rating and summary
  -- are, the rating cut to 32 bits, those members of the object that the last text of the result's
  -- conversation parses to; or it fails with a `structured_parse` error, and the last text of the
  -- error's conversation parses to nothing that the schema of the request accepts; or it fails with the
  -- error of an agent loop.
  pub run_typed_prompt-ReviewEnds :
      (prompt : String) (w : W)
      → ReviewEnds (run_typed_prompt p get_movie agent param_movie.schema prompt overrides w).0
  unfolding run_typed_prompt
  run_typed_prompt-ReviewEnds prompt w = TypedEnds-ReviewEnds _ _ (
      execute_typed-TypedEnds p get_movie agent param_movie.schema
        (prompt_conversation p agent prompt overrides) overrides w)
