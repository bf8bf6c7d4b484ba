-- ===== src/Structured/Exchanges.antt =====
-- The specification of `structured`: refused answers as steps, and the three ways in which the
-- exchanges can end.
use forgeant.Prelude.{
  ℕ, zero, suc, ◌+◌, ◌<◌, ◌≡◌, refl, ◌∙◌, String, ◌<>◌, some, [], arith, if◌then◌else◌,
}
use forgeant.Prelude.Int.{ℤ, pos, add_int, ltb_ℤ}
use forgeant.Prelude.Decimal.{to_string}
use forgeant.Outcome.{Outcome, ok, throw, Exception}
use forgeant.Platform.{Platform, what}
use forgeant.Json.{Json}
use forgeant.Types.Conversation
use forgeant.Types.Conversation.{Conversation}
use forgeant.Provider.{Usage, no_usage, accumulate, LlmResponse, LlmProvider}
use forgeant.Agent.{AgentResult, Run, returned, failed, provider_error, structured_parse}
use forgeant.Agent.Typed.{corrective}
use forgeant.Structured.{attempt_count, read_response, exchange, exchanges, structured}

-- Where the run stands before a call of the provider.
pub record Standing (W : Type 0) : Type 0 where
  pub conversation : Conversation
  pub usage : Usage
  pub finish_reason : String
  pub last_error : String
  pub world : W

module _ {W T : Type 0} (p : Platform) (get : Json → Outcome T) (provider : LlmProvider W)
    (schema : Json) (max_retries : ℤ) where
  abbrev pub ask : Standing W → Outcome LlmResponse × W
  ask s = provider.chat s.conversation (record { tools = []; output_schema = some schema }) s.world

  -- What an unreadable answer leaves: the answer, and a corrective turn unless it was the last call.
  abbrev pub after_answer : ℕ → Standing W → LlmResponse → Exception → W → Standing W
  after_answer attempt s response e w = record {
    conversation =
        if ltb_ℤ (pos attempt) max_retries
        then Conversation.add (corrective (what p e))
            (Conversation.add response.message s.conversation)
        else Conversation.add response.message s.conversation;
    usage = accumulate s.usage response.usage;
    finish_reason = response.finish_reason;
    last_error = what p e;
    world = w;
  }

  pub record Refusal (attempt : ℕ) (s t : Standing W) : Type 0 where
    pub response : LlmResponse
    pub error : Exception
    pub world : W
    pub answers : ask s ≡ (ok response, world)
    pub unreadable : read_response p get response ≡ throw error
    pub leads_to : t ≡ after_answer attempt s response error world

  -- `n` unreadable answers, the first of them to the call with number `attempt`.
  pub data Refusals : ℕ → ℕ → Standing W → Standing W → Type 0 where
    no_refusal : {attempt : ℕ} {s : Standing W} → Refusals zero attempt s s
    refusal_then :
        {n attempt : ℕ} {s t u : Standing W}
        → Refusal attempt s t
        → Refusals n (attempt + 1) t u
        → Refusals (suc n) attempt s u

  pub data StructuredEnds (max attempt : ℕ) (s : Standing W) (r : Run (AgentResult T) × W)
      : Type 0 where
    -- an answer is read as a `T`
    understood :
        (n : ℕ) (t : Standing W) (response : LlmResponse) (output : T) (w : W)
        → n < max
        → Refusals n attempt s t
        → ask t ≡ (ok response, w)
        → read_response p get response ≡ ok output
        → r ≡ (
          returned (record {
            output = output;
            conversation = Conversation.add response.message t.conversation;
            total_usage = accumulate t.usage response.usage;
            iterations = pos (attempt + n + 1);
            finish_reason = response.finish_reason;
          }),
          w,
        )
        → StructuredEnds max attempt s r
    -- a call of the provider throws
    cut_off :
        (n : ℕ) (t : Standing W) (x : Exception) (w : W)
        → n < max
        → Refusals n attempt s t
        → ask t ≡ (throw x, w)
        → r ≡ (
          failed (record {
            kind = provider_error;
            message = what p x;
            conversation = t.conversation;
            usage = t.usage;
            iterations = pos (attempt + n + 1);
            finish_reason = "error";
          }),
          w,
        )
        → StructuredEnds max attempt s r
    -- no answer can be read
    given_up :
        (t : Standing W)
        → Refusals max attempt s t
        → r ≡ (
          failed (record {
            kind = structured_parse;
            message =
                "structured output failed after "
                <> (to_string (add_int max_retries (pos 1)) <> (" attempts: " <> t.last_error));
            conversation = t.conversation;
            usage = t.usage;
            iterations = add_int max_retries (pos 1);
            finish_reason = t.finish_reason;
          }),
          t.world,
        )
        → StructuredEnds max attempt s r

  -- The number of the last call, counted from one call further on.
  count_shift : (attempt n : ℕ) → attempt + 1 + n + 1 ≡ attempt + suc n + 1
  count_shift attempt n = omega arith

  count_first : (attempt : ℕ) → attempt + 0 + 1 ≡ attempt + 1
  count_first attempt = omega arith

  StructuredEnds-Refusal :
      (max attempt : ℕ) {s t : Standing W} (r : Run (AgentResult T) × W)
      → Refusal attempt s t
      → StructuredEnds max (attempt + 1) t r
      → StructuredEnds (suc max) attempt s r
  StructuredEnds-Refusal max attempt r first
        (understood n t response output w lt refusals asked parsed e) =
      understood (suc n) t response output w (omega arith) (refusal_then first refusals) asked
        parsed (e ∙ rw (count_shift attempt n))
  StructuredEnds-Refusal max attempt r first (cut_off n t x w lt refusals asked e) =
      cut_off (suc n) t x w (omega arith) (refusal_then first refusals) asked
        (e ∙ rw (count_shift attempt n))
  StructuredEnds-Refusal max attempt r first (given_up t refusals e) =
      given_up t (refusal_then first refusals) e

  abbrev exchanges_from : ℕ → ℕ → Standing W → Run (AgentResult T) × W
  exchanges_from max attempt s =
      exchanges p get provider schema max_retries max attempt s.conversation s.usage s.finish_reason
        s.last_error s.world

  exchanges-StructuredEnds :
      (max attempt : ℕ) (s : Standing W)
      → StructuredEnds max attempt s (exchanges_from max attempt s)
  unfolding exchanges
  exchanges-StructuredEnds zero attempt s = given_up s no_refusal refl
  exchanges-StructuredEnds (suc max) attempt s =
      go (ask s) refl (λ t. exchanges-StructuredEnds max (attempt + 1) t)
    where
      exchanged : Outcome LlmResponse × W → Run (AgentResult T) × W
      exchanged c =
          exchange p get (exchanges p get provider schema max_retries max (attempt + 1)) max_retries
            attempt s.conversation s.usage c

      read :
          (response : LlmResponse) (w : W) (o : Outcome T)
          → ask s ≡ (ok response, w)
          → read_response p get response ≡ o
          → ((t : Standing W)
              → StructuredEnds max (attempt + 1) t (exchanges_from max (attempt + 1) t))
          → StructuredEnds (suc max) attempt s (exchanged (ok response, w))
      read response w (ok output) asked parsed rest =
          rw (parsed, exchange)
            (understood 0 s response output w (omega arith) no_refusal asked parsed
              (rw (count_first attempt)))
      read response w (throw e) asked parsed rest =
          rw (parsed, exchange)
            (StructuredEnds-Refusal max attempt _
              (record {
                response = response;
                error = e;
                world = w;
                answers = asked;
                unreadable = parsed;
                leads_to = refl;
              })
              (rest _))

      go :
          (c : Outcome LlmResponse × W)
          → ask s ≡ c
          → ((t : Standing W)
              → StructuredEnds max (attempt + 1) t (exchanges_from max (attempt + 1) t))
          → StructuredEnds (suc max) attempt s (exchanged c)
      go (throw x, w) asked rest =
          cut_off 0 s x w (omega arith) no_refusal asked (rw (count_first attempt))
      go (ok response, w) asked rest = read response w _ asked refl rest

abbrev pub at_start : {W : Type 0} → Conversation → W → Standing W
at_start working w = record {
  conversation = working;
  usage = no_usage;
  finish_reason = "";
  last_error = "";
  world = w;
}

module _ {W T : Type 0} (p : Platform) (get : Json → Outcome T) (provider : LlmProvider W)
    (schema : Json) where
  -- `structured` calls the provider at most `max_retries + 1` times, and not at all where that is
  -- negative. It ends with the value of the first answer that can be read, after answers that could
  -- not be and were each followed by a corrective turn while a call was left; with the exception of a
  -- call; or, after unreadable answers only, with a `structured_parse` error. Each end carries the
  -- usage of all the answers before it, and as iterations the number of the calls, or
  -- `max_retries + 1` where no answer could be read.
  pub structured-StructuredEnds :
      (working : Conversation) (max_retries : ℤ) (w : W)
      → StructuredEnds p get provider schema max_retries
          (attempt_count max_retries)
          0
          (at_start working w)
          (structured p get provider schema working max_retries w)
  unfolding structured
  structured-StructuredEnds working max_retries w =
      exchanges-StructuredEnds p get provider schema max_retries (attempt_count max_retries) 0
        (at_start working w)
