-- ===== src/Structured.antt =====
-- include/forgeant/structured and src/structured/structured.cpp: one typed exchange with a provider,
-- with retries and no tools.
pub mod Exchanges
use forgeant.Prelude.{ℕ, zero, suc, ◌+◌, String, ◌<>◌, some, List, [], ◌∷◌, if◌then◌else◌}
use forgeant.Prelude.Int.{ℤ, pos, negsuc, add_int, ltb_ℤ}
use forgeant.Prelude.Decimal.{to_string}
use forgeant.Outcome.{Outcome, ok, throw, runtime_error, ◌>>=◌}
use forgeant.Platform.{Platform, what}
use forgeant.Json.{Json}
use forgeant.Json.Text.{parse}
use forgeant.Types.Content.{ContentBlock, text_block, tool_use_block, tool_result_block}
use forgeant.Types.Conversation
use forgeant.Types.Conversation.{Conversation}
use forgeant.Provider.{Usage, no_usage, accumulate, LlmResponse, LlmProvider}
use forgeant.Agent.{AgentResult, Run, returned, failed, provider_error, structured_parse}
use forgeant.Agent.Typed.{corrective}

-- The first text block is parsed; the blocks behind it are not looked at.
unfoldable pub extract_json : Platform → List ContentBlock → Outcome Json
unfolding parse
extract_json p [] = throw (runtime_error "structured output response contains no text content")
extract_json p (text_block block ∷ blocks) = parse p block.text
extract_json p (tool_use_block _ ∷ blocks) = extract_json p blocks
extract_json p (tool_result_block _ ∷ blocks) = extract_json p blocks

unfoldable pub extract_json_from_response : Platform → LlmResponse → Outcome Json
unfolding extract_json
extract_json_from_response p response = extract_json p response.message.content

-- The number of attempts: `max_retries + 1`, and none where `max_retries` is negative.
abbrev pub attempt_count : ℤ → ℕ
attempt_count (pos n) = suc n
attempt_count (negsuc n) = 0

unfoldable pub read_response :
    {T : Type 0} → Platform → (Json → Outcome T) → LlmResponse → Outcome T
unfolding extract_json_from_response
read_response p get response = do json ← extract_json_from_response p response; get json

module _ {W T : Type 0} (p : Platform) (get : Json → Outcome T) where
  -- One attempt, from what the provider returned or threw; `next` is the rest of the attempts.
  unfoldable pub exchange :
      (Conversation → Usage → String → String → W → Run (AgentResult T) × W)
      → ℤ
      → ℕ
      → Conversation
      → Usage
      → Outcome LlmResponse × W
      → Run (AgentResult T) × W
  unfolding read_response accumulate
  exchange next max_retries attempt working accumulated (throw e, w) = (
    failed (record {
      kind = provider_error;
      message = what p e;
      conversation = working;
      usage = accumulated;
      iterations = pos (attempt + 1);
      finish_reason = "error";
    }),
    w,
  )
  exchange next max_retries attempt working accumulated (ok response, w) =
      let total = accumulate accumulated response.usage in
      let answered = Conversation.add response.message working in
      elim (read_response p get response) [
        | ok output ↦ (
          returned (record {
            output = output;
            conversation = answered;
            total_usage = total;
            iterations = pos (attempt + 1);
            finish_reason = response.finish_reason;
          }),
          w,
        )
        | throw e ↦
            let corrected =
              if ltb_ℤ (pos attempt) max_retries
              then Conversation.add (corrective (what p e)) answered
              else answered in
            next corrected total response.finish_reason (what p e) w
      ]

  unfoldable pub exchanges :
      LlmProvider W
      → Json
      → ℤ
      → ℕ
      → ℕ
      → Conversation
      → Usage
      → String
      → String
      → W
      → Run (AgentResult T) × W
  unfolding exchange to_string add_int
  exchanges provider schema max_retries zero attempt working accumulated reason last_error w = (
    failed (record {
      kind = structured_parse;
      message =
          "structured output failed after "
          <> (to_string (add_int max_retries (pos 1)) <> (" attempts: " <> last_error));
      conversation = working;
      usage = accumulated;
      iterations = add_int max_retries (pos 1);
      finish_reason = reason;
    }),
    w,
  )
  exchanges provider schema max_retries (suc remaining) attempt working accumulated _ _ w =
      exchange (exchanges provider schema max_retries remaining (attempt + 1)) max_retries attempt
        working accumulated
        (provider.chat working (record { tools = []; output_schema = some schema }) w)

  unfoldable pub structured : LlmProvider W → Json → Conversation → ℤ → W → Run (AgentResult T) × W
  unfolding exchanges
  structured provider schema working max_retries =
      exchanges provider schema max_retries (attempt_count max_retries) 0 working no_usage "" ""
