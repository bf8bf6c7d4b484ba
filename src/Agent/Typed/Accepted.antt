-- ===== src/Agent/Typed/Accepted.antt =====
-- Typed runs whose reader takes exactly what the schema of the request accepts.
use forgeant.Prelude.{ℕ, suc, ◌+◌, ◌-◌, ◌<◌, ◌≡◌, ◌↔◌, refl, ◌∙◌, String, arith}
use forgeant.Prelude.Int.{add_int}
use forgeant.Outcome.{Exception, Outcome, ok, throw, ◌>>=◌}
use forgeant.Platform.{Platform}
use forgeant.Json.{Json}
use forgeant.Json.Text.{parse}
use forgeant.Types.Conversation.{Conversation}
use forgeant.Provider.{accumulate}
use forgeant.Schema.Conforms.{Accepts}
use forgeant.Agent.{Agent, AgentResult, LoopResult, returned, RunOverrides, extract_last_text}
use forgeant.Agent.Typed.{default_retries, parse_output, attempt_round, attempts, execute_typed}
use forgeant.Agent.Typed.Retries.{
  Progress, attempt_at, Retry, Retries, no_retry, retry_then, attempts_from, fresh,
}

pub parse_output-parse :
    {T : Type 0} (p : Platform) (get : Json → Outcome T) (text : String) (j : Json)
    → parse p text ≡ ok j
    → parse_output p get text ≡ get j
unfolding parse_output
parse_output-parse p get text j e = rw (e, ◌>>=◌)

pub parse_output-throw :
    {T : Type 0} (p : Platform) (get : Json → Outcome T) (text : String) (x : Exception)
    → parse p text ≡ throw x
    → parse_output p get text ≡ throw x
unfolding parse_output
parse_output-throw p get text x e = rw (e, ◌>>=◌)

module _ {W T : Type 0} (p : Platform) (get : Json → Outcome T) (agent : Agent W)
    (overrides : RunOverrides) (schema : Json) where
  -- One unreadable attempt.
  attempts-Retry :
      (max attempt : ℕ) (s t : Progress W)
      → Retry p get agent overrides schema attempt s t
      → attempts_from p get agent overrides schema (suc max) attempt s
        ≡ attempts_from p get agent overrides schema max (attempt + 1) t
  unfolding attempts
  attempts-Retry max attempt s t r =
      rw r.returns (rw (r.unreadable, attempt_round) (rw (r.leads_to) refl))

  attempts-Retries :
      (n max total attempt last : ℕ) (s t : Progress W)
      → total ≡ n + suc max
      → last ≡ attempt + n
      → Retries p get agent overrides schema n attempt s t
      → attempts_from p get agent overrides schema total attempt s
        ≡ attempts_from p get agent overrides schema (suc max) last t
  attempts-Retries n max total attempt last s t e d no_retry =
      let same_total : total ≡ suc max = omega arith in
      let same_last : last ≡ attempt = omega arith in rw (same_total, same_last) refl
  attempts-Retries (suc n) max total attempt last s t e d (retry_then first rest) =
      let same_total : total ≡ suc (n + suc max) = omega arith in
      rw same_total (
        attempts-Retry (n + suc max) attempt s _ first
        ∙ attempts-Retries n max (n + suc max) (attempt + 1) last _ t refl (omega arith) rest)

  -- What a typed run returns after the attempt that starts at `t`.
  abbrev pub result_at : Progress W → LoopResult → T → AgentResult T
  result_at t result output = record {
    output = output;
    conversation = result.conversation;
    total_usage = accumulate t.usage result.total_usage;
    iterations = add_int t.iterations result.iterations;
    finish_reason = result.finish_reason;
  }

  attempts-readable :
      (max attempt : ℕ) (t : Progress W) (result : LoopResult) (output : T) (w : W)
      → attempt_at p get agent overrides schema t ≡ (returned result, w)
      → parse_output p get (extract_last_text result.conversation) ≡ ok output
      → attempts_from p get agent overrides schema (suc max) attempt t
        ≡ (returned (result_at t result output), w)
  unfolding attempts
  attempts-readable max attempt t result output w loop reads =
      rw loop (rw (reads, attempt_round) refl)

module _ {W T : Type 0} (p : Platform) (get : Json → Outcome T) (schema : Json)
    (lawful : (j : Json) → ((t : T) × (get j ≡ ok t)) ↔ Accepts schema j) where
  -- Where the reader takes exactly what the schema accepts: if the loop of one of the three attempts,
  -- reached through unreadable ones, returns a last text that parses to a JSON which the schema
  -- accepts, the typed run returns what that JSON is read as.
  pub execute_typed-accepted :
      (agent : Agent W) (overrides : RunOverrides) (working : Conversation) (w : W) (n : ℕ)
      (t : Progress W) (result : LoopResult) (json : Json) (w' : W)
      → n < suc default_retries
      → Retries p get agent overrides schema n 0 (fresh working w) t
      → attempt_at p get agent overrides schema t ≡ (returned result, w')
      → parse p (extract_last_text result.conversation) ≡ ok json
      → Accepts schema json
      → (output : T) × (get json ≡ ok output)
        × (execute_typed p get agent schema working overrides w
            ≡ (returned (result_at p get agent overrides schema t result output), w'))
  unfolding execute_typed
  execute_typed-accepted agent overrides working w n t result json w' few retries loop parses
        accepted =
      let read = (lawful json).1 accepted in
      (
        read.0,
        read.1,
        attempts-Retries p get agent overrides schema n (2 - n) (suc default_retries) 0 n
              (fresh working w) t (omega arith) (omega arith) retries
            ∙ attempts-readable p get agent overrides schema (2 - n) n t result read.0 w' loop
                (parse_output-parse p get _ json parses ∙ read.1),
      )
