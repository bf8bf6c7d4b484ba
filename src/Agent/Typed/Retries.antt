-- ===== src/Agent/Typed/Retries.antt =====
-- The specification of a typed run: failed attempts as steps, and the three ways in which the
-- attempts can end.
use forgeant.Prelude.{ℕ, zero, suc, ◌+◌, ◌<◌, ◌≡◌, refl, String, some, arith, ltb, if◌then◌else◌}
use forgeant.Prelude.Int.{ℤ, pos, add_int}
use forgeant.Outcome.{Outcome, ok, throw, Exception}
use forgeant.Platform.{Platform, what}
use forgeant.Json.{Json}
use forgeant.Types.Conversation
use forgeant.Types.Conversation.{Conversation}
use forgeant.Provider.{Usage, no_usage, accumulate}
use forgeant.Agent.{
  Agent, AgentResult, AgentRunError, LoopResult, Run, returned, failed, RunOverrides,
  structured_parse, execute_loop, extract_last_text,
}
use forgeant.Agent.Typed.{
  default_retries, corrective, gave_up, parse_output, attempt_round, attempts, execute_typed,
}

-- Where a typed run stands before an attempt.
pub record Progress (W : Type 0) : Type 0 where
  pub conversation : Conversation
  pub usage : Usage
  pub iterations : ℤ
  pub finish_reason : String
  pub last_error : String
  pub world : W

module _ {W T : Type 0} (p : Platform) (get : Json → Outcome T) (agent : Agent W)
    (overrides : RunOverrides) (schema : Json) where
  -- The loop of one attempt.
  abbrev pub attempt_at : Progress W → Run LoopResult × W
  attempt_at s = execute_loop p agent s.conversation overrides (some schema) s.world

  -- What an attempt leaves whose text could not be read: the loop's conversation, with a corrective
  -- turn unless it was the last attempt, and the sums.
  abbrev pub after_attempt : ℕ → Progress W → LoopResult → Exception → W → Progress W
  after_attempt attempt s result e w = record {
    conversation =
        if ltb attempt default_retries
        then Conversation.add (corrective (what p e)) result.conversation
        else result.conversation;
    usage = accumulate s.usage result.total_usage;
    iterations = add_int s.iterations result.iterations;
    finish_reason = result.finish_reason;
    last_error = what p e;
    world = w;
  }

  -- The loop returned, and its text could not be parsed or not be read as a `T`.
  pub record Retry (attempt : ℕ) (s t : Progress W) : Type 0 where
    pub result : LoopResult
    pub error : Exception
    pub world : W
    pub returns : attempt_at s ≡ (returned result, world)
    pub unreadable : parse_output p get (extract_last_text result.conversation) ≡ throw error
    pub leads_to : t ≡ after_attempt attempt s result error world

  -- `n` failed attempts, the first of them with number `attempt`.
  pub data Retries : ℕ → ℕ → Progress W → Progress W → Type 0 where
    no_retry : {attempt : ℕ} {s : Progress W} → Retries zero attempt s s
    retry_then :
        {n attempt : ℕ} {s t u : Progress W}
        → Retry attempt s t
        → Retries n (attempt + 1) t u
        → Retries (suc n) attempt s u

  pub data TypedEnds (max attempt : ℕ) (s : Progress W) (r : Run (AgentResult T) × W) : Type 0 where
    -- the text of some attempt is read as a `T`
    readable :
        (n : ℕ) (t : Progress W) (result : LoopResult) (output : T) (w : W)
        → n < max
        → Retries n attempt s t
        → attempt_at t ≡ (returned result, w)
        → parse_output p get (extract_last_text result.conversation) ≡ ok output
        → r ≡ (
          returned (record {
            output = output;
            conversation = result.conversation;
            total_usage = accumulate t.usage result.total_usage;
            iterations = add_int t.iterations result.iterations;
            finish_reason = result.finish_reason;
          }),
          w,
        )
        → TypedEnds max attempt s r
    -- the loop of some attempt fails, and its error is passed on as it is
    aborted :
        (n : ℕ) (t : Progress W) (e : AgentRunError) (w : W)
        → n < max
        → Retries n attempt s t
        → attempt_at t ≡ (failed e, w)
        → r ≡ (failed e, w)
        → TypedEnds max attempt s r
    -- no attempt gave a text that could be read
    unread :
        (t : Progress W)
        → Retries max attempt s t
        → r ≡ (
          failed (record {
            kind = structured_parse;
            message = gave_up default_retries t.last_error;
            conversation = t.conversation;
            usage = t.usage;
            iterations = t.iterations;
            finish_reason = t.finish_reason;
          }),
          t.world,
        )
        → TypedEnds max attempt s r

  TypedEnds-Retry :
      (max attempt : ℕ) {s t : Progress W} (r : Run (AgentResult T) × W)
      → Retry attempt s t
      → TypedEnds max (attempt + 1) t r
      → TypedEnds (suc max) attempt s r
  TypedEnds-Retry max attempt r first (readable n t result output w lt retries loop parsed e) =
      readable (suc n) t result output w (omega arith) (retry_then first retries) loop parsed e
  TypedEnds-Retry max attempt r first (aborted n t x w lt retries loop e) =
      aborted (suc n) t x w (omega arith) (retry_then first retries) loop e
  TypedEnds-Retry max attempt r first (unread t retries e) = unread t (retry_then first retries) e

  -- The attempts from a given progress.
  abbrev pub attempts_from : ℕ → ℕ → Progress W → Run (AgentResult T) × W
  attempts_from max attempt s =
      attempts p get agent overrides schema max attempt s.conversation s.usage s.iterations
        s.finish_reason s.last_error s.world

  attempts-TypedEnds :
      (max attempt : ℕ) (s : Progress W) → TypedEnds max attempt s (attempts_from max attempt s)
  unfolding attempts
  attempts-TypedEnds zero attempt s = unread s no_retry refl
  attempts-TypedEnds (suc max) attempt s =
      go (attempt_at s) refl (λ t. attempts-TypedEnds max (attempt + 1) t)
    where
      read :
          (result : LoopResult) (w : W) (o : Outcome T)
          → attempt_at s ≡ (returned result, w)
          → parse_output p get (extract_last_text result.conversation) ≡ o
          → ((t : Progress W) → TypedEnds max (attempt + 1) t (attempts_from max (attempt + 1) t))
          → TypedEnds (suc max) attempt s (
              attempt_round p get
                (attempts p get agent overrides schema max (attempt + 1))
                attempt
                s.usage
                s.iterations
                (returned result, w))
      read result w (ok output) loop parsed rest =
          rw (parsed, attempt_round)
            (readable 0 s result output w (omega arith) no_retry loop parsed refl)
      read result w (throw e) loop parsed rest =
          rw (parsed, attempt_round)
            (TypedEnds-Retry max attempt _
              (record {
                result = result;
                error = e;
                world = w;
                returns = loop;
                unreadable = parsed;
                leads_to = refl;
              })
              (rest _))

      go :
          (c : Run LoopResult × W)
          → attempt_at s ≡ c
          → ((t : Progress W) → TypedEnds max (attempt + 1) t (attempts_from max (attempt + 1) t))
          → TypedEnds (suc max) attempt s (
              attempt_round p get
                (attempts p get agent overrides schema max (attempt + 1))
                attempt
                s.usage
                s.iterations
                c)
      go (failed e, w) loop rest = aborted 0 s e w (omega arith) no_retry loop refl
      go (returned result, w) loop rest = read result w _ loop refl rest

abbrev pub fresh : {W : Type 0} → Conversation → W → Progress W
fresh working w = record {
  conversation = working;
  usage = no_usage;
  iterations = pos 0;
  finish_reason = "";
  last_error = "";
  world = w;
}

module _ {W T : Type 0} (p : Platform) (get : Json → Outcome T) (agent : Agent W) (schema : Json)
    (working : Conversation) (overrides : RunOverrides) (w : W) where
  -- A typed run makes at most three attempts and ends in one of three ways: with the value that is
  -- read from the last text of an attempt, after attempts that each failed to give one and were
  -- answered by a corrective turn; with the unchanged error of an attempt's loop; or, after three
  -- unreadable texts, with a `structured_parse` error that carries the sums over all attempts.
  pub execute_typed-TypedEnds :
      TypedEnds p get agent overrides schema
        (suc default_retries)
        0
        (fresh working w)
        (execute_typed p get agent schema working overrides w)
  unfolding execute_typed
  execute_typed-TypedEnds =
      attempts-TypedEnds p get agent overrides schema (suc default_retries) 0 (fresh working w)

  abbrev pub IsReadable : Run (AgentResult T) → Type 0
  IsReadable (returned r) = parse_output p get (extract_last_text r.conversation) ≡ ok r.output
  IsReadable (failed e) = Unit

  -- The value of a typed result is what the last text of its conversation parses to.
  pub execute_typed-IsReadable : IsReadable (execute_typed p get agent schema working overrides w).0
  execute_typed-IsReadable = go _ execute_typed-TypedEnds
    where
      go :
          (r : Run (AgentResult T) × W)
          → TypedEnds p get agent overrides schema (suc default_retries) 0 (fresh working w) r
          → IsReadable r.0
      go r (readable n t result output w' lt retries loop parsed e) = rw e parsed
      go r (aborted n t x w' lt retries loop e) = rw e tt
      go r (unread t retries e) = rw e tt
