-- ===== src/Agent/Metering.antt =====
-- The calls of the provider and the tokens of a run, against a count that the outside world keeps.
use forgeant.Prelude.{
  ℕ, suc, ◌+◌, ◌-◌, ◌^◌, ◌≤◌, ◌<◌, ◌≡◌, refl, ap, ◌∙◌, String, Option, List, [], ◌∷◌, arith,
}
use forgeant.Prelude.Int.{ℤ, pos, pos_part, add_int, ◌+ℤ◌, add_int_exact}
use forgeant.Outcome.{ok, throw, Exception}
use forgeant.Platform.{Platform}
use forgeant.Json.{Json}
use forgeant.Types.Content.{ContentBlock, text_block, tool_use_block, tool_result_block}
use forgeant.Types.Conversation.{Conversation}
use forgeant.Provider.{Usage, no_usage, accumulate, LlmResponse, ChatRequest}
use forgeant.Tool.Registry
use forgeant.Agent.{
  Agent, LoopResult, Run, returned, failed, RunOverrides, dispatch_tools, execute_loop, request_of,
  iteration_cap,
}
use forgeant.Agent.Turns.{
  State, Turn, Turns, at_start, one_more, answer, broken, exhausted, RunEnds, execute_loop-RunEnds,
}
use forgeant.Agent.Accounting.{iterations_of}

-- No tool of the agent changes what `count` reads.
abbrev pub ToolsKeep : {W A : Type 0} → Agent W → (W → A) → Type 0
ToolsKeep {W} agent count =
    (name : String) (args : Json) (w : W)
    → count (Registry.execute name args agent.registry w).1 ≡ count w

-- Each call of the provider is counted.
abbrev pub ChatCounts : {W : Type 0} → Agent W → (W → ℕ) → Type 0
ChatCounts {W} agent calls =
    (conv : Conversation) (request : ChatRequest) (w : W)
    → calls (agent.provider.chat conv request w).1 ≡ suc (calls w)

-- Each response reports, in one field of its usage, what the world has counted for it.
abbrev pub ChatReports : {W : Type 0} → Agent W → (Usage → ℤ) → (W → ℕ) → Type 0
ChatReports {W} agent field spent =
    (conv : Conversation) (request : ChatRequest) (w : W) (response : LlmResponse) (w' : W)
    → agent.provider.chat conv request w ≡ (ok response, w')
    → (k : ℕ) × (field response.usage ≡ pos k) × (spent w' ≡ spent w + k)

abbrev pub FailureKeeps : {W : Type 0} → Agent W → (W → ℕ) → Type 0
FailureKeeps {W} agent spent =
    (conv : Conversation) (request : ChatRequest) (w : W) (e : Exception) (w' : W)
    → agent.provider.chat conv request w ≡ (throw e, w')
    → spent w' ≡ spent w

abbrev pub usage_of : Run LoopResult → Usage
usage_of (returned result) = result.total_usage
usage_of (failed e) = e.usage

module _ {W A : Type 0} (p : Platform) (agent : Agent W) (count : W → A)
    (keep : ToolsKeep agent count) where
  pub dispatch-keeps :
      (blocks : List ContentBlock) (w : W)
      → count (dispatch_tools p agent.registry blocks w).1 ≡ count w
  unfolding dispatch_tools
  dispatch-keeps [] w = refl
  dispatch-keeps (text_block _ ∷ blocks) w = dispatch-keeps blocks w
  dispatch-keeps (tool_result_block _ ∷ blocks) w = dispatch-keeps blocks w
  dispatch-keeps (tool_use_block call ∷ blocks) w =
      dispatch-keeps blocks (Registry.execute call.name call.input agent.registry w).1
      ∙ keep call.name call.input w

-- A sum of two counts that fits an `int` does not wrap.
sum_exact : (a b c : ℕ) → a + b ≡ c → c < 2 ^ 31 → add_int (pos a) (pos b) ≡ pos c
unfolding ◌+ℤ◌
sum_exact a b c e fits = add_int_exact (pos a) (pos b) (ground arith) ∙ ground arith

module _ {W : Type 0} (p : Platform) (agent : Agent W) (calls : W → ℕ)
    (keep : ToolsKeep agent calls) (counts : ChatCounts agent calls) where
  calls-Turn :
      (request : ChatRequest) {s t : State W}
      → Turn p agent request s t
      → calls t.world ≡ suc (calls s.world)
  calls-Turn request {s} turn = rw turn.leads_to (
      dispatch-keeps p agent calls keep turn.response.message.content turn.world
      ∙ (rw (turn.answers) at (counts s.conversation request s.world)))

  calls-Turns :
      (request : ChatRequest) {n : ℕ} {s t : State W}
      → Turns p agent request n s t
      → calls t.world ≡ calls s.world + n
  calls-Turns request at_start = omega arith
  calls-Turns request (one_more turn turns) =
      omega (arith, calls-Turn request turn, calls-Turns request turns)

  -- The provider is called exactly as often as the run reports iterations: the failed call of a run
  -- that ends in the provider's exception is one of them, and a negative cap allows no call.
  pub execute_loop-calls :
      (working : Conversation) (overrides : RunOverrides) (output_schema : Option Json) (w : W)
      → calls (execute_loop p agent working overrides output_schema w).1
        ≡ calls w
          + pos_part (iterations_of (execute_loop p agent working overrides output_schema w).0)
  execute_loop-calls working overrides output_schema w =
      go _ (execute_loop-RunEnds p agent working overrides output_schema w)
    where
      go :
          (r : Run LoopResult × W)
          → RunEnds p agent working overrides output_schema w r
          → calls r.1 ≡ calls w + pos_part (iterations_of r.0)
      go r (answer n t response w' lt turns asked done e) =
          let h =
            (rw asked at (counts t.conversation (request_of p agent output_schema) t.world)) in
          rw e (omega (arith, calls-Turns _ turns, h))
      go r (broken n t x w' lt turns asked e) =
          let h =
            (rw asked at (counts t.conversation (request_of p agent output_schema) t.world)) in
          rw e (omega (arith, calls-Turns _ turns, h))
      go r (exhausted t turns e) = rw e (calls-Turns _ turns)

  -- The cap bounds the calls, however the loop ends.
  pub execute_loop-calls_bound :
      (working : Conversation) (overrides : RunOverrides) (output_schema : Option Json) (w : W)
      → calls (execute_loop p agent working overrides output_schema w).1
        ≤ calls w + pos_part (iteration_cap p agent overrides)
  execute_loop-calls_bound working overrides output_schema w =
      go _ (execute_loop-RunEnds p agent working overrides output_schema w)
    where
      go :
          (r : Run LoopResult × W)
          → RunEnds p agent working overrides output_schema w r
          → calls r.1 ≤ calls w + pos_part (iteration_cap p agent overrides)
      go r (answer n t response w' lt turns asked done e) =
          let h =
            (rw asked at (counts t.conversation (request_of p agent output_schema) t.world)) in
          rw e (omega (arith, calls-Turns _ turns, h))
      go r (broken n t x w' lt turns asked e) =
          let h =
            (rw asked at (counts t.conversation (request_of p agent output_schema) t.world)) in
          rw e (omega (arith, calls-Turns _ turns, h))
      go r (exhausted t turns e) = rw e (omega (arith, calls-Turns _ turns))

module _ {W : Type 0} (p : Platform) (agent : Agent W) (field : Usage → ℤ) (spent : W → ℕ)
    (sums : (a b : Usage) → field (accumulate a b) ≡ add_int (field a) (field b))
    (keep : ToolsKeep agent spent) (reports : ChatReports agent field spent) where
  -- The sum is exact while what has been spent fits an `int`.
  abbrev IsMetered : ℕ → Usage → W → Type 0
  IsMetered base usage w =
      (base ≤ spent w) × (spent w < 2 ^ 31 → field usage ≡ pos (spent w - base))

  IsMetered-accumulate :
      (base : ℕ) (conv : Conversation) (request : ChatRequest) (usage : Usage) (w : W)
      (response : LlmResponse) (w' : W)
      → agent.provider.chat conv request w ≡ (ok response, w')
      → IsMetered base usage w
      → IsMetered base (accumulate usage response.usage) w'
  IsMetered-accumulate base conv request usage w response w' asked h =
      let (k, reported, grew) = reports conv request w response w' asked in
      (
        omega arith,
        λ fits.
            sums usage response.usage
            ∙ (rw (h.1 (omega arith), reported)
                (sum_exact (spent w - base) k (spent w' - base) (omega arith) (omega arith))),
      )

  IsMetered-Turn :
      (base : ℕ) (request : ChatRequest) {s t : State W}
      → Turn p agent request s t
      → IsMetered base s.usage s.world
      → IsMetered base t.usage t.world
  IsMetered-Turn base request {s} turn h = rw turn.leads_to (
      rw (dispatch-keeps p agent spent keep turn.response.message.content turn.world) (
        IsMetered-accumulate base s.conversation request s.usage s.world turn.response turn.world
          turn.answers h))

  IsMetered-Turns :
      (base : ℕ) (request : ChatRequest) {n : ℕ} {s t : State W}
      → Turns p agent request n s t
      → IsMetered base s.usage s.world
      → IsMetered base t.usage t.world
  IsMetered-Turns base request at_start h = h
  IsMetered-Turns base request (one_more turn turns) h =
      IsMetered-Turns base request turns (IsMetered-Turn base request turn h)

  -- From no usage, a run of the loop is metered to its end.
  execute_loop-IsMetered :
      (failing : FailureKeeps agent spent) (zero_usage : field no_usage ≡ pos 0)
      (working : Conversation) (overrides : RunOverrides) (output_schema : Option Json) (w : W)
      → IsMetered
          (spent w)
          (usage_of (execute_loop p agent working overrides output_schema w).0)
          (execute_loop p agent working overrides output_schema w).1
  execute_loop-IsMetered failing zero_usage working overrides output_schema w =
      go _ (execute_loop-RunEnds p agent working overrides output_schema w)
    where
      first : IsMetered (spent w) no_usage w
      first = (omega arith, λ _. zero_usage ∙ ap pos (omega arith))

      go :
          (r : Run LoopResult × W)
          → RunEnds p agent working overrides output_schema w r
          → IsMetered (spent w) (usage_of r.0) r.1
      go r (answer n t response w' lt turns asked done e) = rw e (
          IsMetered-accumulate (spent w) t.conversation (request_of p agent output_schema) t.usage
            t.world response w' asked (IsMetered-Turns (spent w) _ turns first))
      go r (broken n t x w' lt turns asked e) = rw e (
          rw (failing t.conversation (request_of p agent output_schema) t.world x w' asked)
            (IsMetered-Turns (spent w) _ turns first))
      go r (exhausted t turns e) = rw e (IsMetered-Turns (spent w) _ turns first)

input_sums : (a b : Usage) → (accumulate a b).input_tokens ≡ add_int a.input_tokens b.input_tokens
unfolding accumulate
input_sums a b = refl

output_sums :
    (a b : Usage) → (accumulate a b).output_tokens ≡ add_int a.output_tokens b.output_tokens
unfolding accumulate
output_sums a b = refl

-- Where every response reports the tokens that the world counts for it, and neither tools nor failed
-- calls change the counts, the usage of a result or of an error is exactly what the run has spent,
-- provided that the counts fit an `int`.
pub execute_loop-usage :
    {W : Type 0} (p : Platform) (agent : Agent W) (input output : W → ℕ)
    → ToolsKeep agent input
    → ToolsKeep agent output
    → ChatReports agent (λ u. u.input_tokens) input
    → ChatReports agent (λ u. u.output_tokens) output
    → FailureKeeps agent input
    → FailureKeeps agent output
    → (working : Conversation) (overrides : RunOverrides) (output_schema : Option Json) (w : W)
    → input (execute_loop p agent working overrides output_schema w).1 < 2 ^ 31
    → output (execute_loop p agent working overrides output_schema w).1 < 2 ^ 31
    → ((usage_of (execute_loop p agent working overrides output_schema w).0).input_tokens
        ≡ pos (input (execute_loop p agent working overrides output_schema w).1 - input w))
      × ((usage_of (execute_loop p agent working overrides output_schema w).0).output_tokens
          ≡ pos (output (execute_loop p agent working overrides output_schema w).1 - output w))
execute_loop-usage p agent input output ki ko ri ro fi fo working overrides output_schema w hi ho =
    (
      (execute_loop-IsMetered p agent (λ u. u.input_tokens) input input_sums ki ri fi refl working
            overrides output_schema w).1
          hi,
      (execute_loop-IsMetered p agent (λ u. u.output_tokens) output output_sums ko ro fo refl
            working overrides output_schema w).1
          ho,
    )
