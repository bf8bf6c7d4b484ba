-- ===== src/Agent/Turns.antt =====
-- The specification of the agent loop: rounds with tool calls as steps on the conversation, the
-- usage and the world, and the three ways in which a run of the loop can end.
use mathlib.Core.Path.{subst}
use forgeant.Prelude.{
  ℕ, zero, suc, ◌+◌, ◌<◌, ◌≡◌, refl, sym, ◌-◌, ◌∙◌, ◌↔◌, true, false, Option, inl, inr, Bool-cases,
  arith,
}
use forgeant.Prelude.Int.{ℤ, pos, pos_part}
use forgeant.Outcome.{Outcome, ok, throw, Exception}
use forgeant.Platform.{Platform, what}
use forgeant.Json.{Json}
use forgeant.Types.Role
use forgeant.Types.Conversation
use forgeant.Types.Conversation.{Conversation}
use forgeant.Provider.{Usage, no_usage, accumulate, LlmResponse, ChatRequest}
use forgeant.Agent.{
  Agent, LoopResult, Run, returned, failed, RunOverrides, provider_error, max_iterations,
  has_tool_use, dispatch_tools, round, loop, request_of, iteration_cap, execute_loop,
}

-- Where a run of the loop stands before a call of the provider.
pub record State (W : Type 0) : Type 0 where
  pub conversation : Conversation
  pub usage : Usage
  pub world : W

module _ {W : Type 0} (p : Platform) (agent : Agent W) (request : ChatRequest) where
  -- The state after a response with tool calls, and after the tools have run.
  abbrev pub after : State W → LlmResponse → W → State W
  after s response w =
      let (results, w') = dispatch_tools p agent.registry response.message.content w in
      record {
        conversation =
            Conversation.add (record { role = Role.tool; content = results })
              (Conversation.add response.message s.conversation);
        usage = accumulate s.usage response.usage;
        world = w';
      }

  -- One round: the provider answers with tool calls, and each is answered.
  pub record Turn (s t : State W) : Type 0 where
    pub response : LlmResponse
    pub world : W
    pub answers : agent.provider.chat s.conversation request s.world ≡ (ok response, world)
    pub calls : has_tool_use response.message ≡ true
    pub leads_to : t ≡ after s response world

  pub data Turns : ℕ → State W → State W → Type 0 where
    at_start : {s : State W} → Turns zero s s
    one_more : {n : ℕ} {s t u : State W} → Turn s t → Turns n t u → Turns (suc n) s u

  -- How a run with at most `max` rounds ends, where `i` rounds went before and `limit` is the limit that
  -- the error reports.
  pub data Ends (limit : ℤ) (max i : ℕ) (s : State W) (r : Run LoopResult × W) : Type 0 where
    -- a response with no tool calls
    answer :
        (n : ℕ) (t : State W) (response : LlmResponse) (w : W)
        → n < max
        → Turns n s t
        → agent.provider.chat t.conversation request t.world ≡ (ok response, w)
        → has_tool_use response.message ≡ false
        → r ≡ (
          returned (record {
            conversation = Conversation.add response.message t.conversation;
            total_usage = accumulate t.usage response.usage;
            iterations = pos (i + n + 1);
            finish_reason = response.finish_reason;
          }),
          w,
        )
        → Ends limit max i s r
    -- an exception of the provider
    broken :
        (n : ℕ) (t : State W) (e : Exception) (w : W)
        → n < max
        → Turns n s t
        → agent.provider.chat t.conversation request t.world ≡ (throw e, w)
        → r ≡ (
          failed (record {
            kind = provider_error;
            message = what p e;
            conversation = t.conversation;
            usage = t.usage;
            iterations = pos (i + n + 1);
            finish_reason = "error";
          }),
          w,
        )
        → Ends limit max i s r
    -- `max` rounds with tool calls
    exhausted :
        (t : State W)
        → Turns max s t
        → r ≡ (
          failed (record {
            kind = max_iterations;
            message = "max_iterations reached without a terminal response";
            conversation = t.conversation;
            usage = t.usage;
            iterations = limit;
            finish_reason = "max_iterations";
          }),
          t.world,
        )
        → Ends limit max i s r

  -- One round in front of a run.
  Ends-one_more :
      (limit : ℤ) (max i : ℕ) {s t : State W} (r : Run LoopResult × W)
      → Turn s t
      → Ends limit max (i + 1) t r
      → Ends limit (suc max) i s r
  Ends-one_more limit max i r first (answer n t response w lt turns asked done e) =
      answer (suc n) t response w (omega arith) (one_more first turns) asked done
        (rw (let h : i + 1 + n + 1 ≡ i + suc n + 1 = omega arith in h) at e)
  Ends-one_more limit max i r first (broken n t x w lt turns asked e) =
      broken (suc n) t x w (omega arith) (one_more first turns) asked
        (rw (let h : i + 1 + n + 1 ≡ i + suc n + 1 = omega arith in h) at e)
  Ends-one_more limit max i r first (exhausted t turns e) = exhausted t (one_more first turns) e

  -- The loop of the program ends in one of the three ways.
  loop-Ends :
      (limit : ℤ) (max i : ℕ) (s : State W)
      → Ends limit max i s (loop p agent request limit max i s.conversation s.usage s.world)
  unfolding loop
  loop-Ends limit zero i s = exhausted s at_start refl
  loop-Ends limit (suc max) i s =
      go (agent.provider.chat s.conversation request s.world) refl
        (λ t. loop-Ends limit max (i + 1) t)
    where
      go :
          (c : Outcome LlmResponse × W)
          → agent.provider.chat s.conversation request s.world ≡ c
          → ((t : State W)
              → Ends limit max
                  (i + 1)
                  t
                  (loop p agent request limit max (i + 1) t.conversation t.usage t.world))
          → Ends limit (suc max) i s (
              round p agent.registry
                (loop p agent request limit max (i + 1))
                i
                s.conversation
                s.usage
                c)
      go (throw e, w) asked rest =
          broken 0 s e w (omega arith) at_start asked
            (rw (let h : i + 0 + 1 ≡ i + 1 = omega arith in h))
      go (ok response, w) asked rest = elim (Bool-cases (has_tool_use response.message)) [
        | inl calls ↦
            rw (calls, round)
              (Ends-one_more limit max i _
                (record {
                  response = response;
                  world = w;
                  answers = asked;
                  calls = calls;
                  leads_to = refl;
                })
                (rest _))
        | inr done ↦
            rw (done, round)
              (answer 0 s response w (omega arith) at_start asked done
                (rw (let h : i + 0 + 1 ≡ i + 1 = omega arith in h)))
      ]

  -- One round of the specification is one round of the loop.
  Turn-loop :
      (limit : ℤ) (max i : ℕ) {s t : State W}
      → Turn s t
      → loop p agent request limit (suc max) i s.conversation s.usage s.world
        ≡ loop p agent request limit max (i + 1) t.conversation t.usage t.world
  unfolding loop
  Turn-loop limit max i turn = rw turn.leads_to (rw turn.answers (rw (turn.calls, round)))

  Turns-loop :
      (limit : ℤ) (n max i : ℕ) {s t : State W}
      → Turns n s t
      → loop p agent request limit (n + max) i s.conversation s.usage s.world
        ≡ loop p agent request limit max (i + n) t.conversation t.usage t.world
  Turns-loop limit zero max i at_start =
      rw (let h : 0 + max ≡ max = omega arith in h) (rw (let h : i + 0 ≡ i = omega arith in h))
  Turns-loop limit (suc n) max i (one_more first rest) =
      rw (let h : suc n + max ≡ suc (n + max) = omega arith in h) (
        rw (let h : i + suc n ≡ i + 1 + n = omega arith in h)
          (Turn-loop limit (n + max) i first ∙ Turns-loop limit n max (i + 1) rest))

  -- Each of the three ways determines what the loop gives.
  Ends-loop :
      (limit : ℤ) (max i : ℕ) (s : State W) (r : Run LoopResult × W)
      → Ends limit max i s r
      → r ≡ loop p agent request limit max i s.conversation s.usage s.world
  unfolding loop
  Ends-loop limit max i s r (answer n t response w lt turns asked done e) =
      e
      ∙ sym (
          rw (let h : max ≡ n + suc (max - suc n) = omega arith in h)
            (Turns-loop limit n (suc (max - suc n)) i turns ∙ rw asked (rw (done, round))))
  Ends-loop limit max i s r (broken n t x w lt turns asked e) =
      e
      ∙ sym (
          rw (let h : max ≡ n + suc (max - suc n) = omega arith in h)
            (Turns-loop limit n (suc (max - suc n)) i turns ∙ rw asked))
  Ends-loop limit max i s r (exhausted t turns e) =
      e ∙ sym (rw (let h : max ≡ max + 0 = omega arith in h) (Turns-loop limit max 0 i turns))

abbrev pub start : {W : Type 0} → Conversation → W → State W
start working w = record { conversation = working; usage = no_usage; world = w }

-- `Ends` at the arguments of `execute_loop`.
abbrev pub RunEnds :
    {W : Type 0}
    → Platform
    → Agent W
    → Conversation
    → RunOverrides
    → Option Json
    → W
    → Run LoopResult × W
    → Type 0
RunEnds p agent working overrides output_schema w r =
    let limit = iteration_cap p agent overrides in
    Ends p agent (request_of p agent output_schema) limit (pos_part limit) 0 (start working w) r

-- `execute_loop` gives exactly the outcome that the specification allows: a run ends with an answer
-- that has no tool calls after fewer than `max_iterations` rounds of answered tool calls, with the
-- provider's exception after fewer, or with `max_iterations` such rounds, and nothing else happens.
pub execute_loop_iff :
    {W : Type 0} (p : Platform) (agent : Agent W) (working : Conversation)
    (overrides : RunOverrides) (output_schema : Option Json) (w : W) (r : Run LoopResult × W)
    → RunEnds p agent working overrides output_schema w r
      ↔ (r ≡ execute_loop p agent working overrides output_schema w)
unfolding execute_loop
execute_loop_iff p agent working overrides output_schema w r =
    let limit = iteration_cap p agent overrides in
    let request = request_of p agent output_schema in
    (
      Ends-loop p agent request limit (pos_part limit) 0 (start working w) r,
      λ e.
          subst (λ x. RunEnds p agent working overrides output_schema w x) (sym e)
            (loop-Ends p agent request limit (pos_part limit) 0 (start working w)),
    )

pub execute_loop-RunEnds :
    {W : Type 0} (p : Platform) (agent : Agent W) (working : Conversation)
    (overrides : RunOverrides) (output_schema : Option Json) (w : W)
    → RunEnds p agent working overrides output_schema w
        (execute_loop p agent working overrides output_schema w)
execute_loop-RunEnds p agent working overrides output_schema w =
    (execute_loop_iff p agent working overrides output_schema w _).1 refl
