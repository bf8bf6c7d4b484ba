-- ===== src/Agent/Accounting.antt =====
-- The numbers that a run of the loop reports: rounds, calls of the provider, messages, tokens.
use forgeant.Prelude.{
  length-append, ℕ, ◌+◌, ◌*◌, ◌≤◌, ◌<◌, ◌≡◌, refl, Option, [], ◌∷◌, ◌++◌, length, arith,
}
use forgeant.Prelude.Int.{ℤ, pos, pos_part}
use forgeant.Platform.{Platform}
use forgeant.Json.{Json}
use forgeant.Types.Message.{Message}
use forgeant.Types.Conversation
use forgeant.Types.Conversation.{Conversation}
use forgeant.Provider.{ChatRequest}
use forgeant.Agent.{
  Agent, Kind, provider_error, max_iterations, structured_parse, LoopResult, Run, returned, failed,
  RunOverrides, execute_loop, iteration_cap,
}
use forgeant.Agent.Turns.{
  State, after, Turn, Turns, at_start, one_more, answer, broken, exhausted, RunEnds,
  execute_loop-RunEnds,
}

abbrev pub iterations_of : Run LoopResult → ℤ
iterations_of (returned result) = result.iterations
iterations_of (failed e) = e.iterations

abbrev size : Conversation → ℕ
size conv = length conv.messages

-- What a failure says of the rounds: an exception of the provider counts the call that failed.
abbrev FailureCounted : Kind → ℤ → ℕ → ℕ → ℤ → Type 0
FailureCounted provider_error iterations before after limit =
    (0 < pos_part iterations)
    × (iterations ≡ pos (pos_part iterations))
    × (pos_part iterations ≤ pos_part limit)
    × (after + 2 ≡ before + 2 * pos_part iterations)
FailureCounted max_iterations iterations before after limit =
    (iterations ≡ limit) × (after ≡ before + 2 * pos_part limit)
FailureCounted structured_parse iterations before after limit = ⊥

-- `before` is the number of messages that the run was given.
abbrev pub Counted : Run LoopResult → ℕ → ℤ → Type 0
Counted (returned result) before limit =
    (0 < pos_part result.iterations)
    × (result.iterations ≡ pos (pos_part result.iterations))
    × (pos_part result.iterations ≤ pos_part limit)
    × (size result.conversation + 1 ≡ before + 2 * pos_part result.iterations)
Counted (failed e) before limit =
    FailureCounted e.kind e.iterations before (size e.conversation) limit

size-add : (m : Message) (conv : Conversation) → size (Conversation.add m conv) ≡ size conv + 1
size-add m conv = length-append conv.messages (m ∷ [])

module _ {W : Type 0} (p : Platform) (agent : Agent W) (request : ChatRequest) where
  size-Turn :
      {s t : State W} → Turn p agent request s t → size t.conversation ≡ size s.conversation + 2
  size-Turn {s} turn = rw turn.leads_to (
      omega (
        arith,
        length-append (s.conversation.messages ++ turn.response.message ∷ []),
        length-append s.conversation.messages,
      ))

  size-Turns :
      {n : ℕ} {s t : State W}
      → Turns p agent request n s t
      → size t.conversation ≡ size s.conversation + 2 * n
  size-Turns at_start = omega arith
  size-Turns (one_more turn turns) = omega (arith, size-Turn turn, size-Turns turns)

module _ {W : Type 0} (p : Platform) (agent : Agent W) (working : Conversation)
    (overrides : RunOverrides) (output_schema : Option Json) (w : W) where
  -- A run takes between one round and the cap where it returns or the provider fails, and exactly
  -- the cap otherwise; each round adds two messages, the last one of a result adds one, and a failed
  -- call of the provider is counted as a round and adds none.
  pub execute_loop-Counted :
      Counted
        (execute_loop p agent working overrides output_schema w).0
        (length working.messages)
        (iteration_cap p agent overrides)
  execute_loop-Counted = go _ (execute_loop-RunEnds p agent working overrides output_schema w)
    where
      go :
          (r : Run LoopResult × W)
          → RunEnds p agent working overrides output_schema w r
          → Counted r.0 (length working.messages) (iteration_cap p agent overrides)
      go r (answer n t response w' lt turns asked done e) = rw e (
        omega arith,
        refl,
        omega arith,
        omega (arith, size-Turns p agent _ turns, size-add response.message t.conversation),
      )
      go r (broken n t x w' lt turns asked e) =
          rw e (omega arith, refl, omega arith, omega (arith, size-Turns p agent _ turns))
      go r (exhausted t turns e) = rw e (refl, size-Turns p agent _ turns)
